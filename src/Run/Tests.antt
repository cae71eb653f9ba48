-- ===== src/Run/Tests.antt =====
-- What `run` of src/common.cu hands out, at fixed numbers.
use nccl_tests.Prelude.{◌+◌, ◌*◌, ◌≡◌, refl, true, false, arith}
use nccl_tests.Run.{gb, buffers, reserve_mem, mem_max_bytes, limit_sizes}
use nccl_tests.Run.Memory.{Limited, limit_sizes-Limited}
use nccl_tests.Run.Ranks.{Ranked, run-Ranked}

limit_sizes-Limited_example :
    Limited
      (buffers true)
      (reserve_mem (16 * gb) + 1 * gb)
      (16 * gb)
      (mem_max_bytes true (16 * gb))
      1024
      (8 * gb)
      (limit_sizes true (16 * gb) 1024 (8 * gb))
limit_sizes-Limited_example =
    limit_sizes-Limited true (16 * gb) 1024 (8 * gb) (omega arith) (omega arith) (omega arith)

-- On a GPU of 1 GiB the subtraction goes below 0, and the sizes are not limited.
below_zero : limit_sizes false (1 * gb) 1024 (64 * gb) ≡ (1024, 64 * gb)
unfolding limit_sizes
below_zero = refl

run-Ranked_example : Ranked 2 3 4 1 2 3
run-Ranked_example = run-Ranked 2 3 4 1 2 3 (omega arith) (omega arith) (omega arith) (omega arith)
