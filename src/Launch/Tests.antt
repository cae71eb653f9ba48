-- ===== src/Launch/Tests.antt =====
-- A call of `startColl` of src/common.cu at fixed sizes.
use nccl_tests.Prelude.{true, arith}
use nccl_tests.Collectives.{all_gather}
use nccl_tests.Collectives.Fit.{four}
use nccl_tests.Launch.Bounds.{Placed, start_coll-Placed}

start_coll-Placed_example : Placed all_gather 1000 4 3 4096 1 5 2 true
start_coll-Placed_example =
    start_coll-Placed all_gather 1000 4 3 4096 1 5 2 true four (omega arith) (omega arith)
      (omega arith) (omega arith)
