-- ===== src/Collectives/Tests.antt =====
-- 1000 bytes of `float` gathered from three ranks, as src/all_gather.cu counts them.
use nccl_tests.Prelude.{◌≡◌, refl, arith}
use nccl_tests.Collectives.{all_gather, setup_args, coll_byte_count}
use nccl_tests.Collectives.Fit.{Fits, four, setup_args-Fits}

gathered : (setup_args all_gather 1000 4 3).expected_bytes ≡ 960
unfolding setup_args coll_byte_count
gathered = refl

setup_args-Fits_example : Fits 1000 3 (setup_args all_gather 1000 4 3)
setup_args-Fits_example = setup_args-Fits all_gather 1000 4 3 four (omega arith) (omega arith)
