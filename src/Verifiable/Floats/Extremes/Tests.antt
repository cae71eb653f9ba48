-- ===== src/Verifiable/Floats/Extremes/Tests.antt =====
-- A random number of verifiable/verifiable.cu.
use nccl_tests.Prelude.{◌≡◌, refl}
use nccl_tests.Verifiable.Words.{hash_of}
use nccl_tests.Verifiable.Floats.{float16, make_float}
use nccl_tests.Verifiable.Floats.Extremes.{random_float, gen_input_max}

drawn_number : gen_input_max float16 3 42 7 ≡ 56466
unfolding gen_input_max random_float make_float hash_of
drawn_number = refl
