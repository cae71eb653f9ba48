-- ===== src/Verifiable/Floats/Tests.antt =====
-- Five ranks with 16-bit numbers, as in verifiable/verifiable.cu.
use nccl_tests.Prelude.{ℕ, ◌+◌, ◌*◌, ◌<◌, ◌≡◌, refl, Bool, some, [], ◌∷◌, map, arith}
use nccl_tests.Prelude.Sums.{sum}
use nccl_tests.Verifiable.Words.{clz32, clz64, bit_length, mix_bits, hash_of}
use nccl_tests.Verifiable.Floats.{
  float16, bfloat16, gen_input_sum, gen_output_sum, gen_in_out_float_sum, mixed_sign_sum, encode,
  make_float,
}
use nccl_tests.Verifiable.Shuffle.{
  shuffle_rank, largest_mask, first_round, second_round, shuffle_bottom,
}
use nccl_tests.Verifiable.SumXy.{
  gen_sum_xy, choose_y, contribution, partitions, partition_sum, ranks_per_partition, submit_with,
  submitted,
}
use nccl_tests.Verifiable.Floats.Fields.{above, below}
use nccl_tests.Verifiable.Floats.Encoding.{IsFinite}
use nccl_tests.Verifiable.Floats.Signs.{chosen}
use nccl_tests.Verifiable.Floats.Exact.{gen_input_sum-exact, gen_input_sum-partial}
use nccl_tests.Verifiable.Floats.Scaled.{premul_scalar, gen_input_premulsum, gen_output_premulsum}
use nccl_tests.Verifiable.Floats.Scaled.Exact.{gen_input_premulsum-exact}

-- The numbers are -102.875, 0.125, 100.3125, 0.0625 and -0.0625, and their sum is -2.4375.
five_inputs :
    map (λ r. gen_input_sum float16 5 r 42 7) (0 ∷ 1 ∷ 2 ∷ 3 ∷ 4 ∷ [])
    ≡ some 54894 ∷ some 12288 ∷ some 22085 ∷ some 11264 ∷ some 44032 ∷ []
unfolding gen_input_sum gen_in_out_float_sum mixed_sign_sum gen_sum_xy choose_y contribution
    partitions partition_sum ranks_per_partition submit_with submitted encode make_float
    shuffle_rank largest_mask first_round second_round shuffle_bottom clz32 clz64 bit_length
    mix_bits hash_of
five_inputs = refl

one_output : gen_output_sum float16 5 42 7 ≡ some 49376
unfolding gen_output_sum gen_in_out_float_sum mixed_sign_sum gen_sum_xy choose_y contribution
    partitions partition_sum ranks_per_partition submit_with submitted encode make_float
    shuffle_rank largest_mask first_round second_round shuffle_bottom clz32 clz64 bit_length
    mix_bits hash_of
one_output = refl

gen_input_sum-exact_example :
    (x : ℕ → ℕ) × (y : ℕ) × ((r : ℕ) → r < 5 → gen_input_sum float16 5 r 42 7 ≡ some (x r))
    × (gen_output_sum float16 5 42 7 ≡ some y)
    × (sum (λ r. above float16 (x r)) 5 + below float16 y
        ≡ sum (λ r. below float16 (x r)) 5 + above float16 y)
gen_input_sum-exact_example =
    gen_input_sum-exact float16 5 42 7 (omega arith) (omega arith) (omega arith)

gen_input_sum-partial_example :
    (x : ℕ → ℕ) × ((r : ℕ) → r < 5 → gen_input_sum float16 5 r 42 7 ≡ some (x r))
    × ((p : ℕ → Bool)
        → (z : ℕ) × IsFinite float16 z
          × (sum (λ r. chosen (p r) (above float16 (x r))) 5 + below float16 z
              ≡ sum (λ r. chosen (p r) (below float16 (x r))) 5 + above float16 z))
gen_input_sum-partial_example =
    gen_input_sum-partial float16 5 42 7 (omega arith) (omega arith) (omega arith)

gen_input_premulsum-exact_example :
    (x : ℕ → ℕ) × (y : ℕ) × ((r : ℕ) → r < 5 → gen_input_premulsum bfloat16 5 r 42 7 ≡ some (x r))
    × (gen_output_premulsum bfloat16 5 42 7 ≡ some y)
    × (sum (λ r. premul_scalar r * above bfloat16 (x r)) 5 + below bfloat16 y
        ≡ sum (λ r. premul_scalar r * below bfloat16 (x r)) 5 + above bfloat16 y)
gen_input_premulsum-exact_example =
    gen_input_premulsum-exact bfloat16 5 42 7 (omega arith) (omega arith) (omega arith)
      (omega arith)
