-- ===== src/Verifiable/Floats/Product/Tests.antt =====
-- The product of verifiable/verifiable.cu for five ranks.
use nccl_tests.Prelude.{
  ℕ, ◌*◌, ◌%◌, ◌^◌, ◌<◌, ◌≡◌, refl, arith, Bool, some, [], ◌∷◌, map, if◌then◌else◌,
}
use nccl_tests.Prelude.Sums.{sum}
use nccl_tests.Verifiable.Words.{clz32, bit_length, mix_bits, hash_of}
use nccl_tests.Verifiable.Shuffle.{
  shuffle_rank, largest_mask, first_round, second_round, shuffle_bottom,
}
use nccl_tests.Verifiable.SumXy.{
  gen_sum_xy, choose_y, contribution, partitions, partition_sum, ranks_per_partition, submit_with,
  submitted,
}
use nccl_tests.Verifiable.Floats.{float16, make_float}
use nccl_tests.Verifiable.Floats.Fields.{magnitude, sign_field}
use nccl_tests.Verifiable.Floats.Encoding.{IsFinite}
use nccl_tests.Verifiable.Floats.Signs.{chosen}
use nccl_tests.Verifiable.Floats.Product.{
  product_answer, gen_in_out_float_prod, gen_input_prod, gen_output_prod,
}
use nccl_tests.Verifiable.Floats.Product.Powers.{product, unit}
use nccl_tests.Verifiable.Floats.Product.Exact.{gen_input_prod-exact, gen_input_prod-partial}

five_inputs :
    map (λ r. gen_input_prod float16 5 r 42 7) (0 ∷ 1 ∷ 2 ∷ 3 ∷ 4 ∷ [])
    ≡ some 16406 ∷ some 18432 ∷ some 50176 ∷ some 22528 ∷ some 48128 ∷ []
unfolding gen_input_prod gen_in_out_float_prod product_answer gen_sum_xy choose_y contribution
    partitions partition_sum ranks_per_partition submit_with submitted make_float shuffle_rank
    largest_mask first_round second_round shuffle_bottom clz32 bit_length mix_bits hash_of
five_inputs = refl

one_output : gen_output_prod float16 5 42 7 ≡ some 28694
unfolding gen_output_prod gen_in_out_float_prod product_answer gen_sum_xy choose_y contribution
    partitions partition_sum ranks_per_partition submit_with submitted make_float shuffle_rank
    largest_mask first_round second_round shuffle_bottom clz32 bit_length mix_bits hash_of
one_output = refl

gen_input_prod-exact_example :
    (x : ℕ → ℕ) × (y : ℕ) × ((r : ℕ) → r < 5 → gen_input_prod float16 5 r 42 7 ≡ some (x r))
    × (gen_output_prod float16 5 42 7 ≡ some y)
    × (sum (λ r. sign_field float16 (x r)) 5 % 2 ≡ sign_field float16 y)
    × (product (λ r. magnitude float16 (x r)) 5 * unit float16
        ≡ magnitude float16 y * unit float16 ^ 5)
gen_input_prod-exact_example = gen_input_prod-exact float16 5 42 7 (omega arith) (omega arith)

gen_input_prod-partial_example :
    (x : ℕ → ℕ) × ((r : ℕ) → r < 5 → gen_input_prod float16 5 r 42 7 ≡ some (x r))
    × ((p : ℕ → Bool)
        → (z : ℕ) × IsFinite float16 z
          × (sum (λ r. chosen (p r) (sign_field float16 (x r))) 5 % 2 ≡ sign_field float16 z)
          × (product (λ r. if p r then magnitude float16 (x r) else unit float16) 5 * unit float16
              ≡ magnitude float16 z * unit float16 ^ 5))
gen_input_prod-partial_example = gen_input_prod-partial float16 5 42 7 (omega arith) (omega arith)
