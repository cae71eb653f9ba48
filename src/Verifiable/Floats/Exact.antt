-- ===== src/Verifiable/Floats/Exact.antt =====
-- The sum of floating point numbers in verifiable/verifiable.cu is predictable: no rounding, whatever the order.
use nccl_tests.Prelude.{ℕ, ◌+◌, ◌/◌, ◌%◌, ◌^◌, ◌<◌, ◌≤◌, ◌≡◌, Bool, some, arith}
use nccl_tests.Prelude.Sums.{sum}
use nccl_tests.Verifiable.Words.{mix_bits, hash_of}
use nccl_tests.Verifiable.Words.Bits.{mix_bits-lt}
use nccl_tests.Verifiable.Shuffle.{shuffle_rank}
use nccl_tests.Verifiable.Shuffle.Count.{sum_shuffled}
use nccl_tests.Verifiable.Floats.{
  Float, mantissa_bits, random_exp, gen_in_out_float_sum, gen_input_sum, gen_output_sum, encode,
}
use nccl_tests.Verifiable.Floats.Fields.{above, below}
use nccl_tests.Verifiable.Floats.Encoding.{IsFinite}
use nccl_tests.Verifiable.Floats.Woven.{random_exp-range}
use nccl_tests.Verifiable.Floats.Signs.{Drawn, chosen, drawn, partial_sum, whole_sum}
use nccl_tests.Verifiable.Floats.Sum.{mixed_sign_sum-Drawn}

module _ (t : Float) (rank_n seed index : ℕ) (pair : 2 ≤ rank_n)
    (few : (rank_n + 1) / 2 ≤ 2 ^ mantissa_bits t) (count : rank_n < 2 ^ 31) where
  sum-Drawn :
      Drawn t rank_n (λ r. gen_input_sum t rank_n r seed index) (gen_output_sum t rank_n seed index)
  unfolding gen_input_sum gen_output_sum gen_in_out_float_sum
  sum-Drawn =
      let rng = hash_of seed index in
      let (low, high) = random_exp-range t rng in
      mixed_sign_sum-Drawn t rank_n (rng % 2) (random_exp t rng) (mix_bits (mix_bits rng)) pair few
        count (omega arith) low high (mix_bits-lt (mix_bits rng))
        (λ r. shuffle_rank rank_n r (mix_bits rng))
        (λ g. sum_shuffled rank_n (mix_bits rng) g count) (shuffle_rank rank_n 0 (mix_bits rng))

  -- For every floating point type, two ranks or more, fewer than 2^31, and no more than make half
  -- of them, rounded up, 2^m for m mantissa bits: whatever the seed and the index, each rank's
  -- input and the output of a sum are defined, and the numbers that the inputs stand for add up to
  -- the number that the output stands for.
  pub gen_input_sum-exact :
      (x : ℕ → ℕ) × (y : ℕ) × ((r : ℕ)
        → r < rank_n
        → gen_input_sum t rank_n r seed index ≡ some (x r))
      × (gen_output_sum t rank_n seed index ≡ some y)
      × (sum (λ r. above t (x r)) rank_n + below t y ≡ sum (λ r. below t (x r)) rank_n + above t y)
  unfolding drawn
  gen_input_sum-exact = (
    drawn t rank_n _ _ sum-Drawn,
    encode t sum-Drawn.total_sign sum-Drawn.exponent sum-Drawn.total,
    sum-Drawn.is_input,
    sum-Drawn.is_output,
    whole_sum t rank_n _ _ sum-Drawn,
  )

  -- With any floating point type, two ranks or more, fewer than 2^31, and no more than make half
  -- of them, rounded up, 2^m for m mantissa bits: each rank's input is defined, and the numbers of
  -- any set of the ranks add up to a finite number of the type, so that no partial sum is rounded.
  pub gen_input_sum-partial :
      (x : ℕ → ℕ) × ((r : ℕ) → r < rank_n → gen_input_sum t rank_n r seed index ≡ some (x r))
      × ((p : ℕ → Bool)
          → (z : ℕ) × IsFinite t z
            × (sum (λ r. chosen (p r) (above t (x r))) rank_n + below t z
                ≡ sum (λ r. chosen (p r) (below t (x r))) rank_n + above t z))
  unfolding drawn
  gen_input_sum-partial =
      (drawn t rank_n _ _ sum-Drawn, sum-Drawn.is_input, partial_sum t rank_n _ _ sum-Drawn)
