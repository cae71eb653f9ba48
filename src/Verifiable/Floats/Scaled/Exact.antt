-- ===== src/Verifiable/Floats/Scaled/Exact.antt =====
-- The sum with scalars in verifiable/verifiable.cu: the inputs, each times its rank's scalar, add up to the output.
use nccl_tests.Prelude.{ℕ, ◌+◌, ◌*◌, ◌/◌, ◌%◌, ◌^◌, ◌<◌, ◌≤◌, ◌≡◌, some, arith}
use nccl_tests.Prelude.Sums.{sum}
use nccl_tests.Verifiable.Words.{mix_bits, hash_of}
use nccl_tests.Verifiable.Floats.{Float, max_mant, random_exp}
use nccl_tests.Verifiable.Floats.Fields.{above, below}
use nccl_tests.Verifiable.Floats.Woven.{random_exp-range}
use nccl_tests.Verifiable.Floats.Scaled.{
  premul_scalar, gen_in_out_float_premulsum, gen_input_premulsum, gen_output_premulsum,
}
use nccl_tests.Verifiable.Floats.Scaled.Draw.{scaled_draw}

-- For every floating point type, two ranks or more, fewer than 2^31, and no more even and odd
-- ranks than half of the largest sums of each: the inputs and the output of a sum with scalars are
-- defined, and the inputs, each times the scalar of its rank, add up to the output.
pub gen_input_premulsum-exact :
    (t : Float) (rank_n seed index : ℕ)
    → 2 ≤ rank_n
    → rank_n < 2 ^ 31
    → (rank_n + 1) / 2 ≤ (max_mant t / 2 + 1) / 2
    → rank_n / 2 ≤ (max_mant t / 4 + 1) / 2
    → (x : ℕ → ℕ) × (y : ℕ) × ((r : ℕ)
        → r < rank_n
        → gen_input_premulsum t rank_n r seed index ≡ some (x r))
      × (gen_output_premulsum t rank_n seed index ≡ some y)
      × (sum (λ r. premul_scalar r * above t (x r)) rank_n + below t y
          ≡ sum (λ r. premul_scalar r * below t (x r)) rank_n + above t y)
unfolding gen_input_premulsum gen_output_premulsum gen_in_out_float_premulsum
gen_input_premulsum-exact t rank_n seed index pair count few0 few1 =
    let rng = hash_of seed index in
    let (low, high) = random_exp-range t rng in
    scaled_draw t rank_n (rng % 2) (random_exp t rng) (mix_bits rng) pair count few0 few1
      (omega arith) low (omega arith)
