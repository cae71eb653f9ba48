-- ===== src/Verifiable/Floats/Scaled.antt =====
-- The sum of floating point numbers with scalars, `ReducePreMulSum` of verifiable/verifiable.cu: the even ranks
-- have the scalar 1, the odd ones the scalar 2.
pub mod Draw
pub mod Exact
use nccl_tests.Prelude.{
  ℕ, ◌+◌, ◌-◌, ◌*◌, ◌/◌, ◌%◌, ◌^◌, Bool, true, false, Option, none, some, ◌==◌, if◌then◌else◌,
}
use nccl_tests.Verifiable.Words.{u32, mix_bits, hash_of, umul32hi}
use nccl_tests.Verifiable.Shuffle.{shuffle_rank}
use nccl_tests.Verifiable.SumXy.{modulus, gen_sum_xy}
use nccl_tests.Verifiable.Floats.{Float, uintmant, max_mant, random_exp, either, answer}

-- `ncclVerifiablePremulScalar`.
abbrev pub premul_scalar : (rank : ℕ) → ℕ
premul_scalar rank = if rank % 2 == 0 then 1 else 2

-- What the ranks with the scalar 2 submit, if there are any.
unfoldable pub second_sum : (t : Float) → (ranks subrank rng : ℕ) → Option ℕ × ℕ
second_sum t ranks subrank rng =
    if ranks == 0
    then (some 0, 0)
    else gen_sum_xy (uintmant t) ranks subrank rng (max_mant t / 4) 0 false

-- `sign`, `exp` and `rng` as they are before the two shuffles.
unfoldable pub scaled_sum :
    (t : Float) → (input : Bool) → (rank_n rank_me sign exp rng : ℕ) → Option ℕ
scaled_sum t input rank_n rank_me sign exp rng =
    let rng1 = mix_bits rng in
    let rng2 = mix_bits rng1 in
    let subrank0 = shuffle_rank ((rank_n + 1) / 2) (rank_me / 2) rng in
    let subrank1 = shuffle_rank (rank_n / 2) (rank_me / 2) rng1 in
    let (x0, y0) =
      gen_sum_xy (uintmant t) ((rank_n + 1) / 2) subrank0 rng2 (max_mant t / 2) 0 false in
    let (x1, y1) = second_sum t (rank_n / 2) subrank1 (mix_bits rng2) in
    answer t input sign sign exp (either rank_me x0 x1) ((y0 + 2 * y1) % modulus (uintmant t))

unfoldable pub gen_in_out_float_premulsum :
    (t : Float) → (input_not_output : Bool) → (rank_n rank_me seed index : ℕ) → Option ℕ
gen_in_out_float_premulsum t input_not_output rank_n rank_me seed index =
    let rng = hash_of seed index in
    scaled_sum t input_not_output rank_n rank_me (rng % 2) (random_exp t rng) (mix_bits rng)

-- `genInput` and `genOutput` of the sum with scalars.
unfoldable pub gen_input_premulsum : (t : Float) → (rank_n rank_me seed index : ℕ) → Option ℕ
gen_input_premulsum t rank_n rank_me seed index =
    gen_in_out_float_premulsum t true rank_n rank_me seed index

unfoldable pub gen_output_premulsum : (t : Float) → (rank_n seed index : ℕ) → Option ℕ
gen_output_premulsum t rank_n seed index = gen_in_out_float_premulsum t false rank_n 0 seed index
