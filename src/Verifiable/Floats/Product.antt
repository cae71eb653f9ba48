-- ===== src/Verifiable/Floats/Product.antt =====
-- The product of floating point numbers in verifiable/verifiable.cu: one rank submits a random mantissa, the
-- others powers of two.
pub mod Powers
pub mod Exact
mod Tests
use Prim.Native.Nat.{bit_and}
use nccl_tests.Prelude.{
  ℕ, ◌+◌, ◌-◌, ◌/◌, ◌%◌, ◌^◌, Bool, true, false, Option, none, some, ◌==◌, if◌then◌else◌,
}
use nccl_tests.Verifiable.Words.{u32, mix_bits, hash_of}
use nccl_tests.Verifiable.Shuffle.{shuffle_rank}
use nccl_tests.Verifiable.SumXy.{uint32, gen_sum_xy}
use nccl_tests.Verifiable.Floats.{Float, exponent_bits, exponent_bias, mant_mask, make_float}

abbrev pub max_exp : Float → ℕ
max_exp t = 2 ^ (exponent_bits t - 1) - 1

-- A random mantissa that is not 0.
abbrev pub random_mant : (t : Float) → (rng : ℕ) → ℕ
random_mant t rng = let masked = bit_and rng (mant_mask t) in if masked == 0 then 1 else masked

-- The answer, once the exponents of input and output are known.
unfoldable pub product_answer :
    (t : Float) → (input_not_output : Bool) → (rank_n rank y_mant : ℕ) → Option ℕ → ℕ → Option ℕ
product_answer t input_not_output rank_n rank y_mant none y = none
product_answer t input_not_output rank_n rank y_mant (some x) y = some (
    if input_not_output
    then make_float t (rank % 2) (u32 (x + exponent_bias t)) (if rank == 0 then y_mant else 0)
    else make_float t (rank_n / 2 % 2) (u32 (y + exponent_bias t)) y_mant)

-- `genInOutFloatProd`.
unfoldable pub gen_in_out_float_prod :
    (t : Float) → (input_not_output : Bool) → (rank_n rank_me seed index : ℕ) → Option ℕ
gen_in_out_float_prod t input_not_output rank_n rank_me seed index =
    let rng = hash_of seed index in
    let rng1 = mix_bits rng in
    let rank = shuffle_rank rank_n rank_me rng in
    let (x, y) = gen_sum_xy uint32 rank_n rank rng1 (max_exp t) 0 false in
    product_answer t input_not_output rank_n rank (random_mant t (mix_bits rng1)) x y

-- `genInput` and `genOutput` of a product.
unfoldable pub gen_input_prod : (t : Float) → (rank_n rank_me seed index : ℕ) → Option ℕ
gen_input_prod t rank_n rank_me seed index = gen_in_out_float_prod t true rank_n rank_me seed index

unfoldable pub gen_output_prod : (t : Float) → (rank_n seed index : ℕ) → Option ℕ
gen_output_prod t rank_n seed index = gen_in_out_float_prod t false rank_n 0 seed index
