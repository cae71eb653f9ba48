-- ===== src/Verifiable/Floats/Extremes/Normal.antt =====
-- The random numbers of verifiable/verifiable.cu are normal numbers of moderate size.
use native.Mathlib.Nat.{mod-lt}
use nccl_tests.Prelude.{ℕ, ◌-◌, ◌*◌, ◌/◌, ◌^◌, ◌<◌, ◌≤◌, ◌≡◌, arith}
use Prim.Native.Nat.{bit_and, bit_xor}
use nccl_tests.Verifiable.Words.Bits.{bit_and-mask}
use nccl_tests.Verifiable.Floats.{
  Float, float32, float64, float16, bfloat16, float8e4m3, float8e5m2, exponent_bits, mantissa_bits,
  mant_mask,
}
use nccl_tests.Verifiable.Floats.Fields.{exponent_field, exponent_field_lem}
use nccl_tests.Verifiable.Floats.Extremes.{
  middle_exp, random_float, gen_input_float_nil, gen_input_max,
}

masked-lt : (k a : ℕ) → 0 < 2 ^ k → bit_and a (2 ^ k - 1) < 2 ^ k
masked-lt k a h =
    let below = mod-lt a {m = 2 ^ k} h in omega (arith, bit_and-mask k a (2 ^ k - 1) (omega arith))

powers_of :
    (t : Float)
    → (0 < 2 ^ mantissa_bits t)
      × (0 < 2 ^ (exponent_bits t - 2))
      × (2 ^ (exponent_bits t - 1) ≡ 2 * 2 ^ (exponent_bits t - 2))
      × (2 ^ exponent_bits t ≡ 4 * 2 ^ (exponent_bits t - 2))
powers_of float32 = (omega arith, omega arith, omega arith, omega arith)
powers_of float64 = (omega arith, omega arith, omega arith, omega arith)
powers_of float16 = (omega arith, omega arith, omega arith, omega arith)
powers_of bfloat16 = (omega arith, omega arith, omega arith, omega arith)
powers_of float8e4m3 = (omega arith, omega arith, omega arith, omega arith)
powers_of float8e5m2 = (omega arith, omega arith, omega arith, omega arith)

-- An exponent in the middle half: at least a quarter of all, and less than three quarters.
abbrev pub IsModerate : Float → ℕ → Type 0
IsModerate t bits =
    (2 ^ (exponent_bits t - 2) ≤ exponent_field t bits)
    × (exponent_field t bits < 3 * 2 ^ (exponent_bits t - 2))

random_float-IsModerate : (t : Float) (rng : ℕ) → IsModerate t (random_float t rng)
unfolding random_float
random_float-IsModerate t rng =
    let (positive, quarter, half, whole) = powers_of t in
    let rng1 = bit_xor rng (rng / 2) in
    let rng2 = bit_xor rng1 (rng1 / 2 ^ exponent_bits t) in
    let exp = masked-lt (exponent_bits t - 1) rng1 (omega arith) in
    let sign = masked-lt 1 rng (omega arith) in
    let mant = masked-lt (mantissa_bits t) rng2 positive in
    let field =
      exponent_field_lem t (bit_and rng 1) (middle_exp t rng1) (bit_and rng2 (mant_mask t)) sign
        (omega arith) mant in
    (omega arith, omega arith)

pub gen_input_float-IsModerate :
    (t : Float) (rank_me seed index : ℕ)
    → IsModerate t (gen_input_float_nil t rank_me seed index)
      × IsModerate t (gen_input_max t rank_me seed index)
unfolding gen_input_float_nil gen_input_max
gen_input_float-IsModerate t rank_me seed index =
    (random_float-IsModerate t _, random_float-IsModerate t _)
