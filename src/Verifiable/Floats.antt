-- ===== src/Verifiable/Floats.antt =====
-- The floating point data of verifiable/verifiable.cu, as bits: what the ranks submit to a sum, to a sum
-- with scalars and to a product, and what the results are to be. `none` is a division by zero.
pub mod Fields
pub mod Encoding
pub mod Signs
pub mod Woven
pub mod Sum
pub mod Exact
pub mod Scaled
pub mod Product
pub mod Extremes
mod Tests
use Prim.Native.Nat.{bit_and, bit_or}
use nccl_tests.Prelude.{
  ℕ, ◌+◌, ◌-◌, ◌*◌, ◌/◌, ◌%◌, ◌^◌, Bool, true, false, ◌&&◌, not, Option, none, some, ◌==◌, ltb,
  if◌then◌else◌,
}
use nccl_tests.Verifiable.Words.{u32, u64, clz64, mix_bits, hash_of, umul32hi}
use nccl_tests.Verifiable.Shuffle.{shuffle_rank}
use nccl_tests.Verifiable.SumXy.{Uint, uint32, uint64, modulus, gen_sum_xy}

-- The floating point types.
pub data Float : Type 0 where
  float32 float64 float16 bfloat16 float8e4m3 float8e5m2 : Float

-- `FloatLayout`.
abbrev pub exponent_bits : Float → ℕ
exponent_bits float32 = 8
exponent_bits float64 = 11
exponent_bits float16 = 5
exponent_bits bfloat16 = 8
exponent_bits float8e4m3 = 4
exponent_bits float8e5m2 = 5

abbrev pub mantissa_bits : Float → ℕ
mantissa_bits float32 = 23
mantissa_bits float64 = 52
mantissa_bits float16 = 10
mantissa_bits bfloat16 = 7
mantissa_bits float8e4m3 = 3
mantissa_bits float8e5m2 = 2

abbrev pub exponent_bias : Float → ℕ
exponent_bias t = 2 ^ (exponent_bits t - 1) - 1

-- `uintmant_t`.
abbrev pub uintmant : Float → Uint
uintmant float64 = uint64
uintmant t = uint32

abbrev pub mant_mask : Float → ℕ
mant_mask t = 2 ^ mantissa_bits t - 1

abbrev pub max_mant : Float → ℕ
max_mant t = 2 * mant_mask t + 1

-- `makeFloat`; the value is read from the low bytes of the word.
unfoldable pub make_float : (t : Float) → (sign exp mant : ℕ) → ℕ
make_float t sign exp mant =
    bit_or (u64 (bit_or (u64 (sign * 2 ^ exponent_bits t)) exp * 2 ^ mantissa_bits t)) mant
    % 2 ^ (1 + exponent_bits t + mantissa_bits t)

-- A mantissa that may lack its leading 1 is shifted up to it, and the exponent goes down as far.
unfoldable pub encode : (t : Float) → (sign exp mant : ℕ) → ℕ
encode t sign exp mant =
    let shift = clz64 mant - (64 - mantissa_bits t - 1) in
    let shifted = mant * 2 ^ shift % modulus (uintmant t) in
    if mant == 0 then 0 else make_float t sign (exp - shift) (bit_and shifted (mant_mask t))

-- A random exponent: `xy_exp` or `y_exp`.
abbrev pub random_exp : (t : Float) → (rng : ℕ) → ℕ
random_exp t rng =
    let exp_lo = 1 + mantissa_bits t in
    let exp_hi = 2 ^ exponent_bits t - 1 in exp_lo + umul32hi (u32 (rng / 2 ^ 32)) (exp_hi - exp_lo)

-- The answer, once the mantissas of input and output are known.
abbrev pub answer :
    (t : Float) → (input_not_output : Bool) → (x_sign y_sign exp : ℕ) → Option ℕ → ℕ → Option ℕ
answer t input_not_output x_sign y_sign exp none y = none
answer t input_not_output x_sign y_sign exp (some x) y =
    some (if input_not_output then encode t x_sign exp x else encode t y_sign exp y)

-- `y0_mant` less `y1_mant`, as the code takes the distance of unsigned numbers.
abbrev pub distance : Uint → (y0 y1 : ℕ) → ℕ
distance u y0 y1 =
    (if ltb y0 y1 then modulus u - 1 else 1) * ((y0 + modulus u - y1) % modulus u) % modulus u

-- The exclusive or of two signs.
abbrev pub flip : (sign by : ℕ) → ℕ
flip sign by = (sign + by) % 2

-- The mantissa of a rank, which both sides of the mixed signs have to be defined for.
abbrev pub either : (rank : ℕ) → Option ℕ → Option ℕ → Option ℕ
either rank none x1 = none
either rank (some x0) none = none
either rank (some x0) (some x1) = some (if rank % 2 == 0 then x0 else x1)

-- `genInOutFloatSum` with one sign for all the ranks, or with the odd ranks on the other side.
unfoldable pub same_sign_sum :
    (t : Float) → (input : Bool) → (rank_n rank sign exp rng : ℕ) → Option ℕ
same_sign_sum t input rank_n rank sign exp rng =
    let (x0, y0) = gen_sum_xy (uintmant t) rank_n rank rng (max_mant t) 0 false in
    answer t input sign sign exp x0 y0

unfoldable pub mixed_sign_sum :
    (t : Float) → (input : Bool) → (rank_n rank sign exp rng : ℕ) → Option ℕ
mixed_sign_sum t input rank_n rank sign exp rng =
    let u = uintmant t in
    let (x0, y0) = gen_sum_xy u ((rank_n + 1) / 2) (rank / 2) rng (max_mant t) 0 false in
    let (x1, y1) = gen_sum_xy u (rank_n / 2) (rank / 2) (mix_bits rng) (max_mant t) y0 true in
    if rank_n / 2 == 0
    then answer t input sign sign exp x0 y0
    else answer t input (flip sign (rank % 2)) (flip sign (if ltb y0 y1 then 1 else 0)) exp
        (either rank x0 x1) (distance u y0 y1)

unfoldable pub gen_in_out_float_sum :
    (t : Float)
    → (input_not_output : Bool) → (rank_n rank_me seed index : ℕ) → (same_sign : Bool) → Option ℕ
gen_in_out_float_sum t input_not_output rank_n rank_me seed index same_sign =
    let rng = hash_of seed index in
    let sign = rng % 2 in
    let exp = random_exp t rng in
    let rng1 = mix_bits rng in
    let rank = shuffle_rank rank_n rank_me rng1 in
    if same_sign
    then same_sign_sum t input_not_output rank_n rank sign exp (mix_bits rng1)
    else mixed_sign_sum t input_not_output rank_n rank sign exp (mix_bits rng1)

-- `genInput` and `genOutput` of a sum.
unfoldable pub gen_input_sum : (t : Float) → (rank_n rank_me seed index : ℕ) → Option ℕ
gen_input_sum t rank_n rank_me seed index =
    gen_in_out_float_sum t true rank_n rank_me seed index false

unfoldable pub gen_output_sum : (t : Float) → (rank_n seed index : ℕ) → Option ℕ
gen_output_sum t rank_n seed index = gen_in_out_float_sum t false rank_n 0 seed index false
