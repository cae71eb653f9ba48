-- ===== src/Verifiable/Floats/Encoding.antt =====
-- `genInOutFloatSum` and its like end by encoding a mantissa times a power of two: the bits stand for just that
-- number (verifiable/verifiable.cu).
use native.Mathlib.Nat.{
  pow-suc, one-le-pow, mul_assoc, add-mul, mul-le-mul_right, mod-eq_of_lt, mod-lt, mod-eq-sub-mod,
}
use nccl_tests.Prelude.{
  ℕ, suc, ◌+◌, ◌-◌, ◌*◌, ◌%◌, ◌^◌, ◌<◌, ◌≤◌, ◌≡◌, ◌∙◌, inl, inr, refl, sym, ap, subst, arith, true,
  false, ◌==◌, ==_iff, if◌then◌else◌, Bool-cases,
}
use Prim.Native.Nat.{bit_and}
use nccl_tests.Verifiable.Words.{clz64}
use nccl_tests.Verifiable.Words.Bits.{bit_and-mask, clz64_lem}
use nccl_tests.Verifiable.Shuffle.Bottom.{below_power}
use nccl_tests.Verifiable.SumXy.{modulus}
use nccl_tests.Verifiable.SumXy.Total.{modulus-le}
use nccl_tests.Verifiable.Floats.{
  Float, float32, float64, float16, bfloat16, float8e4m3, float8e5m2, exponent_bits, mantissa_bits,
  uintmant, mant_mask, max_mant, make_float, encode,
}
use nccl_tests.Verifiable.Floats.Fields.{
  sign_field, exponent_field, magnitude, above, below, pow-add, sign_field_lem, exponent_field_lem,
  magnitude_lem,
}

mantissa_few : (t : Float) → mantissa_bits t ≤ 52
mantissa_few float32 = omega arith
mantissa_few float64 = omega arith
mantissa_few float16 = omega arith
mantissa_few bfloat16 = omega arith
mantissa_few float8e4m3 = omega arith
mantissa_few float8e5m2 = omega arith

pub mantissa_fits : (t : Float) → 2 * (2 * 2 ^ mantissa_bits t) < modulus (uintmant t)
mantissa_fits float32 = omega arith
mantissa_fits float64 = omega arith
mantissa_fits float16 = omega arith
mantissa_fits bfloat16 = omega arith
mantissa_fits float8e4m3 = omega arith
mantissa_fits float8e5m2 = omega arith

back : (k m : ℕ) → k < suc m → k + (m - k) ≡ m
back k m l = omega arith

once : (x p : ℕ) → p ≤ x → x < 2 * p → x % p ≡ x - p
once x p l h = mod-eq-sub-mod l ∙ mod-eq_of_lt (omega arith)

mask_is : (p : ℕ) → 1 ≤ p → p - 1 + 1 ≡ p
mask_is p h = omega arith

shifted_encoding :
    (t : Float) (sign exp mant d : ℕ)
    → 0 < mant
    → clz64 mant - (64 - mantissa_bits t - 1) ≡ d
    → 2 ^ mantissa_bits t ≤ mant * 2 ^ d
    → mant * 2 ^ d < 2 * 2 ^ mantissa_bits t
    → encode t sign exp mant ≡ make_float t sign (exp - d) (mant * 2 ^ d - 2 ^ mantissa_bits t)
unfolding encode
shifted_encoding t sign exp mant d positive shift low high =
    let m = mantissa_bits t in
    let room = mantissa_fits t in
    let some_mant : (mant == 0) ≡ false = ground arith in
    let masked : bit_and (mant * 2 ^ d % modulus (uintmant t)) (mant_mask t)
        ≡ mant * 2 ^ d - 2 ^ m =
      bit_and-mask m (mant * 2 ^ d % modulus (uintmant t)) (mant_mask t)
        (mask_is (2 ^ m) (one-le-pow m 2 (omega arith)))
      ∙ ap (λ z. z % 2 ^ m)
          (mod-eq_of_lt {n = mant * 2 ^ d} {m = modulus (uintmant t)} (omega arith))
      ∙ once (mant * 2 ^ d) (2 ^ m) low high in
    rw some_mant (
      ap
        (λ z.
          make_float t sign (exp - z) (bit_and (mant * 2 ^ z % modulus (uintmant t)) (mant_mask t)))
        shift
      ∙ ap (make_float t sign (exp - d)) masked)

-- `encode` shifts a mantissa up to its leading 1, by `d` digits.
encode_shift :
    (t : Float) (sign exp mant : ℕ)
    → 0 < mant
    → mant < 2 * 2 ^ mantissa_bits t
    → (d : ℕ) × (d ≤ mantissa_bits t)
      × (2 ^ mantissa_bits t ≤ mant * 2 ^ d)
      × (mant * 2 ^ d < 2 * 2 ^ mantissa_bits t)
      × (encode t sign exp mant ≡ make_float t sign (exp - d) (mant * 2 ^ d - 2 ^ mantissa_bits t))
encode_shift t sign exp mant positive fits =
    let m = mantissa_bits t in
    let few = mantissa_few t in
    let room = mantissa_fits t in
    let (k, zeros, lower, upper, word) =
      clz64_lem mant positive (omega (arith, modulus-le (uintmant t))) in
    let short : k < suc m = below_power (suc m) k mant lower (omega (arith, pow-suc 2 m)) in
    let d = m - k in
    let shift : clz64 mant - (64 - m - 1) ≡ d = omega arith in
    let scale = one-le-pow d 2 (omega arith) in
    let to_top : 2 ^ k * 2 ^ d ≡ 2 ^ m = sym (pow-add k d) ∙ ap (λ z. 2 ^ z) (back k m short) in
    let low : 2 ^ m ≤ mant * 2 ^ d = omega (arith, mul-le-mul_right (2 ^ d) lower) in
    let doubled : 2 ^ suc k * 2 ^ d ≡ 2 * 2 ^ m =
      let double = pow-suc 2 k in
      let twice : 2 ^ k * 2 * 2 ^ d ≡ 2 * (2 ^ k * 2 ^ d) = grind arith in
      rw double (omega arith) in
    let high : mant * 2 ^ d < 2 * 2 ^ m =
      omega (arith, mul-le-mul_right (2 ^ d) upper, add-mul mant 1 (2 ^ d)) in
    (d, omega arith, low, high, shifted_encoding t sign exp mant d positive shift low high)

magnitude_zero : (t : Float) → magnitude t 0 ≡ 0
unfolding magnitude
magnitude_zero float32 = refl
magnitude_zero float64 = refl
magnitude_zero float16 = refl
magnitude_zero bfloat16 = refl
magnitude_zero float8e4m3 = refl
magnitude_zero float8e5m2 = refl

encode_zero : (t : Float) (sign exp mant : ℕ) → (mant == 0) ≡ true → encode t sign exp mant ≡ 0
unfolding encode
encode_zero t sign exp mant e = rw e

zero_times : (mant exp : ℕ) → (mant == 0) ≡ true → mant * 2 ^ exp ≡ 0
zero_times mant exp e = ap (λ z. z * 2 ^ exp) ((==_iff mant 0).0 e) ∙ nothing (2 ^ exp)
  where
    nothing : (x : ℕ) → 0 * x ≡ 0
    nothing x = omega arith

-- The bits that `encode` finds stand for the mantissa times the power of two.
pub magnitude-encode :
    (t : Float) (sign exp mant : ℕ)
    → sign < 2
    → mant ≤ max_mant t
    → mantissa_bits t < exp
    → exp < 2 ^ exponent_bits t
    → magnitude t (encode t sign exp mant) ≡ mant * 2 ^ exp
magnitude-encode t sign exp mant a b c d = elim (Bool-cases (mant == 0)) [
  | inl e ↦
      ap (magnitude t) (encode_zero t sign exp mant e)
      ∙ magnitude_zero t
      ∙ sym (zero_times mant exp e)
  | inr e ↦
      let (s, few, low, high, shift) =
        encode_shift t sign exp mant (ground arith)
          (omega (arith, one-le-pow (mantissa_bits t) 2)) in
      let m = mantissa_bits t in
      ap (magnitude t) shift
      ∙ magnitude_lem t sign (exp - s) (mant * 2 ^ s - 2 ^ m) a (omega arith) (omega arith)
          (omega arith)
      ∙ ap (λ z. z * 2 ^ (exp - s)) (whole (mant * 2 ^ s) (2 ^ m) low)
      ∙ mul_assoc mant (2 ^ s) (2 ^ (exp - s))
      ∙ ap (λ z. mant * z)
          (sym (pow-add s (exp - s)) ∙ ap (λ z. 2 ^ z) (whole_sum s exp (omega arith)))
]
  where
    whole : (x p : ℕ) → p ≤ x → p + (x - p) ≡ x
    whole x p l = omega arith

    whole_sum : (s e : ℕ) → s ≤ e → s + (e - s) ≡ e
    whole_sum s e l = omega arith

sign-encode :
    (t : Float) (sign exp mant : ℕ)
    → sign < 2
    → 0 < mant
    → mant ≤ max_mant t
    → mantissa_bits t < exp
    → exp < 2 ^ exponent_bits t
    → sign_field t (encode t sign exp mant) ≡ sign
sign-encode t sign exp mant a positive b c d =
    let (s, few, low, high, shift) =
      encode_shift t sign exp mant positive (omega (arith, one-le-pow (mantissa_bits t) 2)) in
    ap (sign_field t) shift
    ∙ sign_field_lem t sign (exp - s) (mant * 2 ^ s - 2 ^ mantissa_bits t) a (omega arith)
        (omega arith)

-- What it puts above 0 and below.
abbrev pub if_plus : (sign x : ℕ) → ℕ
if_plus sign x = if sign == 0 then x else 0

abbrev pub if_minus : (sign x : ℕ) → ℕ
if_minus sign x = if sign == 0 then 0 else x

module _ (t : Float) (sign exp mant : ℕ) (a : sign < 2) (b : mant ≤ max_mant t)
    (c : mantissa_bits t < exp) (d : exp < 2 ^ exponent_bits t) where
  pub above-encode : above t (encode t sign exp mant) ≡ if_plus sign (mant * 2 ^ exp)
  unfolding above
  above-encode =
      let size = magnitude-encode t sign exp mant a b c d in
      elim (Bool-cases (mant == 0)) [
        | inl e ↦ let nothing = zero_times mant exp e in ground arith
        | inr e ↦ let same = sign-encode t sign exp mant a (ground arith) b c d in ground arith
      ]

  pub below-encode : below t (encode t sign exp mant) ≡ if_minus sign (mant * 2 ^ exp)
  unfolding below
  below-encode =
      let size = magnitude-encode t sign exp mant a b c d in
      elim (Bool-cases (mant == 0)) [
        | inl e ↦ let nothing = zero_times mant exp e in ground arith
        | inr e ↦ let same = sign-encode t sign exp mant a (ground arith) b c d in ground arith
      ]

-- The bits fit the type, and stand for a number that is neither infinite nor none.
abbrev pub IsFinite : Float → ℕ → Type 0
IsFinite t bits =
    (bits < 2 ^ (1 + exponent_bits t + mantissa_bits t))
    × (exponent_field t bits < 2 ^ exponent_bits t - 1)

zero-IsFinite : (t : Float) → IsFinite t 0
zero-IsFinite float32 = (omega arith, omega arith)
zero-IsFinite float64 = (omega arith, omega arith)
zero-IsFinite float16 = (omega arith, omega arith)
zero-IsFinite bfloat16 = (omega arith, omega arith)
zero-IsFinite float8e4m3 = (omega arith, omega arith)
zero-IsFinite float8e5m2 = (omega arith, omega arith)

pub make_float-lt :
    (t : Float) (sign exp mant : ℕ)
    → make_float t sign exp mant < 2 ^ (1 + exponent_bits t + mantissa_bits t)
unfolding make_float
make_float-lt t sign exp mant = mod-lt _ (one-le-pow _ 2 (omega arith))

pub encode-IsFinite :
    (t : Float) (sign exp mant : ℕ)
    → sign < 2
    → mant ≤ max_mant t
    → mantissa_bits t < exp
    → exp < 2 ^ exponent_bits t - 1
    → IsFinite t (encode t sign exp mant)
encode-IsFinite t sign exp mant a b c d = elim (Bool-cases (mant == 0)) [
  | inl e ↦ subst (IsFinite t) (sym (encode_zero t sign exp mant e)) (zero-IsFinite t)
  | inr e ↦
      let (s, few, low, high, shift) =
        encode_shift t sign exp mant (ground arith)
          (omega (arith, one-le-pow (mantissa_bits t) 2)) in
      let fraction = mant * 2 ^ s - 2 ^ mantissa_bits t in
      subst (IsFinite t) (sym shift) (
        make_float-lt t sign (exp - s) fraction,
        rw (exponent_field_lem t sign (exp - s) fraction a (omega arith) (omega arith))
            (omega arith),
      )
]
