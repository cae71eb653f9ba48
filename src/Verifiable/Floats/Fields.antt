-- ===== src/Verifiable/Floats/Fields.antt =====
-- What the bits of a floating point number stand for, by IEEE 754, and the fields that `makeFloat` of
-- verifiable/verifiable.cu joins.
use native.Mathlib.Nat.{
  pow-suc, mul_assoc, mod-eq_of_lt, mul-add-div_right, mul-add-mod_self_right, div-eq_of_lt,
}
use nccl_tests.Prelude.{
  ℕ, zero, suc, ◌+◌, ◌*◌, ◌/◌, ◌%◌, ◌^◌, ◌<◌, ◌≡◌, ◌∙◌, refl, sym, ap, arith, false, ◌==◌,
  if◌then◌else◌,
}
use Prim.Native.Nat.{bit_or}
use nccl_tests.Verifiable.Words.{u64}
use nccl_tests.Verifiable.Words.Bits.{bit_or-fields}
use nccl_tests.Verifiable.Floats.{
  Float, float32, float64, float16, bfloat16, float8e4m3, float8e5m2, exponent_bits, mantissa_bits,
  make_float,
}

-- The three fields of the bits.
abbrev pub sign_field : Float → ℕ → ℕ
sign_field t bits = bits / 2 ^ mantissa_bits t / 2 ^ exponent_bits t

abbrev pub exponent_field : Float → ℕ → ℕ
exponent_field t bits = bits / 2 ^ mantissa_bits t % 2 ^ exponent_bits t

abbrev pub mantissa_field : Float → ℕ → ℕ
mantissa_field t bits = bits % 2 ^ mantissa_bits t

-- The absolute value, in units of the smallest number times 1/2: a leading 1 stands before the mantissa unless
-- the exponent is 0.
unfoldable pub magnitude : Float → ℕ → ℕ
magnitude t bits =
    if exponent_field t bits == 0
    then 2 * mantissa_field t bits
    else (2 ^ mantissa_bits t + mantissa_field t bits) * 2 ^ exponent_field t bits

-- A number as what is above 0 and what is below.
unfoldable pub above : Float → ℕ → ℕ
above t bits = if sign_field t bits == 0 then magnitude t bits else 0

unfoldable pub below : Float → ℕ → ℕ
below t bits = if sign_field t bits == 0 then 0 else magnitude t bits

pub pow-add : (a b : ℕ) → 2 ^ (a + b) ≡ 2 ^ a * 2 ^ b
pow-add a zero = ap (λ t. 2 ^ t) (nothing a) ∙ omega arith
  where
    nothing : (a : ℕ) → a + 0 ≡ a
    nothing a = omega arith
pow-add a (suc b) =
    ap (λ t. 2 ^ t) (moved a b)
    ∙ pow-suc 2 (a + b)
    ∙ ap (λ t. t * 2) (pow-add a b)
    ∙ mul_assoc (2 ^ a) (2 ^ b) 2
    ∙ ap (λ t. 2 ^ a * t) (sym (pow-suc 2 b))
  where
    moved : (a b : ℕ) → a + suc b ≡ suc (a + b)
    moved a b = omega arith

fields_of :
    (e m full sign exp mant : ℕ)
    → sign * 2 ^ e < 2 ^ 64
    → exp < 2 ^ e
    → (sign * 2 ^ e + exp) * 2 ^ m < 2 ^ 64
    → mant < 2 ^ m
    → (sign * 2 ^ e + exp) * 2 ^ m + mant < full
    → bit_or (u64 (bit_or (u64 (sign * 2 ^ e)) exp * 2 ^ m)) mant % full
      ≡ (sign * 2 ^ e + exp) * 2 ^ m + mant
fields_of e m full sign exp mant a b c d f =
    rw
      (
        mod-eq_of_lt a,
        bit_or-fields e sign exp b,
        mod-eq_of_lt c,
        bit_or-fields m (sign * 2 ^ e + exp) mant d,
      )
      (mod-eq_of_lt f)

pub make_float_lem :
    (t : Float) (sign exp mant : ℕ)
    → sign < 2
    → exp < 2 ^ exponent_bits t
    → mant < 2 ^ mantissa_bits t
    → make_float t sign exp mant ≡ (sign * 2 ^ exponent_bits t + exp) * 2 ^ mantissa_bits t + mant
unfolding make_float
make_float_lem float32 sign exp mant a b c =
    fields_of 8 23 (2 ^ 32) sign exp mant (omega arith) b (omega arith) c (omega arith)
make_float_lem float64 sign exp mant a b c =
    fields_of 11 52 (2 ^ 64) sign exp mant (omega arith) b (omega arith) c (omega arith)
make_float_lem float16 sign exp mant a b c =
    fields_of 5 10 (2 ^ 16) sign exp mant (omega arith) b (omega arith) c (omega arith)
make_float_lem bfloat16 sign exp mant a b c =
    fields_of 8 7 (2 ^ 16) sign exp mant (omega arith) b (omega arith) c (omega arith)
make_float_lem float8e4m3 sign exp mant a b c =
    fields_of 4 3 (2 ^ 8) sign exp mant (omega arith) b (omega arith) c (omega arith)
make_float_lem float8e5m2 sign exp mant a b c =
    fields_of 5 2 (2 ^ 8) sign exp mant (omega arith) b (omega arith) c (omega arith)

pub upper_part : (q p r : ℕ) → r < p → (q * p + r) / p ≡ q
upper_part q p r l =
    mul-add-div_right {m = p} (omega arith) q r ∙ ap (λ t. q + t) (div-eq_of_lt l) ∙ omega arith

pub lower_part : (q p r : ℕ) → r < p → (q * p + r) % p ≡ r
lower_part q p r l = mul-add-mod_self_right q p r ∙ mod-eq_of_lt l

-- The bits of the three fields, read again.
module _ (t : Float) (sign exp mant : ℕ) (a : sign < 2) (b : exp < 2 ^ exponent_bits t)
    (c : mant < 2 ^ mantissa_bits t) where
  upper_fields : make_float t sign exp mant / 2 ^ mantissa_bits t ≡ sign * 2 ^ exponent_bits t + exp
  upper_fields =
      ap (λ x. x / 2 ^ mantissa_bits t) (make_float_lem t sign exp mant a b c)
      ∙ upper_part (sign * 2 ^ exponent_bits t + exp) (2 ^ mantissa_bits t) mant c

  pub sign_field_lem : sign_field t (make_float t sign exp mant) ≡ sign
  sign_field_lem =
      ap (λ x. x / 2 ^ exponent_bits t) upper_fields ∙ upper_part sign (2 ^ exponent_bits t) exp b

  pub exponent_field_lem : exponent_field t (make_float t sign exp mant) ≡ exp
  exponent_field_lem =
      ap (λ x. x % 2 ^ exponent_bits t) upper_fields ∙ lower_part sign (2 ^ exponent_bits t) exp b

  pub mantissa_field_lem : mantissa_field t (make_float t sign exp mant) ≡ mant
  mantissa_field_lem =
      ap (λ x. x % 2 ^ mantissa_bits t) (make_float_lem t sign exp mant a b c)
      ∙ lower_part (sign * 2 ^ exponent_bits t + exp) (2 ^ mantissa_bits t) mant c

  pub magnitude_lem :
      0 < exp → magnitude t (make_float t sign exp mant) ≡ (2 ^ mantissa_bits t + mant) * 2 ^ exp
  unfolding magnitude
  magnitude_lem h =
      let normal : (exp == 0) ≡ false = ground arith in
      rw (exponent_field_lem, mantissa_field_lem, normal) refl
