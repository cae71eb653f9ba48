-- ===== src/Verifiable/Floats/Product/Powers.antt =====
-- Products of powers of two of which one has a mantissa, as verifiable/verifiable.cu submits them.
use native.Mathlib.Nat.{pow-suc}
use native.Mathlib.Numerals.{unary_clauses}
use nccl_tests.Prelude.{
  ℕ, zero, suc, ◌+◌, ◌-◌, ◌*◌, ◌%◌, ◌^◌, ◌<◌, ◌≤◌, ◌≡◌, ◌∙◌, refl, sym, ap, arith, Bool, true,
  false, if◌then◌else◌,
}
use nccl_tests.Prelude.Sums.{sum, same, sum_monotone, term-le-sum}
use nccl_tests.Verifiable.Floats.{
  Float, float32, float64, float16, bfloat16, float8e4m3, float8e5m2, exponent_bits, mantissa_bits,
  exponent_bias, make_float,
}
use nccl_tests.Verifiable.Floats.Product.{max_exp}
use nccl_tests.Verifiable.Floats.Fields.{
  magnitude, magnitude_lem, sign_field, sign_field_lem, exponent_field_lem, pow-add,
}
use nccl_tests.Verifiable.Floats.Encoding.{IsFinite, make_float-lt}
use nccl_tests.Verifiable.Floats.Signs.{chosen, chosen-le}

abbrev pub product : (f : ℕ → ℕ) (n : ℕ) → ℕ
product f zero = 1
product f (suc n) = product f n * f n

pub product_same : (f g : ℕ → ℕ) (n : ℕ) → ((i : ℕ) → i < n → f i ≡ g i) → product f n ≡ product g n
product_same f g zero h = refl
product_same f g (suc n) h =
    ap (λ x. x * f n) (product_same f g n (λ i l. h i (omega arith)))
    ∙ ap (λ x. product g n * x) (h n (omega arith))

moved_in : (m q p : ℕ) → m * q * p ≡ m * p * q
moved_in m q p = grind arith

-- At most one of the two factors has a mantissa.
one_mantissa : (p y k c : ℕ) → k + c ≤ 1 → (p + k * y) * (p + c * y) ≡ (p + (k + c) * y) * p
one_mantissa p y zero zero l = grind arith
one_mantissa p y (suc zero) zero l = grind arith
one_mantissa p y zero (suc zero) l = grind arith
one_mantissa p y (suc (suc k)) c l = absurd (omega arith)
one_mantissa p y (suc zero) (suc c) l = absurd (omega arith)
one_mantissa p y zero (suc (suc c)) l = absurd (omega arith)

regrouped : (a b s w e u : ℕ) → a * (s * w) * (b * (e * u)) ≡ a * b * (s * e * (w * u))
regrouped a b s w e u = grind arith

joined :
    (m s w p y k c e b : ℕ)
    → k + c ≤ 1
    → m * p ≡ (p + k * y) * (s * w)
    → m * ((p + c * y) * (e * b)) * p ≡ (p + (k + c) * y) * (s * e * (w * (p * b)))
joined m s w p y k c e b l h =
    moved_in m ((p + c * y) * (e * b)) p
    ∙ ap (λ z. z * ((p + c * y) * (e * b))) h
    ∙ regrouped (p + k * y) (p + c * y) s w e b
    ∙ ap (λ z. z * (s * e * (w * b))) (one_mantissa p y k c l)
    ∙ taken_in (p + (k + c) * y) p (s * e) w b
  where
    taken_in : (x p r w b : ℕ) → x * p * (r * (w * b)) ≡ x * (r * (w * (p * b)))
    taken_in x p r w b = grind arith

no_power : (u : ℕ) → u ^ 0 ≡ 1
no_power u = simp unary_clauses refl

no_factors : (p y u : ℕ) → 1 * p ≡ (p + 0 * y) * (1 * u ^ 0)
no_factors p y u = rw (no_power u) (omega arith)

pub product_lem :
    (p y b : ℕ) (c e : ℕ → ℕ) (n : ℕ)
    → sum c n ≤ 1
    → product (λ r. (p + c r * y) * (2 ^ e r * b)) n * p
      ≡ (p + sum c n * y) * (2 ^ sum e n * (p * b) ^ n)
product_lem p y b c e zero h = no_factors p y (p * b)
product_lem p y b c e (suc n) h =
    joined (product (λ r. (p + c r * y) * (2 ^ e r * b)) n) (2 ^ sum e n) ((p * b) ^ n) p y
      (sum c n) (c n) (2 ^ e n) b h (product_lem p y b c e n (omega arith))
    ∙ ap (λ z. (p + sum c (suc n) * y) * z)
        (ap (λ z. z * ((p * b) ^ n * (p * b))) (sym (pow-add (sum e n) (e n)))
          ∙ ap (λ z. 2 ^ sum e (suc n) * z) (sym (pow-suc (p * b) n)))

-- The bits of 1 have this magnitude.
abbrev pub unit : Float → ℕ
unit t = 2 ^ mantissa_bits t * 2 ^ exponent_bias t

-- The exponents of a product are those of normal numbers.
pub exponent-range :
    (t : Float) → (0 < exponent_bias t) × (max_exp t + exponent_bias t < 2 ^ exponent_bits t - 1)
exponent-range float32 = (omega arith, omega arith)
exponent-range float64 = (omega arith, omega arith)
exponent-range float16 = (omega arith, omega arith)
exponent-range bfloat16 = (omega arith, omega arith)
exponent-range float8e4m3 = (omega arith, omega arith)
exponent-range float8e5m2 = (omega arith, omega arith)

once-lt : (k m p : ℕ) → k ≤ 1 → m < p → k * m < p
once-lt zero m p h l = omega arith
once-lt (suc zero) m p h l = omega arith
once-lt (suc (suc k)) m p h l = absurd (omega arith)

same-le : (w v : ℕ) → same w v ≤ 1
same-le w v = ground arith

nothing_chosen : (p m b : ℕ) → p * b ≡ (p + 0 * m) * (1 * b)
nothing_chosen p m b = omega (arith, unchanged p m b)
  where
    unchanged : (p m b : ℕ) → (p + 0 * m) * (1 * b) ≡ p * b
    unchanged p m b = grind arith

factor_lem :
    (chosen_rank : Bool) (x p m c e b : ℕ)
    → x ≡ (p + c * m) * 2 ^ (e + b)
    → (if chosen_rank then x else p * 2 ^ b)
      ≡ (p + chosen chosen_rank c * m) * (2 ^ chosen chosen_rank e * 2 ^ b)
factor_lem true x p m c e b h = h ∙ ap (λ z. (p + c * m) * z) (pow-add e b)
factor_lem false x p m c e b h = nothing_chosen p m (2 ^ b)

-- What the ranks submit: `s` is the shuffled rank and `e` the exponent.
module _ (t : Float) (n mant : ℕ) (s e : ℕ → ℕ) (fraction : mant < 2 ^ mantissa_bits t)
    (once : sum (λ r. same (s r) 0) n ≤ 1) (fits : sum e n ≤ max_exp t) where
  unfoldable pub word : ℕ → ℕ
  word r = make_float t (s r % 2) (e r + exponent_bias t) (same (s r) 0 * mant)

  word_exponent : (r : ℕ) → r < n → e r + exponent_bias t < 2 ^ exponent_bits t - 1
  word_exponent r l =
      let (low, high) = exponent-range t in let term = term-le-sum e n r l in omega arith

  pub word_sign : (r : ℕ) → r < n → sign_field t (word r) ≡ s r % 2
  unfolding word
  word_sign r l =
      let inside = word_exponent r l in
      sign_field_lem t (s r % 2) (e r + exponent_bias t) (same (s r) 0 * mant) (omega arith)
        (omega arith) (once-lt (same (s r) 0) mant _ (same-le (s r) 0) fraction)

  magnitude-word :
      (r : ℕ)
      → r < n
      → magnitude t (word r)
        ≡ (2 ^ mantissa_bits t + same (s r) 0 * mant) * 2 ^ (e r + exponent_bias t)
  unfolding word
  magnitude-word r l =
      let inside = word_exponent r l in
      let (low, high) = exponent-range t in
      magnitude_lem t (s r % 2) (e r + exponent_bias t) (same (s r) 0 * mant) (omega arith)
        (omega arith) (once-lt (same (s r) 0) mant _ (same-le (s r) 0) fraction) (omega arith)

  module _ (p : ℕ → Bool) where
    abbrev some_mantissa : ℕ
    some_mantissa = sum (λ r. chosen (p r) (same (s r) 0)) n

    abbrev some_exponents : ℕ
    some_exponents = sum (λ r. chosen (p r) (e r)) n

    abbrev some_signs : ℕ
    some_signs = sum (λ r. chosen (p r) (sign_field t (word r))) n

    -- The number that the product over a set of the ranks is.
    unfoldable pub product_word : ℕ
    product_word =
        make_float t (some_signs % 2) (some_exponents + exponent_bias t) (some_mantissa * mant)

    mantissa_at_most : some_mantissa ≤ 1
    mantissa_at_most =
        let less =
          sum_monotone (λ r. chosen (p r) (same (s r) 0)) (λ r. same (s r) 0) n
            (λ r l. chosen-le (p r) _) in
        omega arith

    exponents_at_most : some_exponents + exponent_bias t < 2 ^ exponent_bits t - 1
    exponents_at_most =
        let (low, high) = exponent-range t in
        let less = sum_monotone (λ r. chosen (p r) (e r)) e n (λ r l. chosen-le (p r) _) in
        omega arith

    pub product_word-IsFinite : IsFinite t product_word
    unfolding product_word
    product_word-IsFinite =
        let inside = exponents_at_most in
        (
          make_float-lt t _ _ _,
          rw
              (exponent_field_lem t (some_signs % 2) (some_exponents + exponent_bias t)
                (some_mantissa * mant) (omega arith) (omega arith)
                (once-lt some_mantissa mant _ mantissa_at_most fraction))
              inside,
        )

    pub product_word_sign :
        sum (λ r. chosen (p r) (sign_field t (word r))) n % 2 ≡ sign_field t product_word
    unfolding product_word
    product_word_sign =
        let inside = exponents_at_most in
        sym (
          sign_field_lem t (some_signs % 2) (some_exponents + exponent_bias t)
            (some_mantissa * mant) (omega arith) (omega arith)
            (once-lt some_mantissa mant _ mantissa_at_most fraction))

    product_magnitude :
        magnitude t product_word
        ≡ (2 ^ mantissa_bits t + some_mantissa * mant) * 2 ^ (some_exponents + exponent_bias t)
    unfolding product_word
    product_magnitude =
        let inside = exponents_at_most in
        let (low, high) = exponent-range t in
        magnitude_lem t (some_signs % 2) (some_exponents + exponent_bias t) (some_mantissa * mant)
          (omega arith) (omega arith) (once-lt some_mantissa mant _ mantissa_at_most fraction)
          (omega arith)

    pub product_word_lem :
        product (λ r. if p r then magnitude t (word r) else unit t) n * unit t
        ≡ magnitude t product_word * unit t ^ n
    product_word_lem =
        let top = 2 ^ mantissa_bits t in
        let base = 2 ^ exponent_bias t in
        let m = λ (r : ℕ). chosen (p r) (same (s r) 0) in
        let x = λ (r : ℕ). chosen (p r) (e r) in
        ap (λ z. z * unit t)
          (product_same (λ r. if p r then magnitude t (word r) else unit t)
            (λ r. (top + m r * mant) * (2 ^ x r * base)) n
            (λ r l.
              factor_lem (p r) _ top mant (same (s r) 0) (e r) (exponent_bias t)
                (magnitude-word r l)))
        ∙ spread (product (λ r. (top + m r * mant) * (2 ^ x r * base)) n) top base
        ∙ ap (λ z. z * base) (product_lem top mant base m x n mantissa_at_most)
        ∙ folded (top + sum m n * mant) (2 ^ sum x n) (unit t ^ n) base
        ∙ ap (λ z. (top + sum m n * mant) * z * unit t ^ n)
            (sym (pow-add (sum x n) (exponent_bias t)))
        ∙ ap (λ z. z * unit t ^ n) (sym product_magnitude)
      where
        spread : (a p b : ℕ) → a * (p * b) ≡ a * p * b
        spread a p b = grind arith

        folded : (a x u b : ℕ) → a * (x * u) * b ≡ a * (x * b) * u
        folded a x u b = grind arith
