-- ===== src/Verifiable/Floats/Signs.antt =====
-- Numbers with a sign, as what is above 0 and what is below: sums of them, and the distance of two numbers as
-- verifiable/verifiable.cu takes it.
use native.Mathlib.Nat.{add-mul}
use nccl_tests.Prelude.{
  ℕ, ◌+◌, ◌-◌, ◌*◌, ◌^◌, ◌<◌, ◌≤◌, ◌≡◌, ◌∙◌, ◌⊎◌, inl, inr, refl, sym, ap, arith, Bool, true, false,
  ◌==◌, ltb, if◌then◌else◌, Bool-cases, Option, some,
}
use nccl_tests.Prelude.Sums.{sum, sum_same, sum_times, sum_monotone, term-le-sum}
use nccl_tests.Verifiable.Floats.{Float, exponent_bits, mantissa_bits, max_mant, encode}
use nccl_tests.Verifiable.Floats.Fields.{above, below}
use nccl_tests.Verifiable.Floats.Encoding.{
  if_plus, if_minus, above-encode, below-encode, IsFinite, encode-IsFinite,
}

-- What the inputs of `n` ranks and the output have in common: one power of two, and mantissas that add up.
pub record Drawn (t : Float) (n : ℕ) (input : ℕ → Option ℕ) (output : Option ℕ) : Type 0 where
  pub exponent : ℕ
  pub sign : ℕ → ℕ
  pub mantissa : ℕ → ℕ
  pub total_sign : ℕ
  pub total : ℕ
  pub exponent_low : mantissa_bits t < exponent
  pub exponent_high : exponent < 2 ^ exponent_bits t - 1
  pub sign_bit : (r : ℕ) → sign r < 2
  pub total_sign_bit : total_sign < 2
  pub total_fits : total ≤ max_mant t
  pub is_input : (r : ℕ) → r < n → input r ≡ some (encode t (sign r) exponent (mantissa r))
  pub is_output : output ≡ some (encode t total_sign exponent total)
  pub plus_fits : sum (λ r. if_plus (sign r) (mantissa r)) n ≤ max_mant t
  pub minus_fits : sum (λ r. if_minus (sign r) (mantissa r)) n ≤ max_mant t
  pub balance :
      sum (λ r. if_plus (sign r) (mantissa r)) n + if_minus total_sign total
      ≡ sum (λ r. if_minus (sign r) (mantissa r)) n + if_plus total_sign total

pub times_plus : (s x p : ℕ) → if_plus s (x * p) ≡ if_plus s x * p
times_plus s x p = elim (Bool-cases (s == 0)) [ inl e ↦ rw e | inr e ↦ rw e (omega arith) ]

pub times_minus : (s x p : ℕ) → if_minus s (x * p) ≡ if_minus s x * p
times_minus s x p = elim (Bool-cases (s == 0)) [ inl e ↦ rw e (omega arith) | inr e ↦ rw e ]

-- A number of a set, or 0.
abbrev pub chosen : Bool → ℕ → ℕ
chosen b x = if b then x else 0

times_chosen : (b : Bool) (x p : ℕ) → chosen b (x * p) ≡ chosen b x * p
times_chosen true x p = refl
times_chosen false x p = omega arith

pub chosen-le : (b : Bool) (x : ℕ) → chosen b x ≤ x
chosen-le true x = omega arith
chosen-le false x = omega arith

plus-or-minus : (s x : ℕ) → (if_plus s x ≡ x) ⊎ (if_minus s x ≡ x)
plus-or-minus s x = elim (Bool-cases (s == 0)) [ inl e ↦ inl (rw e) | inr e ↦ inr (rw e) ]

split_times : (x y p : ℕ) → x ≤ y → y * p ≡ x * p + (y - x) * p
split_times x y p l = ap (λ z. z * p) (parts x y l) ∙ add-mul x (y - x) p
  where
    parts : (x y : ℕ) → x ≤ y → y ≡ x + (y - x)
    parts x y l = omega arith

-- The difference of two mantissas is a number of the type.
difference :
    (t : Float) (exp up down : ℕ)
    → mantissa_bits t < exp
    → exp < 2 ^ exponent_bits t - 1
    → up ≤ max_mant t
    → down ≤ max_mant t
    → (z : ℕ) × IsFinite t z × (up * 2 ^ exp + below t z ≡ down * 2 ^ exp + above t z)
difference t exp up down low high a b = elim (Bool-cases (ltb up down)) [
  | inl l ↦
      let up_first : up ≤ down = ground arith in
      (
        encode t 1 exp (down - up),
        encode-IsFinite t 1 exp (down - up) (omega arith) (omega arith) low high,
        omega (
          arith,
          above-encode t 1 exp (down - up) (omega arith) (omega arith) low (omega arith),
          below-encode t 1 exp (down - up) (omega arith) (omega arith) low (omega arith),
          split_times up down (2 ^ exp) up_first,
        ),
      )
  | inr l ↦
      let down_first : down ≤ up = ground arith in
      (
        encode t 0 exp (up - down),
        encode-IsFinite t 0 exp (up - down) (omega arith) (omega arith) low high,
        omega (
          arith,
          above-encode t 0 exp (up - down) (omega arith) (omega arith) low (omega arith),
          below-encode t 0 exp (up - down) (omega arith) (omega arith) low (omega arith),
          split_times down up (2 ^ exp) down_first,
        ),
      )
]

module _ (t : Float) (n : ℕ) (input : ℕ → Option ℕ) (output : Option ℕ)
    (d : Drawn t n input output) where
  open d use {
    exponent, sign, mantissa, total_sign, total, exponent_low, exponent_high, sign_bit,
    total_sign_bit, total_fits, plus_fits, minus_fits, balance,
  }

  unfoldable pub drawn : ℕ → ℕ
  drawn r = encode t (sign r) exponent (mantissa r)

  mantissa_fits : (r : ℕ) → r < n → mantissa r ≤ max_mant t
  mantissa_fits r l =
      let plus = term-le-sum (λ r. if_plus (sign r) (mantissa r)) n r l in
      let minus = term-le-sum (λ r. if_minus (sign r) (mantissa r)) n r l in
      elim (plus-or-minus (sign r) (mantissa r)) [ inl e ↦ omega arith | inr e ↦ omega arith ]

  -- The sums over the ranks of a set, in units of the power of two.
  chosen-above :
      (p : ℕ → Bool)
      → sum (λ r. chosen (p r) (above t (drawn r))) n
        ≡ sum (λ r. chosen (p r) (if_plus (sign r) (mantissa r))) n * 2 ^ exponent
  unfolding drawn
  chosen-above p =
      sum_same (λ r. chosen (p r) (above t (drawn r)))
        (λ r. chosen (p r) (if_plus (sign r) (mantissa r)) * 2 ^ exponent) n
        (λ r l.
          ap (chosen (p r)) (
            above-encode t (sign r) exponent (mantissa r) (sign_bit r) (mantissa_fits r l)
              exponent_low (omega arith)
            ∙ times_plus (sign r) (mantissa r) (2 ^ exponent))
          ∙ times_chosen (p r) (if_plus (sign r) (mantissa r)) (2 ^ exponent))
      ∙ sum_times (λ r. chosen (p r) (if_plus (sign r) (mantissa r))) (2 ^ exponent) n

  chosen_below :
      (p : ℕ → Bool)
      → sum (λ r. chosen (p r) (below t (drawn r))) n
        ≡ sum (λ r. chosen (p r) (if_minus (sign r) (mantissa r))) n * 2 ^ exponent
  unfolding drawn
  chosen_below p =
      sum_same (λ r. chosen (p r) (below t (drawn r)))
        (λ r. chosen (p r) (if_minus (sign r) (mantissa r)) * 2 ^ exponent) n
        (λ r l.
          ap (chosen (p r)) (
            below-encode t (sign r) exponent (mantissa r) (sign_bit r) (mantissa_fits r l)
              exponent_low (omega arith)
            ∙ times_minus (sign r) (mantissa r) (2 ^ exponent))
          ∙ times_chosen (p r) (if_minus (sign r) (mantissa r)) (2 ^ exponent))
      ∙ sum_times (λ r. chosen (p r) (if_minus (sign r) (mantissa r))) (2 ^ exponent) n

  -- A sum over any set of the ranks is a number of the type: nothing is rounded.
  pub partial_sum :
      (p : ℕ → Bool)
      → (z : ℕ) × IsFinite t z
        × (sum (λ r. chosen (p r) (above t (drawn r))) n + below t z
            ≡ sum (λ r. chosen (p r) (below t (drawn r))) n + above t z)
  partial_sum p =
      let up = sum (λ r. chosen (p r) (if_plus (sign r) (mantissa r))) n in
      let down = sum (λ r. chosen (p r) (if_minus (sign r) (mantissa r))) n in
      let up_fits =
        sum_monotone (λ r. chosen (p r) (if_plus (sign r) (mantissa r)))
          (λ r. if_plus (sign r) (mantissa r)) n (λ r l. chosen-le (p r) _) in
      let down_fits =
        sum_monotone (λ r. chosen (p r) (if_minus (sign r) (mantissa r)))
          (λ r. if_minus (sign r) (mantissa r)) n (λ r l. chosen-le (p r) _) in
      let (z, finite, e) =
        difference t exponent up down exponent_low exponent_high (omega arith) (omega arith) in
      (z, finite, omega (arith, chosen-above p, chosen_below p, e))

  -- The sum over all of them is the output.
  pub whole_sum :
      sum (λ r. above t (drawn r)) n + below t (encode t total_sign exponent total)
      ≡ sum (λ r. below t (drawn r)) n + above t (encode t total_sign exponent total)
  whole_sum =
      let scale = 2 ^ exponent in
      let plus_all = sum (λ r. if_plus (sign r) (mantissa r)) n in
      let minus_all = sum (λ r. if_minus (sign r) (mantissa r)) n in
      let scaled : plus_all * scale + if_minus total_sign total * scale
          ≡ minus_all * scale + if_plus total_sign total * scale =
        sym (add-mul plus_all (if_minus total_sign total) scale)
        ∙ ap (λ x. x * scale) balance
        ∙ add-mul minus_all (if_plus total_sign total) scale in
      omega (
        arith,
        scaled,
        chosen-above (λ r. true),
        chosen_below (λ r. true),
        above-encode t total_sign exponent total total_sign_bit total_fits exponent_low
            (omega arith),
        below-encode t total_sign exponent total total_sign_bit total_fits exponent_low
            (omega arith),
        times_plus total_sign total scale,
        times_minus total_sign total scale,
      )
