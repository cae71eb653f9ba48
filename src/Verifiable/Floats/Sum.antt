-- ===== src/Verifiable/Floats/Sum.antt =====
-- `genInOutFloatSum` of verifiable/verifiable.cu: the inputs of the ranks and the output come from one draw, whose
-- mantissas add up.
use nccl_tests.Prelude.{
  ℕ, zero, suc, ◌+◌, ◌-◌, ◌/◌, ◌%◌, ◌^◌, ◌<◌, ◌≤◌, ◌≡◌, ◌∙◌, inl, inr, refl, sym, ap, arith, Bool,
  true, false, some, ◌==◌, ltb, ltb→lt, if◌then◌else◌, Bool-cases,
}
use nccl_tests.Prelude.Sums.{sum}
use nccl_tests.Verifiable.Words.{mix_bits}
use nccl_tests.Verifiable.Words.Bits.{mix_bits-lt}
use nccl_tests.Verifiable.SumXy.{choose_y, contribution, gen_sum_xy}
use nccl_tests.Verifiable.SumXy.Total.{contribution-total}
use nccl_tests.Verifiable.SumXy.Chosen.{choose_y-range, choose_y-avoids}
use nccl_tests.Verifiable.Floats.{
  Float, float32, float64, float16, bfloat16, float8e4m3, float8e5m2, exponent_bits, mantissa_bits,
  uintmant, max_mant, distance, flip, answer, mixed_sign_sum,
}
use nccl_tests.Verifiable.Floats.Encoding.{mantissa_fits, if_plus, if_minus}
use nccl_tests.Verifiable.Floats.Woven.{
  distance_less, distance_more, woven, woven_plus, woven_minus,
}
use nccl_tests.Verifiable.Floats.Signs.{Drawn}

two_mantissas : (t : Float) → 2 ≤ 2 ^ mantissa_bits t
two_mantissas float32 = omega arith
two_mantissas float64 = omega arith
two_mantissas float16 = omega arith
two_mantissas bfloat16 = omega arith
two_mantissas float8e4m3 = omega arith
two_mantissas float8e5m2 = omega arith

balance_less :
    (s a b : ℕ)
    → s < 2
    → a < b
    → if_plus (flip s 0) a + if_plus (flip s 1) b + if_minus (flip s 1) (b - a)
      ≡ if_minus (flip s 0) a + if_minus (flip s 1) b + if_plus (flip s 1) (b - a)
balance_less zero a b h l = omega arith
balance_less (suc zero) a b h l = omega arith
balance_less (suc (suc s)) a b h l = absurd (omega arith)

balance_more :
    (s a b : ℕ)
    → s < 2
    → b ≤ a
    → if_plus (flip s 0) a + if_plus (flip s 1) b + if_minus (flip s 0) (a - b)
      ≡ if_minus (flip s 0) a + if_minus (flip s 1) b + if_plus (flip s 0) (a - b)
balance_more zero a b h l = omega arith
balance_more (suc zero) a b h l = omega arith
balance_more (suc (suc s)) a b h l = absurd (omega arith)

-- Only one of the two stands on each side.
plus_fits_both :
    (s a b m : ℕ) → s < 2 → a ≤ m → b ≤ m → if_plus (flip s 0) a + if_plus (flip s 1) b ≤ m
plus_fits_both zero a b m h i j = omega arith
plus_fits_both (suc zero) a b m h i j = omega arith
plus_fits_both (suc (suc s)) a b m h i j = absurd (omega arith)

minus_fits_both :
    (s a b m : ℕ) → s < 2 → a ≤ m → b ≤ m → if_minus (flip s 0) a + if_minus (flip s 1) b ≤ m
minus_fits_both zero a b m h i j = omega arith
minus_fits_both (suc zero) a b m h i j = omega arith
minus_fits_both (suc (suc s)) a b m h i j = absurd (omega arith)

-- One draw: `sign`, `exp` and `rng` are what `genInOutFloatSum` has before the two sums.
module _ (t : Float) (n sign exp rng : ℕ) (pair : 2 ≤ n) (few : (n + 1) / 2 ≤ 2 ^ mantissa_bits t)
    (count : n < 2 ^ 31) (bit : sign < 2) (low : mantissa_bits t < exp)
    (high : exp < 2 ^ exponent_bits t - 1) (word : rng < 2 ^ 64) where
  y0 : ℕ
  y0 = choose_y (uintmant t) rng (max_mant t) 0 false

  y1 : ℕ
  y1 = choose_y (uintmant t) (mix_bits rng) (max_mant t) y0 true

  two_at_least : 2 ≤ 2 ^ mantissa_bits t
  two_at_least = two_mantissas t

  y0-range : (2 ^ mantissa_bits t ≤ y0) × (y0 ≤ max_mant t)
  unfolding y0
  y0-range =
      let room = mantissa_fits t in
      let range = choose_y-range (uintmant t) rng (max_mant t) 0 word (omega arith) in
      (omega (arith, two_at_least), omega arith)

  y1-range : (2 ^ mantissa_bits t ≤ y1) × (y1 ≤ max_mant t)
  unfolding y1
  y1-range =
      let room = mantissa_fits t in
      let (from, to) = y0-range in
      let range =
        choose_y-avoids (uintmant t) (mix_bits rng) (max_mant t) y0 (mix_bits-lt rng) (omega arith)
          (omega (arith, two_at_least)) (omega (arith, two_at_least)) to in
      (omega (arith, two_at_least), omega arith)

  mixed_at :
      (input : Bool) (rank a b : ℕ)
      → contribution (uintmant t) (max_mant t) ((n + 1) / 2) (rank / 2) y0 ≡ some a
      → contribution (uintmant t) (max_mant t) (n / 2) (rank / 2) y1 ≡ some b
      → mixed_sign_sum t input n rank sign exp rng
        ≡ answer t input
            (flip sign (rank % 2))
            (flip sign (if ltb y0 y1 then 1 else 0))
            exp
            (some (if rank % 2 == 0 then a else b))
            (distance (uintmant t) y0 y1)
  unfolding mixed_sign_sum gen_sum_xy y0 y1
  mixed_at input rank a b e f =
      let some_odd : (n / 2 == 0) ≡ false = ground arith in rw (some_odd, e, f) refl

  distance_fits : distance (uintmant t) y0 y1 ≤ max_mant t
  distance_fits =
      let room = mantissa_fits t in
      let (from0, to0) = y0-range in
      let (from1, to1) = y1-range in
      elim (Bool-cases (ltb y0 y1)) [
        | inl l ↦ omega (arith, distance_less (uintmant t) y0 y1 (ltb→lt y0 y1 l) (omega arith))
        | inr l ↦ omega (arith, distance_more (uintmant t) y0 y1 (ground arith) (omega arith))
      ]

  abbrev total_sign : ℕ
  total_sign = flip sign (if ltb y0 y1 then 1 else 0)

  -- The two sums, the one against the other.
  balanced :
      if_plus (flip sign 0) y0
        + if_plus (flip sign 1) y1
        + if_minus total_sign (distance (uintmant t) y0 y1)
      ≡ if_minus (flip sign 0) y0
        + if_minus (flip sign 1) y1
        + if_plus total_sign (distance (uintmant t) y0 y1)
  balanced =
      let room = mantissa_fits t in
      let (from0, to0) = y0-range in
      let (from1, to1) = y1-range in
      elim (Bool-cases (ltb y0 y1)) [
        | inl l ↦
            let apart = distance_less (uintmant t) y0 y1 (ltb→lt y0 y1 l) (omega arith) in
            rw (apart, l) (balance_less sign y0 y1 bit (ltb→lt y0 y1 l))
        | inr l ↦
            let apart = distance_more (uintmant t) y0 y1 (ground arith) (omega arith) in
            rw (apart, l) (balance_more sign y0 y1 bit (ground arith))
      ]

  module _ (x0 x1 : ℕ → ℕ)
      (is_x0 : (r : ℕ) → contribution (uintmant t) (max_mant t) ((n + 1) / 2) r y0 ≡ some (x0 r))
      (is_x1 : (r : ℕ) → contribution (uintmant t) (max_mant t) (n / 2) r y1 ≡ some (x1 r))
      (total0 : sum x0 ((n + 1) / 2) ≡ y0) (total1 : sum x1 (n / 2) ≡ y1) (shuffled : ℕ → ℕ)
      (permuted : (g : ℕ → ℕ) → sum (λ r. g (shuffled r)) n ≡ sum g n) where
    plus_total :
        sum (λ r. if_plus (flip sign (shuffled r % 2)) (woven x0 x1 (shuffled r))) n
        ≡ if_plus (flip sign 0) y0 + if_plus (flip sign 1) y1
    plus_total =
        permuted (λ r. if_plus (flip sign (r % 2)) (woven x0 x1 r))
        ∙ woven_plus x0 x1 sign n
        ∙ rw (total0, total1) refl

    minus_total :
        sum (λ r. if_minus (flip sign (shuffled r % 2)) (woven x0 x1 (shuffled r))) n
        ≡ if_minus (flip sign 0) y0 + if_minus (flip sign 1) y1
    minus_total =
        permuted (λ r. if_minus (flip sign (r % 2)) (woven x0 x1 r))
        ∙ woven_minus x0 x1 sign n
        ∙ rw (total0, total1) refl

    Drawn-from :
        (first : ℕ)
        → Drawn t n
            (λ r. mixed_sign_sum t true n (shuffled r) sign exp rng)
            (mixed_sign_sum t false n first sign exp rng)
    Drawn-from first =
        let (from0, to0) = y0-range in
        let (from1, to1) = y1-range in
        let at = λ (input : Bool) (rank : ℕ).
          mixed_at input rank (x0 (rank / 2)) (x1 (rank / 2)) (is_x0 (rank / 2))
            (is_x1 (rank / 2)) in
        record {
          exponent = exp;
          sign = λ r. flip sign (shuffled r % 2);
          mantissa = λ r. woven x0 x1 (shuffled r);
          total_sign = total_sign;
          total = distance (uintmant t) y0 y1;
          exponent_low = low;
          exponent_high = high;
          sign_bit = λ r. omega arith;
          total_sign_bit = omega arith;
          total_fits = distance_fits;
          is_input = λ r l. at true (shuffled r);
          is_output = at false first;
          plus_fits = omega (arith, plus_total, plus_fits_both sign y0 y1 (max_mant t) bit to0 to1);
          minus_fits =
              omega (arith, minus_total, minus_fits_both sign y0 y1 (max_mant t) bit to0 to1);
          balance =
              ap (λ z. z + if_minus total_sign (distance (uintmant t) y0 y1)) plus_total
              ∙ balanced
              ∙ ap (λ z. z + if_plus total_sign (distance (uintmant t) y0 y1)) (sym minus_total);
        }

  pub mixed_sign_sum-Drawn :
      (shuffled : ℕ → ℕ)
      → ((g : ℕ → ℕ) → sum (λ r. g (shuffled r)) n ≡ sum g n)
      → (first : ℕ)
      → Drawn t n
          (λ r. mixed_sign_sum t true n (shuffled r) sign exp rng)
          (mixed_sign_sum t false n first sign exp rng)
  mixed_sign_sum-Drawn shuffled permuted first =
      let room = mantissa_fits t in
      let (from0, to0) = y0-range in
      let (from1, to1) = y1-range in
      let (x0, is_x0, total0) =
        contribution-total (uintmant t) (max_mant t) ((n + 1) / 2) y0 (omega arith) (omega arith)
          (omega arith) to0 (omega arith) in
      let (x1, is_x1, total1) =
        contribution-total (uintmant t) (max_mant t) (n / 2) y1 (omega arith) (omega arith)
          (omega arith) to1 (omega arith) in
      Drawn-from x0 x1 is_x0 is_x1 total0 total1 shuffled permuted first
