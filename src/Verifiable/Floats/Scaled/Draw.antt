-- ===== src/Verifiable/Floats/Scaled/Draw.antt =====
-- One draw of the sum with scalars in verifiable/verifiable.cu, once the sign and the exponent are there.
use native.Mathlib.Nat.{mod-eq_of_lt, mul_assoc}
use nccl_tests.Prelude.{
  ℕ, ◌+◌, ◌*◌, ◌/◌, ◌%◌, ◌^◌, ◌<◌, ◌≤◌, ◌≡◌, ◌∙◌, inl, inr, refl, sym, ap, arith, Bool, true, false,
  some, ◌==◌, if◌then◌else◌, Bool-cases,
}
use nccl_tests.Prelude.Sums.{sum, sum_same, sum_halves, sum_times, term-le-sum}
use nccl_tests.Verifiable.Words.{mix_bits}
use nccl_tests.Verifiable.Words.Bits.{mix_bits-lt}
use nccl_tests.Verifiable.Shuffle.{shuffle_rank}
use nccl_tests.Verifiable.Shuffle.Numbers.{parity}
use nccl_tests.Verifiable.Shuffle.Count.{sum_shuffled}
use nccl_tests.Verifiable.SumXy.{modulus, choose_y, contribution, gen_sum_xy}
use nccl_tests.Verifiable.SumXy.Total.{contribution-total}
use nccl_tests.Verifiable.SumXy.Chosen.{choose_y-range}
use nccl_tests.Verifiable.Floats.{
  Float, exponent_bits, mantissa_bits, uintmant, max_mant, encode, answer,
}
use nccl_tests.Verifiable.Floats.Fields.{above, below}
use nccl_tests.Verifiable.Floats.Encoding.{
  mantissa_fits, if_plus, if_minus, above-encode, below-encode,
}
use nccl_tests.Verifiable.Floats.Woven.{woven, sum_plus, sum_minus}
use nccl_tests.Verifiable.Floats.Signs.{times_plus, times_minus}
use nccl_tests.Verifiable.Floats.Scaled.{premul_scalar, second_sum, scaled_sum}

scaled_plus : (s c m p : ℕ) → c * if_plus s (m * p) ≡ if_plus s (c * m) * p
scaled_plus s c m p = elim (Bool-cases (s == 0)) [
  | inl e ↦ rw e (sym (mul_assoc c m p))
  | inr e ↦ rw e (omega arith)
]

scaled_minus : (s c m p : ℕ) → c * if_minus s (m * p) ≡ if_minus s (c * m) * p
scaled_minus s c m p = elim (Bool-cases (s == 0)) [
  | inl e ↦ rw e (omega arith)
  | inr e ↦ rw e (sym (mul_assoc c m p))
]

module _ (t : Float) (n sign exp rng : ℕ) (pair : 2 ≤ n) (count : n < 2 ^ 31)
    (few0 : (n + 1) / 2 ≤ (max_mant t / 2 + 1) / 2) (few1 : n / 2 ≤ (max_mant t / 4 + 1) / 2)
    (bit : sign < 2) (low : mantissa_bits t < exp) (high : exp < 2 ^ exponent_bits t) where
  y0 : ℕ
  y0 = choose_y (uintmant t) (mix_bits (mix_bits rng)) (max_mant t / 2) 0 false

  y1 : ℕ
  y1 = choose_y (uintmant t) (mix_bits (mix_bits (mix_bits rng))) (max_mant t / 4) 0 false

  y0-range : ((n + 1) / 2 ≤ y0) × (y0 ≤ max_mant t / 2)
  unfolding y0
  y0-range =
      let room = mantissa_fits t in
      let range =
        choose_y-range (uintmant t) (mix_bits (mix_bits rng)) (max_mant t / 2) 0 (mix_bits-lt _)
          (omega arith) in
      (omega arith, omega arith)

  y1-range : (n / 2 ≤ y1) × (y1 ≤ max_mant t / 4)
  unfolding y1
  y1-range =
      let room = mantissa_fits t in
      let range =
        choose_y-range (uintmant t) (mix_bits (mix_bits (mix_bits rng))) (max_mant t / 4) 0
          (mix_bits-lt _) (omega arith) in
      (omega arith, omega arith)

  -- The ranks of either kind in their random order.
  place0 : ℕ → ℕ
  place0 j = shuffle_rank ((n + 1) / 2) j rng

  place1 : ℕ → ℕ
  place1 j = shuffle_rank (n / 2) j (mix_bits rng)

  scaled_at :
      (input : Bool) (rank a b : ℕ)
      → contribution (uintmant t) (max_mant t / 2) ((n + 1) / 2) (place0 (rank / 2)) y0 ≡ some a
      → contribution (uintmant t) (max_mant t / 4) (n / 2) (place1 (rank / 2)) y1 ≡ some b
      → scaled_sum t input n rank sign exp rng
        ≡ answer t input sign sign exp
            (some (if rank % 2 == 0 then a else b))
            ((y0 + 2 * y1) % modulus (uintmant t))
  unfolding scaled_sum second_sum gen_sum_xy y0 y1 place0 place1
  scaled_at input rank a b e f =
      let some_odd : (n / 2 == 0) ≡ false = ground arith in rw (some_odd, e, f) refl

  total_small : (y0 + 2 * y1) % modulus (uintmant t) ≡ y0 + 2 * y1
  total_small =
      let room = mantissa_fits t in
      let (from0, to0) = y0-range in let (from1, to1) = y1-range in mod-eq_of_lt (omega arith)

  total_fits : y0 + 2 * y1 ≤ max_mant t
  total_fits = let (from0, to0) = y0-range in let (from1, to1) = y1-range in omega arith

  module _ (x0 x1 : ℕ → ℕ)
      (is_x0 : (r : ℕ)
        → contribution (uintmant t) (max_mant t / 2) ((n + 1) / 2) r y0 ≡ some (x0 r))
      (is_x1 : (r : ℕ) → contribution (uintmant t) (max_mant t / 4) (n / 2) r y1 ≡ some (x1 r))
      (total0 : sum x0 ((n + 1) / 2) ≡ y0) (total1 : sum x1 (n / 2) ≡ y1) where
    first : ℕ → ℕ
    first j = x0 (place0 j)

    second : ℕ → ℕ
    second j = x1 (place1 j)

    mantissa : ℕ → ℕ
    mantissa r = woven first second r

    sum_first : sum first ((n + 1) / 2) ≡ y0
    unfolding first place0
    sum_first = sum_shuffled ((n + 1) / 2) rng x0 (omega arith) ∙ total0

    sum-second : sum second (n / 2) ≡ y1
    unfolding second place1
    sum-second = sum_shuffled (n / 2) (mix_bits rng) x1 (omega arith) ∙ total1

    mantissa-le : (r : ℕ) → r < n → mantissa r ≤ max_mant t
    unfolding mantissa
    mantissa-le r l =
        let (from0, to0) = y0-range in
        let (from1, to1) = y1-range in
        elim (parity r) [
          | inl even ↦
              let part = term-le-sum first ((n + 1) / 2) (r / 2) (omega arith) in
              rw even (omega (arith, sum_first))
          | inr odd ↦
              let part = term-le-sum second (n / 2) (r / 2) (omega arith) in
              rw odd (omega (arith, sum-second))
        ]

    -- Each mantissa times its rank's scalar.
    scaled_mantissa :
        (r : ℕ)
        → premul_scalar r * mantissa r ≡ (if r % 2 == 0 then first (r / 2) else second (r / 2) * 2)
    unfolding mantissa
    scaled_mantissa r = elim (parity r) [
      | inl even ↦ rw even (omega arith)
      | inr odd ↦ rw odd (omega arith)
    ]

    scaled_total : sum (λ r. premul_scalar r * mantissa r) n ≡ y0 + 2 * y1
    scaled_total = omega (
      arith,
      sum_same (λ r. premul_scalar r * mantissa r)
          (λ r. if r % 2 == 0 then first (r / 2) else second (r / 2) * 2) n
          (λ r l. scaled_mantissa r),
      sum_halves first (λ j. second j * 2) n,
      sum_times second 2 (n / 2),
      sum_first,
      sum-second,
    )

    bits : ℕ → ℕ
    bits r = encode t sign exp (mantissa r)

    scaled_above :
        sum (λ r. premul_scalar r * above t (bits r)) n ≡ if_plus sign (y0 + 2 * y1) * 2 ^ exp
    unfolding bits
    scaled_above =
        sum_same (λ r. premul_scalar r * above t (bits r))
          (λ r. if_plus sign (premul_scalar r * mantissa r) * 2 ^ exp) n
          (λ r l.
            ap (λ z. premul_scalar r * z)
              (above-encode t sign exp (mantissa r) bit (mantissa-le r l) low high)
            ∙ scaled_plus sign (premul_scalar r) (mantissa r) (2 ^ exp))
        ∙ sum_times (λ r. if_plus sign (premul_scalar r * mantissa r)) (2 ^ exp) n
        ∙ ap (λ z. z * 2 ^ exp)
            (sum_plus sign (λ r. premul_scalar r * mantissa r) n ∙ ap (if_plus sign) scaled_total)

    scaled_below :
        sum (λ r. premul_scalar r * below t (bits r)) n ≡ if_minus sign (y0 + 2 * y1) * 2 ^ exp
    unfolding bits
    scaled_below =
        sum_same (λ r. premul_scalar r * below t (bits r))
          (λ r. if_minus sign (premul_scalar r * mantissa r) * 2 ^ exp) n
          (λ r l.
            ap (λ z. premul_scalar r * z)
              (below-encode t sign exp (mantissa r) bit (mantissa-le r l) low high)
            ∙ scaled_minus sign (premul_scalar r) (mantissa r) (2 ^ exp))
        ∙ sum_times (λ r. if_minus sign (premul_scalar r * mantissa r)) (2 ^ exp) n
        ∙ ap (λ z. z * 2 ^ exp)
            (sum_minus sign (λ r. premul_scalar r * mantissa r) n ∙ ap (if_minus sign) scaled_total)

    scaled_sums :
        sum (λ r. premul_scalar r * above t (bits r)) n + below t (encode t sign exp (y0 + 2 * y1))
        ≡ sum (λ r. premul_scalar r * below t (bits r)) n
          + above t (encode t sign exp (y0 + 2 * y1))
    scaled_sums = omega (
      arith,
      scaled_above,
      scaled_below,
      above-encode t sign exp (y0 + 2 * y1) bit total_fits low high,
      below-encode t sign exp (y0 + 2 * y1) bit total_fits low high,
      times_plus sign (y0 + 2 * y1) (2 ^ exp),
      times_minus sign (y0 + 2 * y1) (2 ^ exp),
    )

    scaled_from :
        (x : ℕ → ℕ) × (y : ℕ) × ((r : ℕ) → r < n → scaled_sum t true n r sign exp rng ≡ some (x r))
        × (scaled_sum t false n 0 sign exp rng ≡ some y)
        × (sum (λ r. premul_scalar r * above t (x r)) n + below t y
            ≡ sum (λ r. premul_scalar r * below t (x r)) n + above t y)
    unfolding bits mantissa first second
    scaled_from = (
      bits,
      encode t sign exp (y0 + 2 * y1),
      λ r l.
          scaled_at true r (first (r / 2)) (second (r / 2)) (is_x0 (place0 (r / 2)))
            (is_x1 (place1 (r / 2))),
      scaled_at false 0 (first 0) (second 0) (is_x0 (place0 0)) (is_x1 (place1 0))
          ∙ ap (λ z. some (encode t sign exp z)) total_small,
      scaled_sums,
    )

  pub scaled_draw :
      (x : ℕ → ℕ) × (y : ℕ) × ((r : ℕ) → r < n → scaled_sum t true n r sign exp rng ≡ some (x r))
      × (scaled_sum t false n 0 sign exp rng ≡ some y)
      × (sum (λ r. premul_scalar r * above t (x r)) n + below t y
          ≡ sum (λ r. premul_scalar r * below t (x r)) n + above t y)
  scaled_draw =
      let room = mantissa_fits t in
      let (from0, to0) = y0-range in
      let (from1, to1) = y1-range in
      let (x0, is_x0, total0) =
        contribution-total (uintmant t) (max_mant t / 2) ((n + 1) / 2) y0 (omega arith)
          (omega arith) from0 to0 (omega arith) in
      let (x1, is_x1, total1) =
        contribution-total (uintmant t) (max_mant t / 4) (n / 2) y1 (omega arith) (omega arith)
          from1 to1 (omega arith) in
      scaled_from x0 x1 is_x0 is_x1 total0 total1
