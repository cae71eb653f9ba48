-- ===== src/Verifiable/Floats/Woven.antt =====
-- The random exponent and the mantissas of the even and the odd ranks in `genInOutFloatSum` of
-- verifiable/verifiable.cu.
use native.Mathlib.Nat.{mod-eq_of_lt, mul-add-mod_self_left}
use nccl_tests.Prelude.{
  ℕ, suc, ◌+◌, ◌-◌, ◌*◌, ◌/◌, ◌%◌, ◌^◌, ◌<◌, ◌≤◌, ◌≡◌, ◌∙◌, inl, inr, refl, sym, ap, arith, true,
  false, ◌==◌, ltb, lt→ltb, if◌then◌else◌, Bool-cases,
}
use nccl_tests.Prelude.Sums.{sum, sum_same, sum_zero, sum_halves}
use nccl_tests.Verifiable.Words.{u32}
use nccl_tests.Verifiable.Shuffle.Numbers.{parity}
use nccl_tests.Verifiable.SumXy.{Uint, modulus}
use nccl_tests.Verifiable.SumXy.Total.{wrapped_back, modulus-ge}
use nccl_tests.Verifiable.SumXy.Chosen.{high_half}
use nccl_tests.Verifiable.Floats.{
  Float, float32, float64, float16, bfloat16, float8e4m3, float8e5m2, exponent_bits, mantissa_bits,
  random_exp, distance, flip,
}
use nccl_tests.Verifiable.Floats.Encoding.{if_plus, if_minus}

exponents : (t : Float) → 1 + mantissa_bits t < 2 ^ exponent_bits t - 1
exponents float32 = omega arith
exponents float64 = omega arith
exponents float16 = omega arith
exponents bfloat16 = omega arith
exponents float8e4m3 = omega arith
exponents float8e5m2 = omega arith

-- A random exponent is that of a normal number that is not too large, whatever is shifted.
pub random_exp-range :
    (t : Float) (rng : ℕ)
    → (mantissa_bits t < random_exp t rng) × (random_exp t rng < 2 ^ exponent_bits t - 1)
random_exp-range t rng =
    let wide = exponents t in
    let range = 2 ^ exponent_bits t - 1 - (1 + mantissa_bits t) in
    let small = high_half (2 ^ 32) (u32 (rng / 2 ^ 32)) range (omega arith) (omega arith) in
    (omega arith, omega arith)

-- A number below 0 times -1.
negated : (j d m : ℕ) → m ≡ suc j + d → (m - 1) * suc j ≡ m * j + d
negated j d m e = ap (λ z. z * suc j) (down j d m e) ∙ product j d ∙ ap (λ z. z * j + d) (sym e)
  where
    down : (j d m : ℕ) → m ≡ suc j + d → m - 1 ≡ j + d
    down j d m e = omega arith

    product : (j d : ℕ) → (j + d) * suc j ≡ (suc j + d) * j + d
    product j d = grind arith

once_only : (x : ℕ) → 1 * x ≡ x
once_only x = omega arith

pub distance_less :
    (u : Uint) (y0 y1 : ℕ) → y0 < y1 → 2 * y1 < modulus u → distance u y0 y1 ≡ y1 - y0
distance_less u y0 y1 l room =
    let less : ltb y0 y1 ≡ true = lt→ltb y0 y1 l in
    let j = modulus u - (y1 - y0) - 1 in
    let large = modulus-ge u in
    let wrapped : (y0 + modulus u - y1) % modulus u ≡ suc j =
      mod-eq_of_lt {n = y0 + modulus u - y1} {m = modulus u} (omega arith) ∙ omega arith in
    rw (less, wrapped)
      (ap (λ z. z % modulus u) (negated j (y1 - y0) (modulus u) (omega arith))
        ∙ mul-add-mod_self_left (modulus u) j (y1 - y0)
        ∙ mod-eq_of_lt (omega arith))

pub distance_more :
    (u : Uint) (y0 y1 : ℕ) → y1 ≤ y0 → 2 * y0 < modulus u → distance u y0 y1 ≡ y0 - y1
distance_more u y0 y1 l room =
    let no_less : ltb y0 y1 ≡ false = ground arith in
    rw (no_less, wrapped_back y0 y1 (modulus u) l (omega arith))
      (ap (λ z. z % modulus u) (once_only (y0 - y1)) ∙ mod-eq_of_lt (omega arith))

pub sum_plus : (s : ℕ) (f : ℕ → ℕ) (n : ℕ) → sum (λ j. if_plus s (f j)) n ≡ if_plus s (sum f n)
sum_plus s f n = elim (Bool-cases (s == 0)) [ inl e ↦ rw e | inr e ↦ rw e (sum_zero n) ]

pub sum_minus : (s : ℕ) (f : ℕ → ℕ) (n : ℕ) → sum (λ j. if_minus s (f j)) n ≡ if_minus s (sum f n)
sum_minus s f n = elim (Bool-cases (s == 0)) [ inl e ↦ rw e (sum_zero n) | inr e ↦ rw e ]

-- The mantissas of the even ranks and of the odd ones.
abbrev pub woven : (x0 x1 : ℕ → ℕ) (rank : ℕ) → ℕ
woven x0 x1 rank = if rank % 2 == 0 then x0 (rank / 2) else x1 (rank / 2)

module _ (x0 x1 : ℕ → ℕ) (s n : ℕ) where
  by_parity :
      (r : ℕ) (f : ℕ → ℕ → ℕ)
      → f (r % 2) (woven x0 x1 r) ≡ (if r % 2 == 0 then f 0 (x0 (r / 2)) else f 1 (x1 (r / 2)))
  by_parity r f = elim (parity r) [ inl even ↦ rw even refl | inr odd ↦ rw odd refl ]

  pub woven_plus :
      sum (λ r. if_plus (flip s (r % 2)) (woven x0 x1 r)) n
      ≡ if_plus (flip s 0) (sum x0 ((n + 1) / 2)) + if_plus (flip s 1) (sum x1 (n / 2))
  woven_plus = omega (
    arith,
    sum_same (λ r. if_plus (flip s (r % 2)) (woven x0 x1 r))
        (λ r.
          if r % 2 == 0 then if_plus (flip s 0) (x0 (r / 2)) else if_plus (flip s 1) (x1 (r / 2)))
        n (λ r l. by_parity r (λ b. if_plus (flip s b))),
    sum_halves (λ j. if_plus (flip s 0) (x0 j)) (λ j. if_plus (flip s 1) (x1 j)) n,
    sum_plus (flip s 0) x0 ((n + 1) / 2),
    sum_plus (flip s 1) x1 (n / 2),
  )

  pub woven_minus :
      sum (λ r. if_minus (flip s (r % 2)) (woven x0 x1 r)) n
      ≡ if_minus (flip s 0) (sum x0 ((n + 1) / 2)) + if_minus (flip s 1) (sum x1 (n / 2))
  woven_minus = omega (
    arith,
    sum_same (λ r. if_minus (flip s (r % 2)) (woven x0 x1 r))
        (λ r.
          if r % 2 == 0 then if_minus (flip s 0) (x0 (r / 2)) else if_minus (flip s 1) (x1 (r / 2)))
        n (λ r l. by_parity r (λ b. if_minus (flip s b))),
    sum_halves (λ j. if_minus (flip s 0) (x0 j)) (λ j. if_minus (flip s 1) (x1 j)) n,
    sum_minus (flip s 0) x0 ((n + 1) / 2),
    sum_minus (flip s 1) x1 (n / 2),
  )
