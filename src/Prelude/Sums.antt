-- ===== src/Prelude/Sums.antt =====
-- Sums of a function of the numbers below a bound.
use Prim.Native.Nat.{ℕ, zero, suc, ◌+◌, ◌-◌, ◌*◌, ◌/◌, ◌%◌, ◌<◌, ◌≤◌}
use mathlib.Core.Path.{◌≡◌, refl, sym, ap, ◌∙◌}
use mathlib.Core.Logic.{inl, inr}
use mathlib.Core.Bool.{true, false}
use native.Mathlib.Nat.{add-mul, mul-add}
use native.Mathlib.Omega.{arith}
use nccl_tests.Prelude.Tests.{ltb, lt→ltb, ◌==◌, ==_iff, if◌then◌else◌, Bool-cases}

abbrev pub sum : (f : ℕ → ℕ) (n : ℕ) → ℕ
sum f zero = 0
sum f (suc n) = sum f n + f n

pub sum_same : (f g : ℕ → ℕ) (n : ℕ) → ((i : ℕ) → i < n → f i ≡ g i) → sum f n ≡ sum g n
sum_same f g zero h = refl
sum_same f g (suc n) h = omega (arith, sum_same f g n (λ i l. h i (omega arith)), h n (omega arith))

pub value_at : (f : ℕ → ℕ) (a b : ℕ) → a ≡ b → f a ≡ f b
value_at f a b h = ap f h

-- A sum in two parts.
pub sum_parts : (f : ℕ → ℕ) (a b : ℕ) → sum f (a + b) ≡ sum f a + sum (λ j. f (a + j)) b
sum_parts f a zero = omega (arith, value_at (sum f) (a + 0) a (omega arith))
sum_parts f a (suc b) =
    let e : sum f (suc (a + b)) ≡ sum f (a + b) + f (a + b) = refl in
    omega (arith, value_at (sum f) (a + suc b) (suc (a + b)) (omega arith), sum_parts f a b, e)

-- The first term taken first.
pub sum_first : (f : ℕ → ℕ) (n : ℕ) → sum f (suc n) ≡ f 0 + sum (λ j. f (suc j)) n
sum_first f zero = omega arith
sum_first f (suc n) = omega (arith, sum_first f n)

-- A sum the other way round.
pub sum_reversed : (f : ℕ → ℕ) (n : ℕ) → sum (λ j. f (n - suc j)) n ≡ sum f n
sum_reversed f zero = refl
sum_reversed f (suc n) =
    let later : (j : ℕ) → j < n → f (suc n - suc (suc j)) ≡ f (n - suc j) =
      λ j l. value_at f (suc n - suc (suc j)) (n - suc j) (omega arith) in
    let first : f (suc n - suc 0) ≡ f n = value_at f (suc n - suc 0) n (omega arith) in
    omega (
      arith,
      sum_first (λ j. f (suc n - suc j)) n,
      first,
      sum_same (λ j. f (suc n - suc (suc j))) (λ j. f (n - suc j)) n later,
      sum_reversed f n,
    )

pub sum_monotone : (f g : ℕ → ℕ) (n : ℕ) → ((i : ℕ) → i < n → f i ≤ g i) → sum f n ≤ sum g n
sum_monotone f g zero h = omega arith
sum_monotone f g (suc n) h =
    let a = sum_monotone f g n (λ i l. h i (omega arith)) in
    let b = h n (omega arith) in omega arith

-- Part of a sum.
pub sum_part : (f : ℕ → ℕ) (k n : ℕ) → k ≤ n → sum f k ≤ sum f n
sum_part f k zero h = omega (arith, value_at (sum f) k 0 (omega arith))
sum_part f k (suc n) h = elim (Bool-cases (ltb n k)) [
  | inl l ↦ let e = value_at (sum f) k (suc n) (ground arith) in omega arith
  | inr l ↦ let r = sum_part f k n (ground arith) in omega arith
]

pub sum_times : (f : ℕ → ℕ) (e n : ℕ) → sum (λ j. f j * e) n ≡ sum f n * e
sum_times f e zero = omega arith
sum_times f e (suc n) = ap (λ x. x + f n * e) (sum_times f e n) ∙ sym (add-mul (sum f n) (f n) e)

pub sum-add : (f g : ℕ → ℕ) (n : ℕ) → sum (λ i. f i + g i) n ≡ sum f n + sum g n
sum-add f g zero = refl
sum-add f g (suc n) = omega (arith, sum-add f g n)

pub sum_zero : (n : ℕ) → sum (λ i. 0) n ≡ 0
sum_zero zero = refl
sum_zero (suc n) = omega (arith, sum_zero n)

-- A term is no more than the sum.
pub term-le-sum : (f : ℕ → ℕ) (n i : ℕ) → i < n → f i ≤ sum f n
term-le-sum f zero i l = absurd (omega arith)
term-le-sum f (suc n) i l = elim (Bool-cases (ltb i n)) [
  | inl h ↦ let r = term-le-sum f n i (ground arith) in omega arith
  | inr h ↦ let e = value_at f i n (ground arith) in omega arith
]

-- A sum over the even and the odd numbers.
pub sum_halves :
    (f g : ℕ → ℕ) (n : ℕ)
    → sum (λ r. if r % 2 == 0 then f (r / 2) else g (r / 2)) n ≡ sum f ((n + 1) / 2) + sum g (n / 2)
sum_halves f g zero = refl
sum_halves f g (suc n) = elim (Bool-cases (n % 2 == 0)) [
  | inl even ↦
      let before = sum_halves f g n in
      let half = value_at (sum f) ((suc n + 1) / 2) (suc (n / 2)) (ground arith) in
      let former = value_at (sum f) ((n + 1) / 2) (n / 2) (ground arith) in
      let rest = value_at (sum g) (suc n / 2) (n / 2) (ground arith) in
      let term : (if n % 2 == 0 then f (n / 2) else g (n / 2)) ≡ f (n / 2) = rw even in omega arith
  | inr odd ↦
      let before = sum_halves f g n in
      let half = value_at (sum g) (suc n / 2) (suc (n / 2)) (ground arith) in
      let rest = value_at (sum f) ((suc n + 1) / 2) ((n + 1) / 2) (ground arith) in
      let term : (if n % 2 == 0 then f (n / 2) else g (n / 2)) ≡ g (n / 2) = rw odd in omega arith
]

pub sum_const : (c n : ℕ) → sum (λ i. c) n ≡ n * c
sum_const c zero = omega arith
sum_const c (suc n) = omega (arith, sum_const c n, add-mul n 1 c)

pub sum_one : (n : ℕ) → sum (λ i. 1) n ≡ n
sum_one zero = refl
sum_one (suc n) = omega (arith, sum_one n)

-- 1 if the two are the same.
abbrev pub same : ℕ → ℕ → ℕ
same w v = if w == v then 1 else 0

picked_term : (x w v : ℕ) → (w == v) ≡ true → x * same w v ≡ x
picked_term x w v e = rw e (omega arith)

passed_term : (x w v : ℕ) → (w == v) ≡ false → x * same w v ≡ 0
passed_term x w v e = rw e (omega arith)

same_not : (w v : ℕ) → (w ≡ v → ⊥) → same w v ≡ 0
same_not w v h = elim (Bool-cases (w == v)) [ inl e ↦ absurd (h ((==_iff w v).0 e)) | inr e ↦ rw e ]

-- A sum that picks one term out.
pub sum_picked : (f : ℕ → ℕ) (w m : ℕ) → sum (λ v. f v * same w v) m ≡ (if ltb w m then f w else 0)
sum_picked f w zero = ground arith
sum_picked f w (suc m) = elim (Bool-cases (w == m)) [
  | inl e ↦
      let before = sum_picked f w m in
      let value : f m ≡ f w = ap f (sym ((==_iff w m).0 e)) in
      let term : f m * same w m ≡ f m = picked_term (f m) w m e in ground arith
  | inr e ↦
      let before = sum_picked f w m in
      let term : f m * same w m ≡ 0 = passed_term (f m) w m e in ground arith
]

-- How many of the numbers below `n` are sent to `v`.
abbrev pub count_to : (f : ℕ → ℕ) (n v : ℕ) → ℕ
count_to f n v = sum (λ i. same (f i) v) n

-- The terms of a sum, gathered by where an index is sent.
pub sum_gathered :
    (f g : ℕ → ℕ) (m n : ℕ)
    → ((i : ℕ) → i < n → f i < m)
    → sum (λ i. g (f i)) n ≡ sum (λ v. g v * count_to f n v) m
sum_gathered f g m zero h =
    sym (sum_same (λ v. g v * 0) (λ v. 0) m (λ v l. omega arith) ∙ sum_zero m)
sum_gathered f g m (suc n) h =
    let rest = sum_gathered f g m n (λ i l. h i (omega arith)) in
    let last = sum_picked g (f n) m in
    let inside : f n < m = h n (omega arith) in
    let apart = sum-add (λ v. g v * count_to f n v) (λ v. g v * same (f n) v) m in
    let chosen : (if ltb (f n) m then g (f n) else 0) ≡ g (f n) = rw (lt→ltb _ _ inside) in
    let spread =
      sum_same (λ v. g v * count_to f (suc n) v) (λ v. g v * count_to f n v + g v * same (f n) v) m
        (λ v l. mul-add (g v) (count_to f n v) (same (f n) v)) in
    omega arith

-- Numbers that are at most 1 and come to the bound are all 1.
pub sum_full :
    (c : ℕ → ℕ) (m : ℕ) → ((v : ℕ) → v < m → c v ≤ 1) → sum c m ≡ m → (v : ℕ) → v < m → c v ≡ 1
sum_full c (suc m) h e v l =
    let most = sum_monotone c (λ i. 1) m (λ i k. h i (omega arith)) in
    let ones = sum_one m in
    let top = h m (omega arith) in
    elim (Bool-cases (ltb v m)) [
      | inl k ↦ sum_full c m (λ i j. h i (omega arith)) (omega arith) v (ground arith)
      | inr k ↦ let there = value_at c v m (ground arith) in omega arith
    ]
sum_full c zero h e v l = absurd (omega arith)

-- A map of the numbers below `n` to themselves that sends no two to one.
module _ (f : ℕ → ℕ) (n : ℕ) (inside : (i : ℕ) → i < n → f i < n)
    (apart : (i j : ℕ) → i < n → j < n → f i ≡ f j → i ≡ j) where
  count_at_most : (k v : ℕ) → k ≤ n → count_to f k v ≤ 1
  count_at_most zero v l = omega arith
  count_at_most (suc k) v l = elim (Bool-cases (f k == v)) [
    | inl e ↦
        let here : same (f k) v ≡ 1 = rw e in
        let nowhere =
          sum_same (λ i. same (f i) v) (λ i. 0) k
            (λ i m. same_not (f i) v (λ d. absurd (
              omega (
                arith,
                apart i k (omega arith) (omega arith) (d ∙ sym ((==_iff (f k) v).0 e)),
              )))) in
        omega (arith, sum_zero k)
    | inr e ↦ let here : same (f k) v ≡ 0 = rw e in omega (arith, count_at_most k v (omega arith))
  ]

  pub count_to_one : (v : ℕ) → v < n → count_to f n v ≡ 1
  count_to_one =
      sum_full (count_to f n) n (λ v l. count_at_most n v (omega arith))
        (sum_same (count_to f n) (λ v. 1 * count_to f n v) n (λ v l. omega arith)
          ∙ sym (sum_gathered f (λ v. 1) n n inside)
          ∙ sum_one n)

  pub sum_permuted : (g : ℕ → ℕ) → sum (λ i. g (f i)) n ≡ sum g n
  sum_permuted g =
      sum_gathered f g n n inside
      ∙ sum_same (λ v. g v * count_to f n v) g n
          (λ v l. ap (λ t. g v * t) (count_to_one v l) ∙ omega arith)
