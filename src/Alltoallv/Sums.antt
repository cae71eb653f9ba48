-- ===== src/Alltoallv/Sums.antt =====
-- Sums over the ranks in src/alltoallv.cu, without the cut to 64 bits, and how they stand to those with it.
use nccl_tests.Prelude.{
  ℕ, zero, suc, ◌%◌, ◌^◌, ◌<◌, ◌≤◌, ◌≡◌, refl, sym, ap, ◌∙◌, ltb, Bool-cases, inl, inr, arith,
}
pub use nccl_tests.Prelude.Sums.{
  sum, sum_same, value_at, sum_parts, sum_first, sum_reversed, sum_monotone, sum_part, sum_times,
}
use nccl_tests.Alltoallv.{sum_below, max_below}

pub sum_below-sum : (f : ℕ → ℕ) (n : ℕ) → sum_below f n ≡ sum f n % 2 ^ 64
sum_below-sum f zero = refl
sum_below-sum f (suc n) = omega (arith, sum_below-sum f n)

pub sum_below_same : (f g : ℕ → ℕ) (n : ℕ) → sum f n ≡ sum g n → sum_below f n ≡ sum_below g n
sum_below_same f g n h = sum_below-sum f n ∙ ap (λ x. x % 2 ^ 64) h ∙ sym (sum_below-sum g n)

pub max_below_same :
    (f : ℕ → ℕ) (m n : ℕ) → ((i : ℕ) → i < suc n → f i ≡ m) → max_below f (suc n) ≡ m
max_below_same f m zero h = omega (arith, h 0 (omega arith))
max_below_same f m (suc n) h =
    omega (arith, max_below_same f m n (λ i l. h i (omega arith)), h (suc n) (omega arith))

pub max_below-bound : (f : ℕ → ℕ) (n i : ℕ) → i < n → f i ≤ max_below f n
max_below-bound f zero i h = omega arith
max_below-bound f (suc n) i h = elim (Bool-cases (ltb i n)) [
  | inl l ↦ let r = max_below-bound f n i (ground arith) in omega arith
  | inr l ↦ let e = value_at f i n (ground arith) in omega arith
]
