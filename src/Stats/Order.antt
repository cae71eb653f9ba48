-- ===== src/Stats/Order.antt =====
-- What the statistics of `computeIterStats` in src/util.cu mean.
use nccl_tests.Prelude.{
  ℕ, zero, suc, ◌+◌, ◌-◌, ◌*◌, ◌/◌, ◌^◌, ◌<◌, ◌≤◌, ◌≡◌, refl, Bool, ◌&&◌, Option, none, some, List,
  [], ◌∷◌, length, get_or, ltb, leb, if◌then◌else◌, arith,
}
use nccl_tests.Stats.{IterStats, percentile_index, compute_iter_stats}

abbrev pub count : (ℕ → Bool) → List ℕ → ℕ
count p [] = 0
count p (x ∷ xs) = (if p x then 1 else 0) + count p xs

abbrev pub at_most : ℕ → ℕ → Bool
at_most v x = leb x v

abbrev pub IsSorted : List ℕ → Type 0
IsSorted [] = Unit
IsSorted (x ∷ xs) = ((i : ℕ) → i < length xs → x ≤ get_or xs i 0) × IsSorted xs

-- What C says of `qsort`: the same elements, in order.
pub record Sorts (qsort : List ℕ → List ℕ) : Type 0 where
  pub sorted : (l : List ℕ) → IsSorted (qsort l)
  pub same_length : (l : List ℕ) → length (qsort l) ≡ length l
  pub same_count : (l : List ℕ) (p : ℕ → Bool) → count p (qsort l) ≡ count p l

get_or_mono :
    (l : List ℕ) (i j : ℕ) → IsSorted l → i ≤ j → j < length l → get_or l i 0 ≤ get_or l j 0
get_or_mono [] i j s h b = absurd (omega arith)
get_or_mono (x ∷ xs) zero zero s h b = omega arith
get_or_mono (x ∷ xs) zero (suc j) s h b = s.0 j (omega arith)
get_or_mono (x ∷ xs) (suc i) zero s h b = absurd (omega arith)
get_or_mono (x ∷ xs) (suc i) (suc j) s h b = get_or_mono xs i j s.1 (omega arith) (omega arith)

-- In a sorted list, index `i` has `i + 1` elements that are not above it.
count-at_most :
    (l : List ℕ) (i : ℕ) → IsSorted l → i < length l → i < count (at_most (get_or l i 0)) l
count-at_most [] i s b = absurd (omega arith)
count-at_most (x ∷ xs) zero s b = ground arith
count-at_most (x ∷ xs) (suc i) s b =
    let c = count-at_most xs i s.1 (omega arith) in
    let h : x ≤ get_or xs i 0 = s.0 i (omega arith) in ground arith

-- The statistics stand in order, and each percentile has its share of the times at or below it.
pub record Ordered (times : List ℕ) (s : IterStats) : Type 0 where
  pub min_le_p50 : s.min_time ≤ s.p50
  pub p50_le_p95 : s.p50 ≤ s.p95
  pub p95_le_p99 : s.p95 ≤ s.p99
  pub p99_le_max : s.p99 ≤ s.max_time
  pub half : length times ≤ 2 * count (at_most s.p50) times
  pub share95 : 95 * length times ≤ 100 * count (at_most s.p95) times
  pub share99 : 99 * length times ≤ 100 * count (at_most s.p99) times
  pub all : length times ≤ count (at_most s.max_time) times

-- With at least one time and at most 21691753, so that 99 times their number and 99 more is less
-- than 2^31, and a qsort that keeps the elements and puts them in order, computeIterStats gives a
-- result; its minimum, percentiles and maximum stand in order, and at least the named share of the
-- times is at or below each percentile.
pub compute_iter_stats-Ordered :
    (qsort : List ℕ → List ℕ) (times : List ℕ)
    → Sorts qsort
    → 0 < length times
    → length times * 99 + 99 < 2 ^ 31
    → (s : IterStats) × (compute_iter_stats qsort times ≡ some s) × Ordered times s
unfolding compute_iter_stats
compute_iter_stats-Ordered qsort times q ne fits =
    let n : ℕ = length times in
    let l : List ℕ = qsort times in
    let e : length l ≡ n = q.same_length times in
    let s = q.sorted times in
    let share = λ (i : ℕ) (b : i < n). shared i (count-at_most l i s (omega arith)) in
    let mono = λ (i j : ℕ) (h : i ≤ j) (b : j < n). get_or_mono l i j s h (omega arith) in
    (
      _,
      taken refl,
      record {
        min_le_p50 = mono 0 (n / 2) (omega arith) (omega arith);
        p50_le_p95 = mono (n / 2) (percentile_index n 95) (omega arith) (omega arith);
        p95_le_p99 =
            mono (percentile_index n 95) (percentile_index n 99) (omega arith) (omega arith);
        p99_le_max = mono (percentile_index n 99) (n - 1) (omega arith) (omega arith);
        half = let c = share (n / 2) (omega arith) in omega arith;
        share95 = let c = share (percentile_index n 95) (omega arith) in omega arith;
        share99 = let c = share (percentile_index n 99) (omega arith) in omega arith;
        all = let c = share (n - 1) (omega arith) in omega arith;
      },
    )
  where
    taken :
        {s : IterStats} {r : Option IterStats}
        → r ≡ some s
        → (if ltb 0 (length times) && ltb (length times * 99 + 99) (2 ^ 31) then r else none)
          ≡ some s
    taken h = ground arith

    shared :
        (i : ℕ)
        → i < count (at_most (get_or (qsort times) i 0)) (qsort times)
        → i < count (at_most (get_or (qsort times) i 0)) times
    shared i c = rw (q.same_count times (at_most (get_or (qsort times) i 0))) at c
