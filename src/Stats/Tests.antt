-- ===== src/Stats/Tests.antt =====
-- The statistics of src/util.cu on three times, with an insertion sort for `qsort`.
use nccl_tests.Prelude.{
  ℕ, zero, suc, ◌+◌, ◌<◌, ◌≤◌, ◌≡◌, refl, Bool, some, List, [], ◌∷◌, length, get_or, leb,
  Bool-cases, inl, inr, ◌∙◌, ap, if◌then◌else◌, arith,
}
use nccl_tests.Stats.{IterStats, compute_iter_stats}
use nccl_tests.Stats.Order.{Sorts, Ordered, IsSorted, count, compute_iter_stats-Ordered}

insert : ℕ → List ℕ → List ℕ
insert x [] = x ∷ []
insert x (y ∷ ys) = let rest = insert x ys in if leb x y then x ∷ y ∷ ys else y ∷ rest

sort : List ℕ → List ℕ
unfolding insert
sort [] = []
sort (x ∷ xs) = insert x (sort xs)

insert-length : (x : ℕ) (l : List ℕ) → length (insert x l) ≡ suc (length l)
unfolding insert
insert-length x [] = refl
insert-length x (y ∷ ys) = ground (arith, insert-length x ys)

insert-count : (p : ℕ → Bool) (x : ℕ) (l : List ℕ) → count p (insert x l) ≡ count p (x ∷ l)
unfolding insert
insert-count p x [] = refl
insert-count p x (y ∷ ys) = ground (arith, insert-count p x ys)

insert-bound :
    (z x : ℕ) (l : List ℕ)
    → z ≤ x
    → ((i : ℕ) → i < length l → z ≤ get_or l i 0)
    → (i : ℕ) → i < suc (length l)
    → z ≤ get_or (insert x l) i 0
unfolding insert
insert-bound z x [] h a zero b = h
insert-bound z x [] h a (suc i) b = absurd (omega arith)
insert-bound z x (y ∷ ys) h a i b = elim (Bool-cases (leb x y)) [
  | inl e ↦ rw e (front i b)
  | inr e ↦ rw e (behind (insert-bound z x ys h (λ j c. a (suc j) (omega arith))) i b)
]
  where
    front : (i : ℕ) → i < suc (suc (length ys)) → z ≤ get_or (x ∷ y ∷ ys) i 0
    front zero b = h
    front (suc i) b = a i (omega arith)

    behind :
        ((i : ℕ) → i < suc (length ys) → z ≤ get_or (insert x ys) i 0)
        → (i : ℕ) → i < suc (suc (length ys))
        → z ≤ get_or (y ∷ insert x ys) i 0
    behind rec zero b = a 0 (omega arith)
    behind rec (suc i) b = rec i (omega arith)

insert-IsSorted : (x : ℕ) (l : List ℕ) → IsSorted l → IsSorted (insert x l)
unfolding insert
insert-IsSorted x [] s = (λ i b. absurd (omega arith), tt)
insert-IsSorted x (y ∷ ys) s = elim (Bool-cases (leb x y)) [
  | inl e ↦ rw e (below (ground arith), s)
  | inr e ↦ rw e (
    λ i b. insert-bound y x ys (ground arith) s.0 i (omega (arith, insert-length x ys)),
    insert-IsSorted x ys s.1,
  )
]
  where
    below : x ≤ y → (i : ℕ) → i < suc (length ys) → x ≤ get_or (y ∷ ys) i 0
    below h zero b = h
    below h (suc i) b = let c = s.0 i (omega arith) in omega arith

sort-IsSorted : (l : List ℕ) → IsSorted (sort l)
unfolding sort
sort-IsSorted [] = tt
sort-IsSorted (x ∷ xs) = insert-IsSorted x (sort xs) (sort-IsSorted xs)

length-sort : (l : List ℕ) → length (sort l) ≡ length l
unfolding sort
length-sort [] = refl
length-sort (x ∷ xs) = insert-length x (sort xs) ∙ ap suc (length-sort xs)

count-sort : (l : List ℕ) (p : ℕ → Bool) → count p (sort l) ≡ count p l
unfolding sort
count-sort [] p = refl
count-sort (x ∷ xs) p =
    insert-count p x (sort xs) ∙ ap (λ n. (if p x then 1 else 0) + n) (count-sort xs p)

sort-Sorts : Sorts sort
sort-Sorts = record { sorted = sort-IsSorted; same_length = length-sort; same_count = count-sort }

abbrev times : List ℕ
times = 30 ∷ 10 ∷ 20 ∷ []

compute_iter_stats-Ordered_example :
    (s : IterStats) × (compute_iter_stats sort times ≡ some s) × Ordered times s
compute_iter_stats-Ordered_example =
    compute_iter_stats-Ordered sort times sort-Sorts (omega arith) (omega arith)
