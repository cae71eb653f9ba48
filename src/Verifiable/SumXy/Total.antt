-- ===== src/Verifiable/SumXy/Total.antt =====
-- What the ranks submit in `genSumXY` of verifiable/verifiable.cu adds up to `y`.
use native.Mathlib.Nat.{
  div-mul-le_self, le-div_iff_mul-le, mul-le-mul_right, mod-eq_of_lt, add-mod_right, div-le_self,
}
use nccl_tests.Prelude.{
  ℕ, zero, suc, ◌+◌, ◌-◌, ◌*◌, ◌/◌, ◌%◌, ◌^◌, ◌<◌, ◌≤◌, ◌≡◌, ◌∙◌, ◌⊎◌, inl, inr, refl, ap, arith,
  some, ◌==◌, ltb, if◌then◌else◌, Bool-cases,
}
use nccl_tests.Prelude.Sums.{sum, sum-add, sum_zero, sum_same}
use nccl_tests.Verifiable.SumXy.{
  Uint, uint32, uint64, modulus, partitions, partition_sum, ranks_per_partition, submitted,
  submit_with, contribution,
}
use nccl_tests.Verifiable.SumXy.Partitions.{
  partitions_bounds, partitions_product, triangle, triangle-le, triangle-positive,
  partition_sum_lem, index_plus_one, sum_partitions_all,
}

-- What a rank submits beside its partition's index.
abbrev missing : (rn y shared r : ℕ) → ℕ
missing rn y shared r = if r == rn - 1 then y - shared else 0

earlier : (n y shared r : ℕ) → r < n → missing (suc n) y shared r ≡ 0
earlier n y shared r l = ground arith

last_one : (n y shared : ℕ) → missing (suc n) y shared n ≡ y - shared
last_one n y shared = ground arith

sum-missing : (rn y shared : ℕ) → 0 < rn → sum (missing rn y shared) rn ≡ y - shared
sum-missing (suc n) y shared h = omega (
  arith,
  sum_same (missing (suc n) y shared) (λ r. 0) n (λ r l. earlier n y shared r l),
  sum_zero n,
  last_one n y shared,
)
sum-missing zero y shared h = absurd (omega arith)

abbrev share : (rn y s pn r : ℕ) → ℕ
share rn y s pn r = index_plus_one s pn r + missing rn y (s * triangle pn) r

sum-share :
    (rn y s pn : ℕ)
    → 0 < rn
    → 0 < s
    → s * pn ≤ rn
    → s * triangle pn ≤ y
    → sum (share rn y s pn) rn ≡ y
sum-share rn y s pn h i l m = omega (
  arith,
  sum-add (index_plus_one s pn) (missing rn y (s * triangle pn)) rn,
  sum_partitions_all s pn rn i l,
  sum-missing rn y (s * triangle pn) h,
)

smaller :
    (a b : ℕ) → (s : ℕ) × ((if ltb a b then a else b) ≡ s) × (s ≤ a) × (s ≤ b) × ((s ≡ a) ⊎ (s ≡ b))
smaller a b = elim (Bool-cases (ltb a b)) [
  | inl l ↦ (a, rw l, omega arith, ground arith, inl refl)
  | inr l ↦ (b, rw l, ground arith, omega arith, inr refl)
]

-- The number of ranks in a partition: at least one, and no partition is too many.
ranks_per_partition_lem :
    (rn y pn p : ℕ)
    → 0 < pn
    → pn ≤ rn
    → 0 < p
    → p ≤ y
    → rn < 2 ^ 31
    → (s : ℕ) × (ranks_per_partition rn y pn p ≡ some s) × (0 < s) × (s * pn ≤ rn) × (s * p ≤ y)
unfolding ranks_per_partition
ranks_per_partition_lem rn y pn zero a b c d fits = absurd (omega arith)
ranks_per_partition_lem rn y pn (suc p) a b c d fits =
    let first = y / suc p in
    let second = rn / pn in
    let first_positive = (le-div_iff_mul-le {k = suc p} {x = 1} {y = y} c).1 (omega arith) in
    let second_positive = (le-div_iff_mul-le {k = pn} {x = 1} {y = rn} a).1 (omega arith) in
    let (s, e, l, m, o) = smaller first second in
    (
      s,
      rw e (ap some (mod-eq_of_lt {n = s} {m = 2 ^ 32} (omega (arith, div-le_self rn pn)))),
      omega arith,
      omega (arith, mul-le-mul_right pn m, div-mul-le_self rn pn),
      omega (arith, mul-le-mul_right (suc p) l, div-mul-le_self y (suc p)),
    )

pub modulus-le : (u : Uint) → modulus u ≤ 2 ^ 64
modulus-le uint32 = omega arith
modulus-le uint64 = omega arith

missing-le : (rn y shared r : ℕ) → missing rn y shared r ≤ y - shared
missing-le rn y shared r = ground arith

pub wrapped_back : (y x m : ℕ) → x ≤ y → y < m → (y + m - x) % m ≡ y - x
wrapped_back y x m l h =
    ap (λ t. t % m) (shifted y x m l) ∙ add-mod_right (y - x) m ∙ mod-eq_of_lt (omega arith)
  where
    shifted : (y x m : ℕ) → x ≤ y → y + m - x ≡ y - x + m
    shifted y x m l = omega arith

wrapped_sub : (y x m : ℕ) → x ≤ y → y < m → (y + m - x % m) % m ≡ y - x
wrapped_sub y x m l h = rw (mod-eq_of_lt {n = x} {m = m} (omega arith)) (wrapped_back y x m l h)

pub modulus-ge : (u : Uint) → 2 ^ 32 ≤ modulus u
modulus-ge uint32 = omega arith
modulus-ge uint64 = omega arith

index_plus_one-le : (s pn r : ℕ) → index_plus_one s pn r ≤ pn
index_plus_one-le s pn r = ground arith

submitted_lem :
    (u : Uint) (rn r y pn s : ℕ)
    → 0 < s
    → pn ≤ triangle pn
    → s * triangle pn ≤ y
    → 2 * y < modulus u
    → submitted u rn r y pn (triangle pn) s ≡ some (share rn y s pn r)
unfolding submitted
submitted_lem u rn r y pn zero h i l room = absurd (omega arith)
submitted_lem u rn r y pn (suc s) h i l room =
    let i1 = index_plus_one-le (suc s) pn r in
    let many = mul-le-mul_right (triangle pn) h in
    let rest = missing-le rn y (suc s * triangle pn) r in
    let wrapped = wrapped_sub y (suc s * triangle pn) (modulus u) l (omega arith) in
    rw wrapped (ap some (mod-eq_of_lt {n = share rn y (suc s) pn r} {m = modulus u} (omega arith)))

pub contribution_parts :
    (u : Uint) (y_max rn r y p s : ℕ)
    → partition_sum y_max (partitions u rn y) ≡ p
    → ranks_per_partition rn y (partitions u rn y) p ≡ some s
    → contribution u y_max rn r y ≡ submitted u rn r y (partitions u rn y) p s
unfolding contribution submit_with
contribution_parts u y_max rn r y p s e several =
    let pn = partitions u rn y in
    ap (λ t. submit_with u rn r y pn t (ranks_per_partition rn y pn t)) e
    ∙ ap (submit_with u rn r y pn p) several

-- For an unsigned type of 32 or 64 bits with room for twice y_max, at least one rank, and a sum y
-- of at least the number of ranks and at most y_max: every rank's contribution in genSumXY is
-- defined, and the contributions add up to y.
pub contribution-total :
    (u : Uint) (y_max rn y : ℕ)
    → 0 < rn
    → rn < 2 ^ 31
    → rn ≤ y
    → y ≤ y_max
    → 2 * y_max < modulus u
    → (x : ℕ → ℕ) × ((r : ℕ) → contribution u y_max rn r y ≡ some (x r)) × (sum x rn ≡ y)
contribution-total u y_max rn y positive fits enough l room =
    let pn = partitions u rn y in
    let (low, high) = partitions_bounds u rn y positive enough (omega arith) in
    let product = partitions_product u rn y positive enough (omega arith) in
    let narrow = modulus-le u in
    let sum_is = partition_sum_lem y_max pn y low product l (omega arith) in
    let at_least = triangle-positive y_max pn y low product l (omega arith) in
    let at_most = triangle-le y_max pn y low product l (omega arith) in
    let (s, several, one, inside, within) =
      ranks_per_partition_lem rn y pn (triangle pn) low high (omega arith) at_most fits in
    (
      share rn y s pn,
      λ r.
          contribution_parts u y_max rn r y (triangle pn) s sum_is several
          ∙ submitted_lem u rn r y pn s one at_least within (omega arith),
      sum-share rn y s pn positive one inside within,
    )
