-- ===== src/Verifiable/SumXy/Chosen.antt =====
-- The sum that `genSumXY` of verifiable/verifiable.cu aims at, and the sums that it cannot reach.
use native.Mathlib.Nat.{
  mod-eq_of_lt, div-lt_iff_lt-mul, mul-le-mul_right, div-eq_of_lt, div_self, mul-le-mul,
  mul-le-mul_left, add-mul, mul_comm,
}
use nccl_tests.Prelude.{
  ℕ, zero, suc, ◌+◌, ◌-◌, ◌*◌, ◌/◌, ◌%◌, ◌^◌, ◌<◌, ◌≤◌, ◌≡◌, ◌∙◌, ◌↔◌, inl, inr, refl, ap, arith,
  true, false, ◌||◌, none, some, ltb, leb, if◌then◌else◌, Bool-cases,
}
use nccl_tests.Verifiable.Words.{u32}
use nccl_tests.Verifiable.SumXy.{
  Uint, uint32, uint64, modulus, bounded, choose_y, partitions, partition_sum, ranks_per_partition,
  submitted, contribution,
}
use nccl_tests.Verifiable.SumXy.Total.{wrapped_back, modulus-ge, contribution_parts}
use nccl_tests.Verifiable.SumXy.Partitions.{triangle, exact, exact_right}

pub high_half : (m x b : ℕ) → x < m → 0 < b → x * b / m < b
high_half m x b l p =
    (div-lt_iff_lt-mul {k = m} {x = x * b} {y = b} (omega arith)).1
      (omega (arith, mul-le-mul_right b l, add-mul x 1 b, mul_comm b m))

bounded-lt : (u : Uint) (rng bound : ℕ) → rng < 2 ^ 64 → 0 < bound → bounded u rng bound < bound
bounded-lt uint32 rng bound l p = high_half (2 ^ 32) (u32 rng) bound (omega arith) p
bounded-lt uint64 rng bound l p = high_half (2 ^ 64) rng bound l p

add_nothing : (n : ℕ) → n + 0 ≡ n
add_nothing n = omega arith

plain_value :
    (u : Uint) (rng y_max y : ℕ)
    → rng < 2 ^ 64
    → 2 * y_max < modulus u
    → choose_y u rng y_max y false ≡ (y_max + 1) / 2 + bounded u rng (y_max / 2 + 1)
unfolding choose_y
plain_value u rng y_max y l room =
    let d = bounded u rng (y_max / 2 + 1) in
    let below = bounded-lt u rng (y_max / 2 + 1) l (omega arith) in
    let large = modulus-ge u in
    rw
      (
        mod-eq_of_lt {n = y_max + 1} {m = modulus u} (omega arith),
        mod-eq_of_lt {n = (y_max + 1) / 2 + d} {m = modulus u} (omega arith),
      )
      (wrapped_back ((y_max + 1) / 2 + d) 0 (modulus u) (omega arith) (omega arith) ∙ omega arith)

brought_back :
    (v y_min y_max h m : ℕ)
    → y_min ≤ v
    → h ≤ v
    → v < m
    → (v + m - (if ltb v y_min || ltb y_max v then h else 0)) % m
      ≡ (if ltb y_max v then v - h else v)
brought_back v y_min y_max h m low back small =
    let not_low : ltb v y_min ≡ false = ground arith in
    elim (Bool-cases (ltb y_max v)) [
      | inl past ↦ rw (not_low, past) (wrapped_back v h m back small)
      | inr inside ↦ rw (not_low, inside) (wrapped_back v 0 m (omega arith) small ∙ omega arith)
    ]

avoiding_value :
    (u : Uint) (rng y_max y d : ℕ)
    → bounded u rng (y_max / 2) ≡ d
    → d < y_max / 2
    → 2 * y_max < modulus u
    → (y_max + 1) / 2 ≤ y
    → y ≤ y_max
    → choose_y u rng y_max y true
      ≡ (if ltb y_max (y + 1 + d) then y + 1 + d - y_max / 2 else y + 1 + d)
unfolding choose_y
avoiding_value u rng y_max y d e below room low high =
    let large = modulus-ge u in
    let same_d : bounded u rng (y_max / 2 + 0) ≡ d =
      ap (bounded u rng) (add_nothing (y_max / 2)) ∙ e in
    rw
      (
        mod-eq_of_lt {n = y_max + 1} {m = modulus u} (omega arith),
        same_d,
        mod-eq_of_lt {n = y + 1 + d} {m = modulus u} (omega arith),
      )
      (brought_back (y + 1 + d) ((y_max + 1) / 2) y_max (y_max / 2) (modulus u) (omega arith)
        (omega arith) (omega arith))

-- With no value to avoid, the sum is at least half of `y_max`, rounded up, and at most `y_max`.
pub choose_y-range :
    (u : Uint) (rng y_max y : ℕ)
    → rng < 2 ^ 64
    → 2 * y_max < modulus u
    → ((y_max + 1) / 2 ≤ choose_y u rng y_max y false) × (choose_y u rng y_max y false ≤ y_max)
choose_y-range u rng y_max y l room =
    let below = bounded-lt u rng (y_max / 2 + 1) l (omega arith) in
    let value = plain_value u rng y_max y l room in (omega arith, omega arith)

-- With a y to avoid that is at least half of y_max, rounded up, and at most y_max, and with y_max
-- at least 2: genSumXY chooses a sum in that range, and it is the y to avoid exactly when the
-- random number is the largest and y is not the least of the range.
pub choose_y-avoids :
    (u : Uint) (rng y_max y : ℕ)
    → rng < 2 ^ 64
    → 2 * y_max < modulus u
    → 2 ≤ y_max
    → (y_max + 1) / 2 ≤ y
    → y ≤ y_max
    → ((y_max + 1) / 2 ≤ choose_y u rng y_max y true)
      × (choose_y u rng y_max y true ≤ y_max)
      × ((choose_y u rng y_max y true ≡ y)
          ↔ ((bounded u rng (y_max / 2) + 1 ≡ y_max / 2) × ((y_max + 1) / 2 < y)))
choose_y-avoids u rng y_max y l room two low high =
    let below = bounded-lt u rng (y_max / 2) l (omega arith) in
    let value = avoiding_value u rng y_max y (bounded u rng (y_max / 2)) refl below room low high in
    (ground arith, ground arith, (λ h. (ground arith, ground arith), λ h. ground arith))

nothing_added : (m : ℕ) → 0 + m ≡ m
nothing_added m = omega arith

-- With fewer to submit than there are ranks, the number of partitions wraps round and is cut to the
-- number of ranks.
partitions_wrapped : (u : Uint) (rn y : ℕ) → 2 ≤ rn → rn < 2 ^ 16 → y < rn → partitions u rn y ≡ rn
unfolding partitions
partitions_wrapped u rn y two few short =
    let none_each = div-eq_of_lt short in
    let large = modulus-ge u in
    let aimed : (2 * (y / rn) + modulus u - 1) % modulus u ≡ modulus u - 1 = rw none_each (
      ap (λ t. (t - 1) % modulus u) (nothing_added (modulus u))
      ∙ mod-eq_of_lt {n = modulus u - 1} {m = modulus u} (omega arith)) in
    ground arith

full_triangle : (y_max rn : ℕ) → 2 ≤ rn → rn < 2 ^ 16 → partition_sum y_max rn ≡ triangle rn
unfolding partition_sum
full_triangle y_max rn two few =
    let product =
      mul-le-mul {n₁ = rn} {m₁ = rn + 1} {n₂ = 2 ^ 16 - 1} {m₂ = 2 ^ 16} (omega arith)
        (omega arith) in
    let square : rn * (rn + 1) ≡ rn * rn + rn = grind arith in
    elim (Bool-cases (leb y_max (2 ^ 31 - 1))) [
      | inl narrow ↦
          rw narrow
            (omega (arith, exact rn (rn + 1) (2 ^ 32) (omega arith) (omega arith) (omega arith)))
      | inr wide ↦
          rw wide (omega (arith, exact_right rn (rn + 1) (2 ^ 64) (omega arith) (omega arith)))
    ]

no_ranks : (rn y p : ℕ) → 0 < rn → y < p → ranks_per_partition rn y rn p ≡ some 0
unfolding ranks_per_partition
no_ranks rn y zero h l = absurd (omega arith)
no_ranks rn y (suc p) h l = rw (div-eq_of_lt l, div_self h) refl

-- With two ranks or more, fewer than 2^16, and a sum below the number of ranks, genSumXY divides
-- by zero on every rank, since the number of partitions wraps round.
pub contribution-fails :
    (u : Uint) (y_max rn r y : ℕ)
    → 2 ≤ rn
    → rn < 2 ^ 16
    → y < rn
    → contribution u y_max rn r y ≡ none
unfolding submitted
contribution-fails u y_max rn r y two few short =
    let all = partitions_wrapped u rn y two few short in
    let one : 1 ≤ rn = omega arith in
    let more : rn ≤ triangle rn = let square = mul-le-mul_left rn one in omega arith in
    contribution_parts u y_max rn r y (triangle rn) 0
      (ap (partition_sum y_max) all ∙ full_triangle y_max rn two few)
      (ap (λ t. ranks_per_partition rn y t (triangle rn)) all
        ∙ no_ranks rn y (triangle rn) (omega arith) (omega arith))
