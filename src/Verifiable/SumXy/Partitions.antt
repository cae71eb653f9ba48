-- ===== src/Verifiable/SumXy/Partitions.antt =====
-- The partitions of `genSumXY` in verifiable/verifiable.cu, and what the ranks of all of them submit.
use native.Mathlib.Nat.{
  mul-add, mul_comm, mul-le-mul, mul-le-mul_left, mod-eq_of_lt, add-mod_right, div-le_self,
  div-mul-le_self, le-div_iff_mul-le, mul-add-div, div-eq_of_lt, le_refl,
}
use nccl_tests.Prelude.{
  ℕ, zero, suc, ◌+◌, ◌-◌, ◌*◌, ◌/◌, ◌%◌, ◌^◌, ◌<◌, ◌≤◌, ◌≡◌, ◌∙◌, ◌⊎◌, inl, inr, sym, ap, arith,
  ◌==◌, ==_iff, ltb, leb, leb→le, if◌then◌else◌, Bool-cases,
}
use nccl_tests.Prelude.Sums.{sum, sum_same, sum_const, sum_parts, value_at, sum_zero}
use nccl_tests.Verifiable.SumXy.{Uint, modulus, partitions, partition_sum}

module _ (u : Uint) (rn y : ℕ) (positive : 0 < rn) (enough : rn ≤ y)
    (room : 2 * y < modulus u) where
  quotient_le : rn * (y / rn) ≤ y
  quotient_le = omega (arith, mul_comm rn (y / rn), div-mul-le_self y rn)

  quotient-positive : 1 ≤ y / rn
  quotient-positive = (le-div_iff_mul-le {k = rn} {x = 1} {y = y} positive).1 (omega arith)

  quotient_small : y / rn ≤ y
  quotient_small = div-le_self y rn

  aimed_lem : (2 * (y / rn) + modulus u - 1) % modulus u ≡ 2 * (y / rn) - 1
  aimed_lem =
      ap (λ t. t % modulus u) shifted
      ∙ add-mod_right (2 * (y / rn) - 1) (modulus u)
      ∙ mod-eq_of_lt (omega (arith, quotient_small))
    where
      shifted : 2 * (y / rn) + modulus u - 1 ≡ 2 * (y / rn) - 1 + modulus u
      shifted = omega (arith, quotient-positive)

  pub partitions_bounds : (1 ≤ partitions u rn y) × (partitions u rn y ≤ rn)
  unfolding partitions
  partitions_bounds = ground (arith, aimed_lem, quotient-positive)

  partitions_cases : (rn ≡ 1) ⊎ (partitions u rn y + 1 ≤ 2 * (y / rn))
  unfolding partitions
  partitions_cases = elim (Bool-cases (rn == 1)) [
    | inl e ↦ inl ((==_iff rn 1).0 e)
    | inr e ↦ inr (ground (arith, aimed_lem, quotient-positive))
  ]

  pub partitions_product : partitions u rn y * (partitions u rn y + 1) ≤ 2 * y
  partitions_product = elim partitions_cases [
    | inl e ↦
        let (low, high) = partitions_bounds in
        let product =
          mul-le-mul {n₁ = partitions u rn y} {m₁ = partitions u rn y + 1} {n₂ = 1} {m₂ = 2}
            (omega arith) (omega arith) in
        omega arith
    | inr few ↦
        let (low, high) = partitions_bounds in
        let product =
          mul-le-mul {n₁ = partitions u rn y} {m₁ = partitions u rn y + 1} {n₂ = rn}
            {m₂ = 2 * (y / rn)} high few in
        let doubled : rn * (2 * (y / rn)) ≡ 2 * (rn * (y / rn)) = grind arith in
        omega (arith, quotient_le)
  ]

pub exact : (a b m : ℕ) → a < m → b < m → a * b < m → a % m * (b % m) % m ≡ a * b
exact a b m p q r = rw (mod-eq_of_lt p, mod-eq_of_lt q) (mod-eq_of_lt r)

pub exact_right : (a b m : ℕ) → b < m → a * b < m → a * (b % m) % m ≡ a * b
exact_right a b m q r = rw (mod-eq_of_lt q) (mod-eq_of_lt r)

-- The sum of a rank of each partition, as a number.
abbrev pub triangle : ℕ → ℕ
triangle pn = (pn * pn + pn) / 2

module _ (y_max pn y : ℕ) (low : 1 ≤ pn) (product : pn * (pn + 1) ≤ 2 * y) (l : y ≤ y_max)
    (room : 2 * y_max < 2 ^ 64) where
  product_square : pn * (pn + 1) ≡ pn * pn + pn
  product_square = grind arith

  pub triangle-le : triangle pn ≤ y
  triangle-le = omega (arith, product_square)

  pub triangle-positive : pn ≤ triangle pn
  triangle-positive = omega (arith, mul-le-mul_left pn low)

  pub partition_sum_lem : partition_sum y_max pn ≡ triangle pn
  unfolding partition_sum
  partition_sum_lem = elim (Bool-cases (leb y_max (2 ^ 31 - 1))) [
    | inl small ↦ rw small (
        let bound = leb→le y_max (2 ^ 31 - 1) small in
        omega (
          arith,
          product_square,
          triangle-positive,
          triangle-le,
          exact pn (pn + 1) (2 ^ 32) (omega (arith, triangle-positive, triangle-le))
              (omega (arith, triangle-positive, triangle-le)) (omega (arith, product_square)),
        ))
    | inr large ↦ rw large (
        omega (
          arith,
          product_square,
          exact_right pn (pn + 1) (2 ^ 64) (omega (arith, triangle-positive, triangle-le))
              (omega arith),
        ))
  ]

-- The ranks of `pn` partitions of `s` ranks each, each with 1 more than its partition's index.
pub partition_at : (s p j : ℕ) → 0 < s → j < s → (s * p + j) / s ≡ p
partition_at s p j h l = omega (arith, mul-add-div h p j, div-eq_of_lt l)

abbrev pub index_plus_one : (s pn r : ℕ) → ℕ
index_plus_one s pn r = if ltb (r / s) pn then 1 + r / s else 0

one_partition :
    (s pn p j : ℕ) → 0 < s → j < s → suc p ≤ pn → index_plus_one s pn (s * p + j) ≡ suc p
one_partition s pn p j h m l = let place = partition_at s p j h m in ground arith

beyond_partitions : (s pn j : ℕ) → 0 < s → index_plus_one s pn (s * pn + j) ≡ 0
beyond_partitions s pn j h = let place = mul-add-div h pn j in ground arith

triangle-suc : (p : ℕ) → triangle (suc p) ≡ triangle p + suc p
triangle-suc p =
    let square : suc p * suc p + suc p ≡ p * p + p + 2 * suc p = grind arith in omega arith

sum_partitions : (s pn p : ℕ) → 0 < s → p ≤ pn → sum (index_plus_one s pn) (s * p) ≡ s * triangle p
sum_partitions s pn zero h l =
    let nothing : s * 0 ≡ 0 = omega arith in ap (sum (index_plus_one s pn)) nothing ∙ sym nothing
sum_partitions s pn (suc p) h l =
    let before = sum_partitions s pn p h (omega arith) in
    let ranks : s * suc p ≡ s * p + s = grind arith in
    let index : (j : ℕ) → j < s → index_plus_one s pn (s * p + j) ≡ suc p =
      λ j m. one_partition s pn p j h m l in
    let here =
      sum_same (λ j. index_plus_one s pn (s * p + j)) (λ j. suc p) s index ∙ sum_const (suc p) s in
    let grown : s * triangle (suc p) ≡ s * triangle p + s * suc p =
      ap (λ t. s * t) (triangle-suc p) ∙ mul-add s (triangle p) (suc p) in
    omega (
      arith,
      value_at (sum (index_plus_one s pn)) (s * suc p) (s * p + s) ranks,
      sum_parts (index_plus_one s pn) (s * p) s,
    )

-- No later rank submits.
pub sum_partitions_all :
    (s pn rn : ℕ) → 0 < s → s * pn ≤ rn → sum (index_plus_one s pn) rn ≡ s * triangle pn
sum_partitions_all s pn rn h l =
    let rest = rn - s * pn in
    let whole : rn ≡ s * pn + rest = omega arith in
    let none_left : (j : ℕ) → j < rest → index_plus_one s pn (s * pn + j) ≡ 0 =
      λ j m. beyond_partitions s pn j h in
    omega (
      arith,
      value_at (sum (index_plus_one s pn)) rn (s * pn + rest) whole,
      sum_parts (index_plus_one s pn) (s * pn) rest,
      sum_same (λ j. index_plus_one s pn (s * pn + j)) (λ j. 0) rest none_left,
      sum_zero rest,
      sum_partitions s pn pn h (le_refl pn),
    )
