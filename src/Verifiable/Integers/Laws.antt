-- ===== src/Verifiable/Integers/Laws.antt =====
-- The laws of the reduction functions on integers in verifiable/verifiable.cu: the order and the grouping of what is
-- reduced do not matter.
use native.Mathlib.Nat.{
  mod-lt, one-le-pow, mod-add-mod, add-mod-mod, add_assoc, mul_assoc, mul_comm, add_comm,
  div-add-mod, mul-add-mod_self_left, add-mul,
}
use nccl_tests.Prelude.{
  ℕ, ◌+◌, ◌*◌, ◌/◌, ◌%◌, ◌<◌, ◌≡◌, ◌∙◌, sym, ap, arith, Bool, true, false, ltb, if◌then◌else◌,
}
use nccl_tests.Verifiable.Integers.{
  Integer, int8, uint8, int32, uint32, int64, uint64, width, size, place, Reduction, copy, sum,
  product, least, most, premul_sum, average, reduce,
}

-- A reduction of the numbers below a bound that is closed and free of order and grouping.
pub record Commutative (bound : ℕ) (f : ℕ → ℕ → ℕ) : Type 0 where
  pub closed : (a b : ℕ) → a < bound → b < bound → f a b < bound
  pub commutes : (a b : ℕ) → a < bound → b < bound → f a b ≡ f b a
  pub regroups : (a b c : ℕ) → a < bound → b < bound → c < bound → f (f a b) c ≡ f a (f b c)

size-positive : (t : Integer) → 0 < size t
size-positive t = one-le-pow (width t) 2 (omega arith)

add_regroups : (a b c m : ℕ) → ((a + b) % m + c) % m ≡ (a + (b + c) % m) % m
add_regroups a b c m =
    mod-add-mod (a + b) m c ∙ ap (λ z. z % m) (add_assoc a b c) ∙ sym (add-mod-mod a (b + c) m)

-- A remainder may be taken of a factor first.
mul-mod_first : (a c m : ℕ) → a % m * c % m ≡ a * c % m
mul-mod_first a c m =
    let q = a / m in
    let whole : a * c ≡ m * (q * c) + a % m * c =
      ap (λ z. z * c) (sym (div-add-mod a m))
      ∙ add-mul (m * q) (a % m) c
      ∙ ap (λ z. z + a % m * c) (mul_assoc m q c) in
    sym (ap (λ z. z % m) whole ∙ mul-add-mod_self_left m (q * c) (a % m * c))

mul_regroups : (a b c m : ℕ) → a * b % m * c % m ≡ a * (b * c % m) % m
mul_regroups a b c m =
    mul-mod_first (a * b) c m
    ∙ ap (λ z. z % m) (mul_assoc a b c ∙ mul_comm a (b * c))
    ∙ sym (mul-mod_first (b * c) a m)
    ∙ ap (λ z. z % m) (mul_comm (b * c % m) a)

-- Patterns in one place are one pattern.
place_injective : (t : Integer) (a b : ℕ) → a < size t → b < size t → place t a ≡ place t b → a ≡ b
place_injective int8 a b l m e = omega arith
place_injective uint8 a b l m e = omega arith
place_injective int32 a b l m e = omega arith
place_injective uint32 a b l m e = omega arith
place_injective int64 a b l m e = omega arith
place_injective uint64 a b l m e = omega arith

sum-Commutative : (m : ℕ) → 0 < m → Commutative m (λ a b. (a + b) % m)
sum-Commutative m h = record {
  closed = λ a b l k. mod-lt (a + b) h;
  commutes = λ a b l k. ap (λ z. z % m) (add_comm a b);
  regroups = λ a b c l k j. add_regroups a b c m;
}

product-Commutative : (m : ℕ) → 0 < m → Commutative m (λ a b. a * b % m)
product-Commutative m h = record {
  closed = λ a b l k. mod-lt (a * b) h;
  commutes = λ a b l k. ap (λ z. z % m) (mul_comm a b);
  regroups = λ a b c l k j. mul_regroups a b c m;
}

-- The choice by a place, whichever way it goes.
module _ (m : ℕ) (key : ℕ → ℕ) (apart : (a b : ℕ) → a < m → b < m → key a ≡ key b → a ≡ b) where
  least-Commutative : Commutative m (λ a b. if ltb (key a) (key b) then a else b)
  least-Commutative = record {
    closed = λ a b l k. ground arith;
    commutes = λ a b l k. ground (arith, apart a b l k);
    regroups = λ a b c l k j. ground arith;
  }

  most-Commutative : Commutative m (λ a b. if ltb (key b) (key a) then a else b)
  most-Commutative = record {
    closed = λ a b l k. ground arith;
    commutes = λ a b l k. ground (arith, apart a b l k);
    regroups = λ a b c l k j. ground arith;
  }

abbrev pub is_copy : Reduction → Bool
is_copy copy = true
is_copy op = false

pub reduce-Commutative :
    (t : Integer) (op : Reduction) → is_copy op ≡ false → Commutative (size t) (reduce t op)
reduce-Commutative t copy h = cc
reduce-Commutative t sum h = sum-Commutative (size t) (size-positive t)
reduce-Commutative t product h = product-Commutative (size t) (size-positive t)
reduce-Commutative t least h = least-Commutative (size t) (place t) (place_injective t)
reduce-Commutative t most h = most-Commutative (size t) (place t) (place_injective t)
reduce-Commutative t premul_sum h = sum-Commutative (size t) (size-positive t)
reduce-Commutative t average h = sum-Commutative (size t) (size-positive t)
