-- ===== src/Verifiable/Words/Bits.antt =====
-- Masks, disjoint fields and lengths of words as arithmetic, for the words of verifiable/verifiable.cu.
use Prim.Native.Nat.{
  bit_and, bit_or, digits, bit_and-bitwise, bit_or-bitwise, max as digit_max, min as digit_min,
}
use native.Mathlib.Nat.{
  pow-suc, one-le-pow, div-add-mod, mod-lt, mul-add-mod_self_left, mod-eq_of_lt,
}
use nccl_tests.Prelude.{
  ℕ, zero, suc, ◌+◌, ◌-◌, ◌*◌, ◌/◌, ◌%◌, ◌^◌, ◌<◌, ◌≤◌, ◌≡◌, ◌∙◌, refl, sym, ap, ◌==◌, ==_iff, true,
  Bool-cases, inl, inr, arith,
}
use nccl_tests.Verifiable.Words.{bit_length, mix_bits, hash_of, clz32, clz64}

mod_double : (x m : ℕ) → 0 < m → x % (m * 2) ≡ x / 2 % m * 2 + x % 2
mod_double x m h =
    let q = x / 2 / m in
    let r = x / 2 % m in
    let whole : x ≡ m * 2 * q + (r * 2 + x % 2) = grind (arith, div-add-mod (x / 2) m) in
    let small : r * 2 + x % 2 < m * 2 = omega (arith, mod-lt (x / 2) h) in
    ap (λ y. y % (m * 2)) whole
    ∙ mul-add-mod_self_left (m * 2) q (r * 2 + x % 2)
    ∙ mod-eq_of_lt small

-- A mask of `k` ones keeps the remainder by 2 ^ k; `n` is the digits still to go.
masked : (n k a b : ℕ) → b + 1 ≡ 2 ^ k → a ≤ n → digits (λ y. 0) digit_min n a b ≡ a % 2 ^ k
masked zero k zero b e h = omega arith
masked zero k (suc a) b e h = absurd (omega arith)
masked (suc n) k zero b e h = omega arith
masked (suc n) zero (suc a) b e h =
    omega (arith, masked n zero (suc a / 2) (b / 2) (omega arith) (omega arith))
masked (suc n) (suc k) (suc a) b e h =
    let double = pow-suc 2 k in
    let positive = one-le-pow k 2 (omega arith) in
    let rest = masked n k (suc a / 2) (b / 2) (omega arith) (omega arith) in
    let split = mod_double (suc a) (2 ^ k) positive in
    let odd : digit_min (suc a % 2) (b % 2) ≡ suc a % 2 = ground arith in
    rw double (rw (rest, odd) (sym split))

pub bit_and-mask : (k a b : ℕ) → b + 1 ≡ 2 ^ k → bit_and a b ≡ a % 2 ^ k
bit_and-mask k a b e = simp bit_and-bitwise (masked a k a b e (omega arith))

-- A field above `k` bits and one within them are joined by their sum.
joined :
    (n k q a b : ℕ) → a ≡ q * 2 ^ k → b < 2 ^ k → a ≤ n → digits (λ y. y) digit_max n a b ≡ a + b
joined zero k q zero b e l h = omega arith
joined zero k q (suc a) b e l h = absurd (omega arith)
joined (suc n) k q zero b e l h = omega arith
joined (suc n) zero q (suc a) b e l h =
    let rest =
      joined n zero (suc a / 2) (suc a / 2) (b / 2) (omega arith) (omega arith) (omega arith) in
    let top : digit_max (suc a % 2) (b % 2) ≡ suc a % 2 = ground arith in omega arith
joined (suc n) (suc k) q (suc a) b e l h =
    let double = pow-suc 2 k in
    let even : suc a ≡ q * 2 ^ k * 2 = omega (arith, ap (λ (t : ℕ). q * t) double) in
    let half : suc a / 2 ≡ q * 2 ^ k = omega arith in
    let rest = joined n k q (suc a / 2) (b / 2) half (omega arith) (omega arith) in
    let top : digit_max (suc a % 2) (b % 2) ≡ b % 2 = ground arith in omega arith

pub bit_or-fields : (k q b : ℕ) → b < 2 ^ k → bit_or (q * 2 ^ k) b ≡ q * 2 ^ k + b
bit_or-fields k q b l =
    simp bit_or-bitwise (joined (q * 2 ^ k) k q (q * 2 ^ k) b refl l (omega arith))

-- The lowest bit is set.
pub bit_or-one : (a : ℕ) → bit_or a 1 % 2 ≡ 1
bit_or-one zero = omega (arith, bit_or-bitwise 0 1)
bit_or-one (suc a) =
    let digit : digit_max (suc a % 2) (1 % 2) ≡ 1 = ground arith in
    omega (arith, bit_or-bitwise (suc a) 1)

bit_length-zero : (fuel : ℕ) → bit_length fuel 0 ≡ 0
unfolding bit_length
bit_length-zero zero = refl
bit_length-zero (suc fuel) = refl

halved : (x : ℕ) → (x / 2 == 0) ≡ true → x / 2 ≡ 0
halved x h = (==_iff (x / 2) 0).0 h

-- The number of digits.
pub bit_length_bounds :
    (fuel x : ℕ)
    → 0 < x
    → x < 2 ^ fuel
    → (k : ℕ) × (bit_length fuel x ≡ suc k) × (2 ^ k ≤ x) × (x < 2 ^ suc k) × (k < fuel)
unfolding bit_length
bit_length_bounds zero x p l = absurd (omega arith)
bit_length_bounds (suc fuel) x p l = elim (Bool-cases (x / 2 == 0)) [
  | inl last ↦
      let none_left : bit_length fuel (x / 2) ≡ 0 = rw (halved x last) (bit_length-zero fuel) in
      (0, ground arith, ground arith, ground arith, omega arith)
  | inr more ↦
      let double = pow-suc 2 fuel in
      let (k, long, lower, upper, fits) =
        bit_length_bounds fuel (x / 2) (ground arith) (omega arith) in
      (
        suc k,
        ground arith,
        omega (arith, pow-suc 2 k),
        omega (arith, pow-suc 2 (suc k)),
        omega arith,
      )
]

pub clz32_lem :
    (x : ℕ)
    → 0 < x
    → x < 2 ^ 32
    → (k : ℕ) × (clz32 x ≡ 31 - k) × (2 ^ k ≤ x) × (x < 2 ^ suc k) × (k < 32)
unfolding clz32
clz32_lem x p l =
    let (k, long, lower, upper, fits) = bit_length_bounds 32 x p l in
    (k, omega arith, lower, upper, fits)

pub clz64_lem :
    (x : ℕ)
    → 0 < x
    → x < 2 ^ 64
    → (k : ℕ) × (clz64 x ≡ 63 - k) × (2 ^ k ≤ x) × (x < 2 ^ suc k) × (k < 64)
unfolding clz64
clz64_lem x p l =
    let (k, long, lower, upper, fits) = bit_length_bounds 64 x p l in
    (k, omega arith, lower, upper, fits)

pub mix_bits-lt : (x : ℕ) → mix_bits x < 2 ^ 64
unfolding mix_bits
mix_bits-lt x = omega arith

pub hash_of-lt : (a b : ℕ) → hash_of a b < 2 ^ 64
unfolding hash_of
hash_of-lt a b = omega arith
