-- ===== src/Hypercube/Toggle.antt =====
-- One bit of a rank turned over, as src/hypercube.cu finds the partner of a rank.
use Prim.Native.Nat.{digits, differ, bit_xor, bit_xor-bitwise}
use native.Mathlib.Nat.{pow-suc, one-le-pow}
use nccl_tests.Prelude.{ℕ, zero, suc, ◌+◌, ◌*◌, ◌/◌, ◌%◌, ◌^◌, ◌<◌, ◌≤◌, ◌≡◌, ◌∙◌, refl, ap, arith}

differ_nothing : (x : ℕ) → differ x 0 ≡ x
differ_nothing zero = refl
differ_nothing (suc x) = refl

unchanged : (n a : ℕ) → a ≤ n → digits (λ y. y) differ n a 0 ≡ a
unchanged zero a l = omega arith
unchanged (suc n) zero l = refl
unchanged (suc n) (suc a) l =
    omega (arith, unchanged n (suc a / 2) (omega arith), differ_nothing (suc a % 2))

differ_even : (x : ℕ) → x ≡ 0 → differ x 1 ≡ 1
differ_even zero e = refl
differ_even (suc x) e = absurd (omega arith)

differ_odd : (x : ℕ) → x ≡ 1 → differ x 1 ≡ 0
differ_odd zero e = absurd (omega arith)
differ_odd (suc zero) e = refl
differ_odd (suc (suc x)) e = absurd (omega arith)

pub doubled : (q k : ℕ) → q * 2 ^ suc k ≡ q * 2 ^ k * 2
doubled q k = ap (λ t. q * t) (pow-suc 2 k) ∙ regrouped q (2 ^ k)
  where
    regrouped : (q p : ℕ) → q * (p * 2) ≡ q * p * 2
    regrouped q p = grind arith

set_digits :
    (n k q t a b : ℕ)
    → b ≡ 2 ^ k
    → a ≡ q * 2 ^ k * 2 + t
    → t < 2 ^ k
    → a ≤ n
    → digits (λ y. y) differ n a b ≡ a + b
set_digits zero k q t a b e h l m = omega arith
set_digits (suc n) k q t zero b e h l m = omega arith
set_digits (suc n) zero q t (suc a) b e h l m =
    let one : b ≡ 1 = omega arith in
    let even : differ (suc a % 2) (b % 2) ≡ 1 =
      ap (λ z. differ (suc a % 2) (z % 2)) one ∙ differ_even (suc a % 2) (omega arith) in
    let rest : digits (λ y. y) differ n (suc a / 2) (b / 2) ≡ suc a / 2 =
      ap (λ z. digits (λ y. y) differ n (suc a / 2) (z / 2)) one
      ∙ unchanged n (suc a / 2) (omega arith) in
    omega arith
set_digits (suc n) (suc k) q t (suc a) b e h l m =
    let double = pow-suc 2 k in
    let whole = doubled q k in
    let rest =
      set_digits n k q (t / 2) (suc a / 2) (b / 2) (omega arith) (omega arith) (omega arith)
        (omega arith) in
    let even : b % 2 ≡ 0 = omega arith in
    let top : differ (suc a % 2) (b % 2) ≡ suc a % 2 =
      ap (differ (suc a % 2)) even ∙ differ_nothing (suc a % 2) in
    omega arith

clear_digits :
    (n k q t a b : ℕ)
    → b ≡ 2 ^ k
    → a ≡ q * 2 ^ k * 2 + 2 ^ k + t
    → t < 2 ^ k
    → a ≤ n
    → digits (λ y. y) differ n a b + b ≡ a
clear_digits zero k q t a b e h l m = absurd (omega (arith, one-le-pow k 2 (omega arith)))
clear_digits (suc n) k q t zero b e h l m = absurd (omega (arith, one-le-pow k 2 (omega arith)))
clear_digits (suc n) zero q t (suc a) b e h l m =
    let one : b ≡ 1 = omega arith in
    let odd : differ (suc a % 2) (b % 2) ≡ 0 =
      ap (λ z. differ (suc a % 2) (z % 2)) one ∙ differ_odd (suc a % 2) (omega arith) in
    let rest : digits (λ y. y) differ n (suc a / 2) (b / 2) ≡ suc a / 2 =
      ap (λ z. digits (λ y. y) differ n (suc a / 2) (z / 2)) one
      ∙ unchanged n (suc a / 2) (omega arith) in
    omega arith
clear_digits (suc n) (suc k) q t (suc a) b e h l m =
    let double = pow-suc 2 k in
    let whole = doubled q k in
    let rest =
      clear_digits n k q (t / 2) (suc a / 2) (b / 2) (omega arith) (omega arith) (omega arith)
        (omega arith) in
    let even : b % 2 ≡ 0 = omega arith in
    let top : differ (suc a % 2) (b % 2) ≡ suc a % 2 =
      ap (differ (suc a % 2)) even ∙ differ_nothing (suc a % 2) in
    omega arith

pub bit_xor-set :
    (k q t : ℕ) → t < 2 ^ k → bit_xor (q * 2 ^ k * 2 + t) (2 ^ k) ≡ q * 2 ^ k * 2 + t + 2 ^ k
bit_xor-set k q t l =
    simp bit_xor-bitwise
      (set_digits (q * 2 ^ k * 2 + t) k q t (q * 2 ^ k * 2 + t) (2 ^ k) refl refl l (omega arith))

pub bit_xor-clear :
    (k q t : ℕ) → t < 2 ^ k → bit_xor (q * 2 ^ k * 2 + 2 ^ k + t) (2 ^ k) ≡ q * 2 ^ k * 2 + t
bit_xor-clear k q t l =
    let a = q * 2 ^ k * 2 + 2 ^ k + t in
    let e = clear_digits a k q t a (2 ^ k) refl refl l (omega arith) in
    simp bit_xor-bitwise (omega arith)
