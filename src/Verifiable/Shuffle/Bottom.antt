-- ===== src/Verifiable/Shuffle/Bottom.antt =====
-- One shuffle of the bottom ranks in `shuffleRank` of verifiable/verifiable.cu is one to one.
use mathlib.Core.Bool.{◌&&◌}
use native.Mathlib.Nat.{
  mod-mod_of_dvd, dvd_of_mod-eq-zero, mod-add-mod, mod-lt, one-le-pow, pow-le-pow_right,
}
use nccl_tests.Prelude.{
  ℕ, zero, suc, ◌+◌, ◌-◌, ◌*◌, ◌/◌, ◌%◌, ◌^◌, ◌<◌, ◌≤◌, ◌≡◌, ◌∙◌, refl, sym, ap, arith, Bool, true,
  ◌==◌, ==_iff, dec_lt,
}
use nccl_tests.Verifiable.Words.{u32}
use nccl_tests.Verifiable.Words.Bits.{bit_and-mask, bit_or-one, clz32_lem}
use nccl_tests.Verifiable.Shuffle.{largest_mask, shuffle_bottom}
use nccl_tests.Verifiable.Shuffle.Numbers.{line_injective, triangle_injective}
use Prim.Native.Nat.{bit_and, bit_or}

-- What holds of the numbers below 31, by evaluation.
all_below : ℕ → (ℕ → Bool) → Bool
all_below zero p = true
all_below (suc n) p = p n && all_below n p

below_all : (n : ℕ) (p : ℕ → Bool) (x : ℕ) → all_below n p ≡ true → x < n → p x ≡ true
unfolding all_below
below_all zero p x h l = absurd (omega arith)
below_all (suc n) p x h l = ground (arith, below_all n p x)

mask_table : all_below 31 (λ k. (2 ^ 32 - 1) / 2 / 2 ^ (31 - k) + 1 == 2 ^ k) ≡ true
unfolding all_below
mask_table = refl

divides_table : all_below 31 (λ k. 2 ^ 31 % 2 ^ k == 0) ≡ true
unfolding all_below
divides_table = refl

cut_again : (k x : ℕ) → k < 31 → x % 2 ^ 31 % 2 ^ k ≡ x % 2 ^ k
cut_again k x l =
    mod-mod_of_dvd (2 ^ k) x
      (dvd_of_mod-eq-zero (2 ^ k) ((==_iff _ 0).0 (below_all 31 _ k divides_table l)))

cut_word : (k x : ℕ) → k < 31 → u32 x % 2 ^ k ≡ x % 2 ^ k
cut_word k x l = sym (cut_again k (u32 x) l) ∙ ap (λ t. t % 2 ^ k) (inner x) ∙ cut_again k x l
  where
    inner : (x : ℕ) → u32 x % 2 ^ 31 ≡ x % 2 ^ 31
    inner x = omega arith

pub below_power : (m k n : ℕ) → 2 ^ k ≤ n → n < 2 ^ m → k < m
below_power m k n lower l = elim (dec_lt k m) [
  | yes h ↦ h
  | no h ↦
      absurd (omega (arith, pow-le-pow_right {n = 2} (omega arith) {i = m} {j = k} (omega arith)))
]

cut_sum : (k x b : ℕ) → k < 31 → (u32 x + b) % 2 ^ k ≡ (x + b) % 2 ^ k
cut_sum k x b l =
    sym (mod-add-mod (u32 x) (2 ^ k) b)
    ∙ ap (λ t. (t + b) % 2 ^ k) (cut_word k x l)
    ∙ mod-add-mod x (2 ^ k) b

halved_word : (x b : ℕ) → u32 (u32 x + b) / 2 ≡ (x + b) / 2 % 2 ^ 31
halved_word x b = omega arith

cut_half : (k x b : ℕ) → k < 31 → u32 (u32 x + b) / 2 % 2 ^ k ≡ (x + b) / 2 % 2 ^ k
cut_half k x b l = ap (λ t. t % 2 ^ k) (halved_word x b) ∙ cut_again k ((x + b) / 2) l

-- The mask is the largest below the number of ranks.
pub largest_mask_lem :
    (n : ℕ)
    → 0 < n
    → n < 2 ^ 31
    → (k : ℕ) × (k < 31) × (largest_mask n + 1 ≡ 2 ^ k) × (2 ^ k ≤ n) × (n < 2 ^ suc k)
unfolding largest_mask
largest_mask_lem n p l =
    let (k, long, lower, upper, fits) = clz32_lem n p (omega arith) in
    let short = below_power 31 k n lower l in
    let entry = (==_iff _ _).0 (below_all 31 _ k mask_table short) in
    (k, short, ap (λ t. (2 ^ 32 - 1) / 2 / 2 ^ t + 1) long ∙ entry, lower, upper)

module _ (k n2 : ℕ) (small : k < 31) (mask : n2 + 1 ≡ 2 ^ k) where
  shuffle_bottom_lem :
      (slope offset r : ℕ)
      → shuffle_bottom n2 slope offset r
        ≡ (let line = (r * bit_or slope 1 + offset) % 2 ^ k in (line * line + line) / 2 % 2 ^ k)
  unfolding shuffle_bottom
  shuffle_bottom_lem slope offset r =
      let first =
        bit_and-mask k (u32 (u32 (r * bit_or slope 1) + offset)) n2 mask
        ∙ cut_word k (u32 (r * bit_or slope 1) + offset) small in
      let line = bit_and (u32 (u32 (r * bit_or slope 1) + offset)) n2 in
      let value : line ≡ (r * bit_or slope 1 + offset) % 2 ^ k =
        first ∙ cut_sum k (r * bit_or slope 1) offset small in
      let second =
        bit_and-mask k (u32 (u32 (line * line) + line) / 2) n2 mask
        ∙ cut_half k (line * line) line small in
      second ∙ ap (λ t. (t * t + t) / 2 % 2 ^ k) value

  pub shuffle_bottom-lt : (slope offset r : ℕ) → shuffle_bottom n2 slope offset r < 2 ^ k
  shuffle_bottom-lt slope offset r =
      rw (shuffle_bottom_lem slope offset r) (mod-lt _ (one-le-pow k 2 (omega arith)))

  pub shuffle_bottom_injective :
      (slope offset r s : ℕ)
      → r < 2 ^ k
      → s < 2 ^ k
      → shuffle_bottom n2 slope offset r ≡ shuffle_bottom n2 slope offset s
      → r ≡ s
  shuffle_bottom_injective slope offset r s p q e =
      let positive = one-le-pow k 2 (omega arith) in
      let line = λ (t : ℕ). (t * bit_or slope 1 + offset) % 2 ^ k in
      line_injective k (bit_or slope 1) offset r s (bit_or-one slope) p q (
        triangle_injective k (line r) (line s) (mod-lt _ positive) (mod-lt _ positive)
          (sym (shuffle_bottom_lem slope offset r) ∙ e ∙ shuffle_bottom_lem slope offset s))
