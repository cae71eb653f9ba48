-- ===== src/Verifiable/Shuffle/Bijective.antt =====
-- `shuffleRank` of verifiable/verifiable.cu gives each rank another: no two ranks are shuffled to one.
use native.Mathlib.Nat.{pow-suc}
use nccl_tests.Prelude.{ℕ, suc, ◌+◌, ◌-◌, ◌/◌, ◌^◌, ◌<◌, ◌≤◌, ◌≡◌, arith, true, false, leb, dec_lt}
use nccl_tests.Verifiable.Words.{u32}
use nccl_tests.Verifiable.Shuffle.{
  largest_mask, shuffle_bottom, first_round, second_round, shuffle_rank,
}
use nccl_tests.Verifiable.Shuffle.Bottom.{
  largest_mask_lem, shuffle_bottom-lt, shuffle_bottom_injective,
}

-- The words of the shuffle of `n` ranks, `k` and the mask as they come from `n`.
module _ (n k n2 a b : ℕ) (small : k < 31) (mask : n2 + 1 ≡ 2 ^ k) (lower : 2 ^ k ≤ n)
    (upper : n < 2 ^ suc k) (fits : n < 2 ^ 31) where
  first_round_low :
      (r : ℕ) → r < 2 ^ k → first_round n n2 a b r ≡ shuffle_bottom n2 a b r + (n - 2 ^ k)
  unfolding first_round
  first_round_low r l =
      let bottom = shuffle_bottom-lt k n2 small mask a b r in
      let chosen : leb r n2 ≡ true = ground arith in rw chosen (omega (arith, pow-suc 2 k))

  first_round_high : (r : ℕ) → 2 ^ k ≤ r → r < n → first_round n n2 a b r ≡ r - 2 ^ k
  unfolding first_round
  first_round_high r l m = let chosen : leb r n2 ≡ false = ground arith in rw chosen (omega arith)

  first_round-lt : (r : ℕ) → r < n → first_round n n2 a b r < n
  first_round-lt r l = elim (dec_lt r (2 ^ k)) [
    | yes h ↦ omega (arith, first_round_low r h, shuffle_bottom-lt k n2 small mask a b r)
    | no h ↦ omega (arith, first_round_high r (omega arith) l)
  ]

  first_round_injective :
      (r s : ℕ) → r < n → s < n → first_round n n2 a b r ≡ first_round n n2 a b s → r ≡ s
  first_round_injective r s l m e =
      let r_bottom = shuffle_bottom-lt k n2 small mask a b r in
      let s_bottom = shuffle_bottom-lt k n2 small mask a b s in
      elim (dec_lt r (2 ^ k)) [
        | yes h ↦ elim (dec_lt s (2 ^ k)) [
          | yes i ↦
              shuffle_bottom_injective k n2 small mask a b r s h i
                (omega (arith, first_round_low r h, first_round_low s i))
          | no i ↦
              absurd (
                omega (arith, pow-suc 2 k, first_round_low r h, first_round_high s (omega arith) m))
        ]
        | no h ↦ elim (dec_lt s (2 ^ k)) [
          | yes i ↦
              absurd (
                omega (arith, pow-suc 2 k, first_round_high r (omega arith) l, first_round_low s i))
          | no i ↦
              omega (arith, first_round_high r (omega arith) l, first_round_high s (omega arith) m)
        ]
      ]

  second_round-lt : (r : ℕ) → r < n → second_round n2 a b r < n
  unfolding second_round
  second_round-lt r l = ground (arith, shuffle_bottom-lt k n2 small mask b a r)

  second_round_injective : (r s : ℕ) → second_round n2 a b r ≡ second_round n2 a b s → r ≡ s
  unfolding second_round
  second_round_injective r s e = ground (
    arith,
    shuffle_bottom-lt k n2 small mask b a r,
    shuffle_bottom-lt k n2 small mask b a s,
    shuffle_bottom_injective k n2 small mask b a r s,
  )

-- A shuffled rank is a rank.
pub shuffle_rank-lt : (n r rng : ℕ) → r < n → n < 2 ^ 31 → shuffle_rank n r rng < n
unfolding shuffle_rank
shuffle_rank-lt n r rng l fits =
    let (k, small, mask, lower, upper) = largest_mask_lem n (omega arith) fits in
    let a = u32 rng in
    let b = u32 (rng / 2 ^ 32) in
    second_round-lt n k (largest_mask n) a b small mask lower upper fits _
      (first_round-lt n k (largest_mask n) a b small mask lower upper fits (u32 r) (omega arith))

-- No two ranks are shuffled to one.
pub shuffle_rank_injective :
    (n r s rng : ℕ)
    → r < n
    → s < n
    → n < 2 ^ 31
    → shuffle_rank n r rng ≡ shuffle_rank n s rng
    → r ≡ s
unfolding shuffle_rank
shuffle_rank_injective n r s rng l m fits e =
    let (k, small, mask, lower, upper) = largest_mask_lem n (omega arith) fits in
    let a = u32 rng in
    let b = u32 (rng / 2 ^ 32) in
    let words =
      first_round_injective n k (largest_mask n) a b small mask lower upper fits (u32 r) (u32 s)
        (omega arith) (omega arith)
        (second_round_injective n k (largest_mask n) a b small mask lower upper fits _ _ e) in
    omega arith
