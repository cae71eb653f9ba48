-- ===== src/Hypercube/Step.antt =====
-- One round of src/hypercube.cu joins the blocks of two groups of ranks.
use Prim.Native.Nat.{bit_xor}
use native.Mathlib.Nat.{pow-suc, one-le-pow}
use nccl_tests.Prelude.{
  ℕ, suc, ◌+◌, ◌-◌, ◌*◌, ◌^◌, ◌<◌, ◌≤◌, ◌≡◌, ◌∙◌, ◌⊎◌, inl, inr, refl, sym, ap, subst, arith, true,
  false, ◌&&◌, ltb, leb, Bool-cases,
}
use nccl_tests.Verifiable.Floats.Fields.{lower_part}
use nccl_tests.Hypercube.{sent_from, exchange}
use nccl_tests.Hypercube.Toggle.{doubled, bit_xor-set, bit_xor-clear}

-- A block within what the partner sends, and one without.
from_partner :
    (mask : ℕ) (blocks : ℕ → ℕ → ℕ) (rank slot p r : ℕ)
    → bit_xor rank mask ≡ p
    → bit_xor (sent_from mask rank) mask ≡ r
    → sent_from mask p ≡ r
    → r ≤ slot
    → slot < r + mask
    → exchange mask blocks rank slot ≡ blocks p slot
unfolding exchange
from_partner mask blocks rank slot p r partner range theirs low high =
    let inside : leb r slot && ltb slot (r + mask) ≡ true = ground arith in
    rw (partner, range, theirs, inside) (ap (blocks p) (there r slot low))
  where
    there : (r slot : ℕ) → r ≤ slot → r + (slot - r) ≡ slot
    there r slot l = omega arith

kept :
    (mask : ℕ) (blocks : ℕ → ℕ → ℕ) (rank slot r : ℕ)
    → bit_xor (sent_from mask rank) mask ≡ r
    → (slot < r) ⊎ (r + mask ≤ slot)
    → exchange mask blocks rank slot ≡ blocks rank slot
unfolding exchange
kept mask blocks rank slot r range outside =
    let test : leb r slot && ltb slot (r + mask) ≡ false = ground arith in rw (range, test) refl

sent_from_lem : (m c t : ℕ) → t < m → sent_from m (c * m + t) ≡ c * m
sent_from_lem m c t l = omega (arith, lower_part c m t l)

-- The blocks of the group of 2^k ranks that a rank is in.
abbrev pub Gathered : (d k : ℕ) (sent : ℕ → ℕ) (blocks : ℕ → ℕ → ℕ) → Type 0
Gathered d k sent blocks =
    (q t u : ℕ)
    → q * 2 ^ k + 2 ^ k ≤ 2 ^ d
    → t < 2 ^ k
    → u < 2 ^ k
    → blocks (q * 2 ^ k + t) (q * 2 ^ k + u) ≡ sent (q * 2 ^ k + u)

module _ (k q : ℕ) (blocks : ℕ → ℕ → ℕ) where
  base : ℕ
  base = q * 2 ^ k * 2

  from_even : (t : ℕ) → t < 2 ^ k → sent_from (2 ^ k) (base + t) ≡ base
  unfolding base
  from_even t l =
      ap (λ z. sent_from (2 ^ k) (z + t)) (even q (2 ^ k))
      ∙ sent_from_lem (2 ^ k) (q * 2) t l
      ∙ sym (even q (2 ^ k))
    where
      even : (q p : ℕ) → q * p * 2 ≡ q * 2 * p
      even q p = grind arith

  from_odd : (t : ℕ) → t < 2 ^ k → sent_from (2 ^ k) (base + 2 ^ k + t) ≡ base + 2 ^ k
  unfolding base
  from_odd t l =
      ap (λ z. sent_from (2 ^ k) (z + t)) (odd q (2 ^ k))
      ∙ sent_from_lem (2 ^ k) (q * 2 + 1) t l
      ∙ sym (odd q (2 ^ k))
    where
      odd : (q p : ℕ) → q * p * 2 + p ≡ (q * 2 + 1) * p
      odd q p = grind arith

  positive : 0 < 2 ^ k
  positive = omega (arith, one-le-pow k 2 (omega arith))

  -- The range that a rank receives, from an even and from an odd group.
  range_even : (t : ℕ) → t < 2 ^ k → bit_xor (sent_from (2 ^ k) (base + t)) (2 ^ k) ≡ base + 2 ^ k
  unfolding base
  range_even t l =
      ap (λ z. bit_xor z (2 ^ k)) (from_even t l ∙ plain base)
      ∙ bit_xor-set k q 0 positive
      ∙ ap (λ z. z + 2 ^ k) (sym (plain base))
    where
      plain : (x : ℕ) → x ≡ x + 0
      plain x = omega arith

  range_odd : (t : ℕ) → t < 2 ^ k → bit_xor (sent_from (2 ^ k) (base + 2 ^ k + t)) (2 ^ k) ≡ base
  unfolding base
  range_odd t l =
      ap (λ z. bit_xor z (2 ^ k)) (from_odd t l ∙ plain (base + 2 ^ k))
      ∙ bit_xor-clear k q 0 positive
      ∙ sym (plain base)
    where
      plain : (x : ℕ) → x ≡ x + 0
      plain x = omega arith

  swapped : (x m t : ℕ) → x + t + m ≡ x + m + t
  swapped x m t = omega arith

  even_keeps :
      (t u : ℕ)
      → t < 2 ^ k
      → u < 2 ^ k
      → exchange (2 ^ k) blocks (base + t) (base + u) ≡ blocks (base + t) (base + u)
  even_keeps t u l m =
      kept (2 ^ k) blocks (base + t) (base + u) (base + 2 ^ k) (range_even t l) (inl (omega arith))

  even_gets :
      (t u : ℕ)
      → t < 2 ^ k
      → u < 2 ^ k
      → exchange (2 ^ k) blocks (base + t) (base + 2 ^ k + u)
        ≡ blocks (base + 2 ^ k + t) (base + 2 ^ k + u)
  unfolding base
  even_gets t u l m =
      from_partner (2 ^ k) blocks (base + t) (base + 2 ^ k + u) (base + 2 ^ k + t) (base + 2 ^ k)
        (bit_xor-set k q t l ∙ swapped base (2 ^ k) t) (range_even t l) (from_odd t l) (omega arith)
        (omega arith)

  odd_gets :
      (t u : ℕ)
      → t < 2 ^ k
      → u < 2 ^ k
      → exchange (2 ^ k) blocks (base + 2 ^ k + t) (base + u) ≡ blocks (base + t) (base + u)
  unfolding base
  odd_gets t u l m =
      from_partner (2 ^ k) blocks (base + 2 ^ k + t) (base + u) (base + t) base
        (bit_xor-clear k q t l) (range_odd t l) (from_even t l) (omega arith) (omega arith)

  odd_keeps :
      (t u : ℕ)
      → t < 2 ^ k
      → u < 2 ^ k
      → exchange (2 ^ k) blocks (base + 2 ^ k + t) (base + 2 ^ k + u)
        ≡ blocks (base + 2 ^ k + t) (base + 2 ^ k + u)
  odd_keeps t u l m =
      kept (2 ^ k) blocks (base + 2 ^ k + t) (base + 2 ^ k + u) base (range_odd t l)
        (inr (omega arith))

  module _ (d : ℕ) (sent : ℕ → ℕ) (before : Gathered d k sent blocks)
      (inside : base + 2 ^ k + 2 ^ k ≤ 2 ^ d) where
    group :
        (c p t u : ℕ)
        → c * 2 ^ k ≡ p
        → p + 2 ^ k ≤ 2 ^ d
        → t < 2 ^ k
        → u < 2 ^ k
        → blocks (p + t) (p + u) ≡ sent (p + u)
    group c p t u e l a b =
        subst (λ p. p + 2 ^ k ≤ 2 ^ d → blocks (p + t) (p + u) ≡ sent (p + u)) e
          (λ l. before c t u l a b) l

    low_group : (t u : ℕ) → t < 2 ^ k → u < 2 ^ k → blocks (base + t) (base + u) ≡ sent (base + u)
    unfolding base
    low_group t u l m = group (q * 2) base t u (even q (2 ^ k)) (omega arith) l m
      where
        even : (q p : ℕ) → q * 2 * p ≡ q * p * 2
        even q p = grind arith

    high_group :
        (t u : ℕ)
        → t < 2 ^ k
        → u < 2 ^ k
        → blocks (base + 2 ^ k + t) (base + 2 ^ k + u) ≡ sent (base + 2 ^ k + u)
    unfolding base
    high_group t u l m = group (q * 2 + 1) (base + 2 ^ k) t u (odd q (2 ^ k)) inside l m
      where
        odd : (q p : ℕ) → (q * 2 + 1) * p ≡ q * p * 2 + p
        odd q p = grind arith

    beyond : (x m t : ℕ) → m ≤ t → x + t ≡ x + m + (t - m)
    beyond x m t l = omega arith

    exchanged :
        (t u : ℕ)
        → t < 2 ^ k * 2
        → u < 2 ^ k * 2
        → exchange (2 ^ k) blocks (base + t) (base + u) ≡ sent (base + u)
    exchanged t u l m = elim (Bool-cases (ltb t (2 ^ k))) [
      | inl a ↦ elim (Bool-cases (ltb u (2 ^ k))) [
        | inl b ↦
            even_keeps t u (ground arith) (ground arith)
            ∙ low_group t u (ground arith) (ground arith)
        | inr b ↦ rw (beyond base (2 ^ k) u (ground arith)) (
            even_gets t (u - 2 ^ k) (ground arith) (ground arith)
            ∙ high_group t (u - 2 ^ k) (ground arith) (ground arith))
      ]
      | inr a ↦ elim (Bool-cases (ltb u (2 ^ k))) [
        | inl b ↦ rw (beyond base (2 ^ k) t (ground arith)) (
            odd_gets (t - 2 ^ k) u (ground arith) (ground arith)
            ∙ low_group (t - 2 ^ k) u (ground arith) (ground arith))
        | inr b ↦
            rw (beyond base (2 ^ k) t (ground arith), beyond base (2 ^ k) u (ground arith))
              (odd_keeps (t - 2 ^ k) (u - 2 ^ k) (ground arith) (ground arith)
                ∙ high_group (t - 2 ^ k) (u - 2 ^ k) (ground arith) (ground arith))
      ]
    ]

pub exchange-Gathered :
    (d k : ℕ) (sent : ℕ → ℕ) (blocks : ℕ → ℕ → ℕ)
    → Gathered d k sent blocks
    → Gathered d (suc k) sent (exchange (2 ^ k) blocks)
unfolding base
exchange-Gathered d k sent blocks before q t u l a b =
    let double = pow-suc 2 k in
    rw (doubled q k) (
      exchanged k q blocks d sent before (omega (arith, doubled q k)) t u (omega arith)
        (omega arith))
