-- ===== src/Hypercube/Gathers.antt =====
-- The rounds of src/hypercube.cu gather the blocks of all the ranks on each rank.
use native.Mathlib.Nat.{pow-suc, one-le-pow}
use nccl_tests.Prelude.{
  ℕ, zero, suc, ◌+◌, ◌*◌, ◌^◌, ◌<◌, ◌≡◌, ◌∙◌, refl, sym, ap, subst, arith, true, false, some, ◌==◌,
  ltb, if◌then◌else◌,
}
use nccl_tests.Hypercube.{exchange, gather, hyper_cube_run_coll}
use nccl_tests.Hypercube.Step.{Gathered, exchange-Gathered}

pow-lt : (k n : ℕ) → 2 ^ k < 2 ^ (k + suc n)
pow-lt k zero = omega (arith, ap (λ z. 2 ^ z) (next k), pow-suc 2 k, one-le-pow k 2 (omega arith))
  where
    next : (k : ℕ) → k + 1 ≡ suc k
    next k = omega arith
pow-lt k (suc n) = omega (arith, pow-lt k n, ap (λ z. 2 ^ z) (next k n), pow-suc 2 (k + suc n))
  where
    next : (k n : ℕ) → k + suc (suc n) ≡ suc (k + suc n)
    next k n = omega arith

-- With fuel for the bits still to go and one more.
gather-Gathered :
    (n k d : ℕ) (sent : ℕ → ℕ) (blocks : ℕ → ℕ → ℕ)
    → k + n ≡ d
    → Gathered d k sent blocks
    → (got : ℕ → ℕ → ℕ) × (gather (suc n) (2 ^ k) (2 ^ d) blocks ≡ some got) × Gathered d d sent got
unfolding gather
gather-Gathered zero k d sent blocks e before =
    let same : k ≡ d = omega arith in
    let stop : ltb (2 ^ k) (2 ^ d) ≡ false = let p = ap (λ z. 2 ^ z) same in ground arith in
    (blocks, rw stop refl, subst (λ k. Gathered d k sent blocks) same before)
gather-Gathered (suc n) k d sent blocks e before =
    let more : ltb (2 ^ k) (2 ^ d) ≡ true =
      let l = pow-lt k n in let p = ap (λ z. 2 ^ z) e in ground arith in
    let (got, run, all) =
      gather-Gathered n (suc k) d sent (exchange (2 ^ k) blocks) (omega arith)
        (exchange-Gathered d k sent blocks before) in
    (
      got,
      rw more
          (ap (λ m. gather (suc n) m (2 ^ d) (exchange (2 ^ k) blocks)) (sym (pow-suc 2 k)) ∙ run),
      all,
    )

Gathered-at :
    (d : ℕ) (sent : ℕ → ℕ) (got : ℕ → ℕ → ℕ)
    → Gathered d d sent got
    → (rank slot : ℕ) → rank < 2 ^ d
    → slot < 2 ^ d
    → got rank slot ≡ sent slot
Gathered-at d sent got all rank slot a b =
    ap (λ r. got r slot) (sym (first d rank))
    ∙ ap (got (0 * 2 ^ d + rank)) (sym (first d slot))
    ∙ all 0 rank slot (omega arith) a b
    ∙ ap sent (first d slot)
  where
    first : (d x : ℕ) → 0 * 2 ^ d + x ≡ x
    first d x = omega arith

-- On 2^d ranks the loop over the masks ends within d + 1 tests of its condition, and then every
-- rank has the block that each rank sent, whatever stood in the buffers before.
pub hyper_cube_run_coll_gathers :
    (d : ℕ) (sent : ℕ → ℕ) (received : ℕ → ℕ → ℕ)
    → (got : ℕ → ℕ → ℕ) × (hyper_cube_run_coll (suc d) (2 ^ d) sent received ≡ some got)
      × ((rank slot : ℕ) → rank < 2 ^ d → slot < 2 ^ d → got rank slot ≡ sent slot)
unfolding hyper_cube_run_coll
hyper_cube_run_coll_gathers d sent received =
    let own = λ (rank slot : ℕ). if slot == rank then sent rank else received rank slot in
    let (got, run, all) =
      gather-Gathered d 0 d sent own (omega arith) (λ q t u l a b. ground arith) in
    (got, run, Gathered-at d sent got all)
