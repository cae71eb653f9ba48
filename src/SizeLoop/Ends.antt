-- ===== src/SizeLoop/Ends.antt =====
-- When the loop over the sizes in `TimeTest` of src/common.cu ends.
use nccl_tests.Prelude.{
  ℕ, zero, suc, ◌+◌, ◌*◌, ◌^◌, ◌<◌, ◌≤◌, ◌≡◌, refl, inl, inr, true, false, none, some, List, [],
  ◌∷◌, ◌++◌, ltb, arith, Bool-cases,
}
use native.Mathlib.Nat.{mul-le-mul_right, mul-le-mul_left}
use nccl_tests.SizeLoop.{Range, following, size_loop}

-- A step that grows, and that 64 bits hold.
pub record Grows (r : Range) : Type 0 where
  pub by_factor : 1 < r.stepfactor → (0 < r.minbytes) × (r.maxbytes * r.stepfactor < 2 ^ 64)
  pub by_bytes : r.stepfactor ≤ 1 → (0 < r.stepbytes) × (r.maxbytes + r.stepbytes < 2 ^ 64)

-- The sizes from `size` on, up to the last one in bounds.
pub data Visits (r : Range) : ℕ → List ℕ → Type 0 where
  over : {size : ℕ} → r.maxbytes < size → Visits r size []
  visit :
      {size : ℕ} {sizes : List ℕ}
      → size ≤ r.maxbytes
      → size < following r size
      → Visits r (following r size) sizes
      → Visits r size (size ∷ sizes)

abbrev pub bodies {ℓ} : {A : Type ℓ} → (ℕ → List A) → List ℕ → List A
bodies body [] = []
bodies body (size ∷ sizes) = body size ++ bodies body sizes

following-Grows :
    (r : Range) (size : ℕ)
    → Grows r
    → (1 < r.stepfactor → 0 < size)
    → size ≤ r.maxbytes
    → size < following r size
following-Grows r size g p b = elim (Bool-cases (ltb 1 r.stepfactor)) [
  | inl e ↦
      let h : 1 < r.stepfactor = ground arith in
      let m = mul-le-mul_right r.stepfactor b in
      let f = (g.by_factor h).1 in
      let k : size * 2 ≤ size * r.stepfactor = mul-le-mul_left size h in
      let q = p h in rw e (omega arith)
  | inr e ↦ let h : r.stepfactor ≤ 1 = ground arith in let f = g.by_bytes h in rw e (omega arith)
]

module _ {ℓ} {A : Type ℓ} (body : ℕ → List A) (r : Range) (g : Grows r) where
  loop-from :
      (fuel size : ℕ)
      → r.maxbytes < size + fuel
      → (1 < r.stepfactor → 0 < size)
      → (sizes : List ℕ) × (size_loop body r (suc fuel) size ≡ some (bodies body sizes))
        × Visits r size sizes
  unfolding size_loop
  loop-from zero size b p =
      let e : ltb r.maxbytes size ≡ true = ground arith in ([], rw e refl, over (omega arith))
  loop-from (suc fuel) size b p = elim (Bool-cases (ltb r.maxbytes size)) [
    | inl e ↦ ([], rw e refl, over (ground arith))
    | inr e ↦
        let l : size ≤ r.maxbytes = ground arith in
        let s = following-Grows r size g p l in
        let (sizes, h, v) = loop-from fuel (following r size) (omega arith) (λ q. omega arith) in
        (size ∷ sizes, rw (e, h) refl, visit l s v)
  ]

-- If the step grows and 64 bits hold the successor of every size in bounds, the loop ends within
-- `maxbytes + 2` tests of its condition, and its body is done for a strictly growing list of sizes from
-- `minbytes` on, each the successor of the one in front, which holds all of them up to `maxbytes`.
pub size_loop-Visits {ℓ} :
    {A : Type ℓ} (body : ℕ → List A) (r : Range)
    → Grows r
    → (sizes : List ℕ) × (size_loop body r (suc (suc r.maxbytes)) r.minbytes
        ≡ some (bodies body sizes))
      × Visits r r.minbytes sizes
size_loop-Visits body r g =
    loop-from body r g (suc r.maxbytes) r.minbytes (omega arith) (λ h. (g.by_factor h).0)

-- A size in bounds that is its own successor, as 0 is with a factor, or any size with neither a factor
-- nor a number of bytes to add, is never left: the loop is not over after any number of tests.
pub size_loop-stuck {ℓ} :
    {A : Type ℓ} (body : ℕ → List A) (r : Range) (size fuel : ℕ)
    → size ≤ r.maxbytes
    → following r size ≡ size
    → size_loop body r fuel size ≡ none
unfolding size_loop
size_loop-stuck body r size zero b e = refl
size_loop-stuck body r size (suc fuel) b e =
    let f : ltb r.maxbytes size ≡ false = ground arith in
    let rec = size_loop-stuck body r size fuel b e in rw (f, e, rec) refl
