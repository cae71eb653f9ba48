-- ===== src/Gin/Sweep/Sizes.antt =====
-- The sizes that the loop of `gin_perf_run` in src/device_api/gin/utils/common.cc visits.
use nccl_tests.Prelude.{
  ℕ, zero, suc, ◌+◌, ◌*◌, ◌/◌, ◌%◌, ◌^◌, ◌<◌, ◌≤◌, ◌≡◌, refl, ◌⊎◌, inl, inr, false, some, List, [],
  ◌∷◌, ◌++◌, ltb, leb, ◌==◌, arith, Bool-cases, append-nil, ap, ◌∙◌,
}
use native.Mathlib.Nat.{mul_assoc}
use nccl_tests.Gin.Options.{Args}
use nccl_tests.Gin.Options.Laws.{IsValid}
use nccl_tests.Gin.Sweep.{next_size, sweep}

abbrev pub concat_map {ℓ} : {A : Type ℓ} → (ℕ → List A) → List ℕ → List A
concat_map body [] = []
concat_map body (size ∷ sizes) = body size ++ concat_map body sizes

-- The sizes from `size` on, each in bounds, made of whole words and below the next, up to one whose
-- successor is out of bounds.
pub data IsSweep (args : Args) : ℕ → List ℕ → Type 0 where
  last :
      {size : ℕ}
      → size ≤ args.maxbytes
      → size % 4 ≡ 0
      → (args.maxbytes < next_size args size) ⊎ (next_size args size ≤ size)
      → IsSweep args size (size ∷ [])
  more :
      {size : ℕ} {sizes : List ℕ}
      → size ≤ args.maxbytes
      → size % 4 ≡ 0
      → size < next_size args size
      → IsSweep args (next_size args size) sizes
      → IsSweep args size (size ∷ sizes)

-- Sizes go on being whole words, also where 64 bits overflow.
next_size-words :
    (args : Args) (size : ℕ) → args.stepbytes % 4 ≡ 0 → size % 4 ≡ 0 → next_size args size % 4 ≡ 0
unfolding next_size
next_size-words args size h e =
    let fixed = λ (x : ℕ) (f : x % 4 ≡ 0). mod_word x f in
    elim (Bool-cases (args.stepbytes == 0)) [
      | inl z ↦ rw z (fixed _ (times_word size _ e))
      | inr z ↦ rw z (fixed _ (omega arith))
    ]
  where
    mod_word : (x : ℕ) → x % 4 ≡ 0 → x % 2 ^ 64 % 4 ≡ 0
    mod_word x f = omega arith

    times_word : (x y : ℕ) → x % 4 ≡ 0 → x * y % 4 ≡ 0
    times_word x y f =
        let q : x ≡ 4 * (x / 4) = omega arith in
        let m : x * y ≡ 4 * (x / 4 * y) = ap (λ z. z * y) q ∙ mul_assoc 4 (x / 4) y in omega arith

module _ {ℓ} {A : Type ℓ} (body : ℕ → List A) (args : Args) (h : args.stepbytes % 4 ≡ 0) where
  sweep-from :
      (fuel size : ℕ)
      → size % 4 ≡ 0
      → size ≤ args.maxbytes
      → args.maxbytes < size + fuel
      → (sizes : List ℕ) × (sweep body args (suc fuel) size ≡ some (concat_map body sizes))
        × IsSweep args size sizes
  unfolding sweep
  sweep-from zero size e l b = absurd (omega arith)
  sweep-from (suc fuel) size e l b =
      let next = next_size args size in
      let w : next % 4 ≡ 0 = next_size-words args size h e in
      let inside : ltb args.maxbytes size ≡ false = ground arith in
      elim (Bool-cases (leb next size)) [
        | inl stuck ↦
            (size ∷ [], rw (inside, stuck, append-nil) refl, last l e (inr (ground arith)))
        | inr grows ↦ elim (Bool-cases (ltb args.maxbytes next)) [
          | inl out ↦
              (size ∷ [], rw (inside, grows, out, append-nil) refl, last l e (inl (ground arith)))
          | inr in_bounds ↦
              let (sizes, r, s) = sweep-from fuel next w (ground arith) (ground arith) in
              (size ∷ sizes, rw (inside, grows, r) refl, more l e (ground arith) s)
        ]
      ]

IsSweep-le : {args : Args} {size : ℕ} {l : List ℕ} → IsSweep args size l → size ≤ args.maxbytes
IsSweep-le (last a b c) = a
IsSweep-le (more a b c s) = a

stops :
    {args : Args} {size : ℕ} {l : List ℕ}
    → IsSweep args (next_size args size) l
    → (args.maxbytes < next_size args size) ⊎ (next_size args size ≤ size)
    → size < next_size args size
    → ⊥
stops s (inl d) g = let b = IsSweep-le s in omega arith
stops s (inr d) g = omega arith

-- There is one such list.
pub IsSweep-unique :
    {args : Args} {size : ℕ} {l m : List ℕ} → IsSweep args size l → IsSweep args size m → l ≡ m
IsSweep-unique (last a b c) (last a' b' c') = refl
IsSweep-unique (last a b c) (more a' b' g s) = absurd (stops s c g)
IsSweep-unique (more a b g s) (last a' b' c) = absurd (stops s c g)
IsSweep-unique {size = size} (more a b g s) (more a' b' g' s') =
    ap (λ l. size ∷ l) (IsSweep-unique s s')

-- With arguments that are fit for a run, the loop over the sizes ends within `maxbytes + 1` rounds: it
-- does its body for a list of sizes that begins at `minbytes` and strictly grows, each of whole words
-- and at most `maxbytes`, each the `next_size` of the one in front, up to one whose successor is above
-- `maxbytes`, or not above itself in 64 bits.
pub sweep-IsSweep {ℓ} :
    {A : Type ℓ} (body : ℕ → List A) (args : Args)
    → IsValid args
    → (sizes : List ℕ) × (sweep body args (suc args.maxbytes) args.minbytes
        ≡ some (concat_map body sizes))
      × IsSweep args args.minbytes sizes
sweep-IsSweep body args v =
    sweep-from body args v.step_words args.maxbytes args.minbytes v.min_words v.min_le_max
      (ground arith)
