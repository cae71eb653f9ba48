-- ===== src/Bench/Streams.antt =====
-- What the calls of src/common.cu are to give the stream of a GPU, in the order in which they are made, for loops
-- over the GPUs and for `startColl`. What open groups hold back is in Groups.
use nccl_tests.Prelude.{
  ℕ, zero, suc, ◌+◌, ◌<◌, ◌≤◌, ◌≡◌, refl, sym, ap, ◌∙◌, ℤ, Bool, true, false, List, [], ◌∷◌, ◌++◌,
  append-nil, append_assoc, ltb, ◌==◌, arith, Bool-cases, inl, inr,
}
use nccl_tests.Launch.{
  Step, group_start, group_end, synchronize, run_coll, record_event, barrier, for_each, when,
  int_is, blocks, start_coll, coll_on,
}
use nccl_tests.Bench.Rounds.{Work, call, event, wait, when_work}

abbrev pub work_of : (g : ℕ) → Step → List Work
work_of g (run_coll gpu iter) = when_work (gpu == g) (call iter ∷ [])
work_of g (record_event gpu slot) = when_work (gpu == g) (event slot ∷ [])
work_of g barrier = wait ∷ []
work_of g s = []

abbrev pub timeline : (g : ℕ) → List Step → List Work
timeline g [] = []
timeline g (s ∷ l) = work_of g s ++ timeline g l

pub timeline-append : (g : ℕ) (a b : List Step) → timeline g (a ++ b) ≡ timeline g a ++ timeline g b
timeline-append g [] b = refl
timeline-append g (s ∷ a) b =
    ap (λ x. work_of g s ++ x) (timeline-append g a b)
    ∙ sym (append_assoc (work_of g s) (timeline g a) (timeline g b))

pub timeline-when :
    (g : ℕ) (b : Bool) (l : List Step) → timeline g (when b l) ≡ when_work b (timeline g l)
timeline-when g true l = refl
timeline-when g false l = refl

-- A loop of which no round gives a GPU work.
pub for_each_idle :
    (g : ℕ) (f : ℕ → List Step)
    → ((i : ℕ) → timeline g (f i) ≡ [])
    → (i n : ℕ) → timeline g (for_each f i n) ≡ []
for_each_idle g f h i zero = refl
for_each_idle g f h i (suc n) =
    timeline-append g (f i) (for_each f (suc i) n)
    ∙ ap (λ x. x ++ timeline g (for_each f (suc i) n)) (h i)
    ∙ for_each_idle g f h (suc i) n

pub when_work_other : (i g : ℕ) (l : List Work) → (i == g) ≡ false → when_work (i == g) l ≡ []
when_work_other i g l h = ap (λ b. when_work b l) h

-- A loop over the GPUs gives each its own work, once.
module _ (g : ℕ) (f : ℕ → List Step) (w : List Work)
    (own : (i : ℕ) → timeline g (f i) ≡ when_work (i == g) w) where
  for_each_round :
      (i n : ℕ)
      → timeline g (for_each f i (suc n))
        ≡ when_work (i == g) w ++ timeline g (for_each f (suc i) n)
  for_each_round i n =
      timeline-append g (f i) (for_each f (suc i) n)
      ∙ ap (λ x. x ++ timeline g (for_each f (suc i) n)) (own i)

  for_each_behind : (i n : ℕ) → g < i → timeline g (for_each f i n) ≡ []
  for_each_behind i zero h = refl
  for_each_behind i (suc n) h =
      for_each_round i n
      ∙ ap (λ x. x ++ timeline g (for_each f (suc i) n)) (when_work_other i g w (ground arith))
      ∙ for_each_behind (suc i) n (omega arith)

  pub for_each_own : (i n : ℕ) → i ≤ g → g < i + n → timeline g (for_each f i n) ≡ w
  for_each_own i zero h k = ground arith
  for_each_own i (suc n) h k = for_each_round i n ∙ elim (Bool-cases (i == g)) [
    | inl e ↦
        ap (λ b. when_work b w ++ timeline g (for_each f (suc i) n)) e
        ∙ ap (λ l. w ++ l) (for_each_behind (suc i) n (ground arith))
        ∙ append-nil w
    | inr e ↦
        ap (λ b. when_work b w ++ timeline g (for_each f (suc i) n)) e
        ∙ for_each_own (suc i) n (ground arith) (omega arith)
  ]

module _ (g n : ℕ) (g_is_gpu : g < n) where
  coll_on_own :
      (premul : Bool) (iter i : ℕ)
      → timeline g (coll_on premul iter i) ≡ when_work (i == g) (call iter ∷ [])
  coll_on_own true iter i = append-nil (when_work (i == g) (call iter ∷ []))
  coll_on_own false iter i = append-nil (when_work (i == g) (call iter ∷ []))

  coll_loop :
      (premul : Bool) (iter : ℕ) → timeline g (for_each (coll_on premul iter) 0 n) ≡ call iter ∷ []
  coll_loop premul iter =
      for_each_own g (coll_on premul iter) (call iter ∷ []) (coll_on_own premul iter) 0 n
        (omega arith) (omega arith)

  pub when_idle : (b : Bool) (l : List Step) → timeline g l ≡ [] → timeline g (when b l) ≡ []
  when_idle true l h = h
  when_idle false l h = refl

  -- A call of `startColl` gives each GPU one call.
  pub timeline-start_coll :
      (premul : Bool) (blocking : ℤ) (iter : ℕ)
      → timeline g (start_coll n premul blocking iter)
        ≡ call iter ∷ when_work (int_is blocking 1) (wait ∷ [])
  unfolding start_coll
  timeline-start_coll premul blocking iter = simp (
    timeline-append,
    coll_loop premul iter,
    timeline-when g (int_is blocking 1) (barrier ∷ []),
    when_idle (ltb 1 n) (group_start ∷ []) refl,
    when_idle (ltb 1 n) (group_end ∷ []) refl,
    when_idle (blocks blocking) (synchronize ∷ []) refl,
  )

pub when_work_own :
    (h : ℕ → Work) (g i : ℕ) → when_work (i == g) (h i ∷ []) ≡ when_work (i == g) (h g ∷ [])
when_work_own h g i = elim (Bool-cases (i == g)) [
  | inl e ↦ let q : i ≡ g = ground arith in ap (λ x. when_work (i == g) (h x ∷ [])) q
  | inr e ↦ when_work_other i g (h i ∷ []) e ∙ sym (when_work_other i g (h g ∷ []) e)
]
