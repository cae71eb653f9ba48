-- ===== src/Reduce/Order.antt =====
-- `Allreduce` of src/common.cu does not depend on the order in which the threads come.
use mathlib.Core.List.{Permᴰ}
use nccl_tests.Prelude.{
  ℕ, zero, suc, Bool, true, false, Option, none, some, List, [], ◌∷◌, ◌==◌, if◌then◌else◌, ◌≡◌,
  refl, sym, ap, subst, ◌∙◌, arith,
}
use nccl_tests.Reduce.{
  Average, rank0, avg, least, most, sum, unknown, Operations, contribute, accumulate, finished,
  allreduce,
}

-- How often thread 0 comes, and with which value.
pub data Seen {ℓ} (T : Type ℓ) : Type ℓ where
  nobody often : Seen T
  once : T → Seen T

-- An operation whose operands can change places and be grouped otherwise.
pub record Reorders {ℓ} {T : Type ℓ} (op : T → T → T) : Type ℓ where
  pub assoc : (a b c : T) → op (op a b) c ≡ op a (op b c)
  pub comm : (a b : T) → op a b ≡ op b a

module _ {ℓ} {T : Type ℓ} where
  abbrev pub see : ℕ × T → Seen T → Seen T
  see (t, v) nobody = if t == 0 then once v else nobody
  see (t, v) (once w) = if t == 0 then often else once w
  see (t, v) often = often

  abbrev pub seen : List (ℕ × T) → Seen T
  seen [] = nobody
  seen (x ∷ l) = see x (seen l)

  -- All values in one, by an operation.
  abbrev pub with_rest : (T → T → T) → T → Option T → T
  with_rest op v none = v
  with_rest op v (some w) = op v w

  abbrev pub joined : (T → T → T) → List (ℕ × T) → Option T
  joined op [] = none
  joined op ((t, v) ∷ l) = some (with_rest op v (joined op l))

  abbrev pub value_or : T → Option T → T
  value_or d none = d
  value_or d (some v) = v

  -- A fold whose steps can change places is the same in any order.
  module _ {ℓ'} {B : Type ℓ'} (f : List (ℕ × T) → B) (put : ℕ × T → B → B)
      (puts : (x : ℕ × T) (l : List (ℕ × T)) → f (x ∷ l) ≡ put x (f l))
      (swaps : (x y : ℕ × T) (b : B) → put x (put y b) ≡ put y (put x b)) where
    perm_same : {l m : List (ℕ × T)} → Permᴰ l m → f l ≡ f m
    perm_same Permᴰ.nil = refl
    perm_same (Permᴰ.cons {a} {b} {l₁} {l₂} e p) =
        puts a l₁ ∙ ap (λ x. put x (f l₁)) e ∙ ap (put b) (perm_same p) ∙ sym (puts b l₂)
    perm_same (Permᴰ.swap {a} {b} {a'} {b'} {l} e e') =
        puts a (b ∷ l)
        ∙ ap (put a) (puts b l)
        ∙ swaps a b (f l)
        ∙ ap (λ x. put x (put a (f l))) e'
        ∙ ap (λ x. put a' (put x (f l))) e
        ∙ sym (ap (put a') (puts b' l))
        ∙ sym (puts a' (b' ∷ l))
    perm_same (Permᴰ.trans p q) = perm_same p ∙ perm_same q

  module _ (op : T → T → T) (laws : Reorders op) where
    with_rest_swap :
        (v w : T) (o : Option T)
        → with_rest op v (some (with_rest op w o)) ≡ with_rest op w (some (with_rest op v o))
    with_rest_swap v w none = laws.comm v w
    with_rest_swap v w (some u) =
        sym (laws.assoc v w u) ∙ ap (λ x. op x u) (laws.comm v w) ∙ laws.assoc w v u

    joined_perm : {l m : List (ℕ × T)} → Permᴰ l m → joined op l ≡ joined op m
    joined_perm p =
        perm_same (joined op) (λ x o. some (with_rest op (x.1) o)) (λ x l. refl)
          (λ x y o. ap some (with_rest_swap (x.1) (y.1) o)) p

    with_rest_assoc : (a v : T) (o : Option T) → with_rest op (op a v) o ≡ op a (with_rest op v o)
    with_rest_assoc a v none = refl
    with_rest_assoc a v (some w) = laws.assoc a v w

module _ {ℓ} {T : Type ℓ} (ops : Operations T) where
  -- The operation of a number that combines the values can be reordered.
  pub data Fits : Average → Type ℓ where
    fits_rank0 : Fits rank0
    fits_avg : Reorders ops.added → Fits avg
    fits_least : Reorders ops.smaller → Fits least
    fits_most : Reorders ops.larger → Fits most
    fits_sum : Reorders ops.added → Fits sum

  -- What the accumulator comes to, whatever the order: the value of thread 0, or all values in one.
  abbrev pub reduced : Average → (first : T) → List (ℕ × T) → T
  reduced rank0 first l = first
  reduced avg first l = value_or first (joined ops.added l)
  reduced least first l = value_or first (joined ops.smaller l)
  reduced most first l = value_or first (joined ops.larger l)
  reduced sum first l = value_or first (joined ops.added l)
  reduced unknown first l = first

  -- Behind the first thread every other one is taken in by the operation.
  accumulate-joined :
      (a : Average) (op : T → T → T)
      → Reorders op
      → ((k t : ℕ) (acc v : T) → contribute ops a (suc k) t acc v ≡ op acc v)
      → (k : ℕ) (acc : T) (l : List (ℕ × T))
      → accumulate ops a (suc k) acc l ≡ with_rest op acc (joined op l)
  accumulate-joined a op laws step k acc [] = refl
  accumulate-joined a op laws step k acc ((t, v) ∷ l) =
      ap (λ x. accumulate ops a (suc (suc k)) x l) (step k t acc v)
      ∙ accumulate-joined a op laws step (suc k) (op acc v) l
      ∙ with_rest_assoc op laws acc v (joined op l)

  contribute_rank0 :
      (k t : ℕ) (acc v : T) → contribute ops rank0 k t acc v ≡ (if t == 0 then v else acc)
  contribute_rank0 zero t acc v = refl
  contribute_rank0 (suc k) t acc v = refl

  -- What is left in the accumulator once thread 0 has come, or has not.
  abbrev AfterFirst : (acc : T) → Seen T → (v : T) → Type ℓ
  AfterFirst acc nobody v = v ≡ acc
  AfterFirst acc (once w) v = v ≡ w
  AfterFirst acc often v = v ≡ v

  accumulate_rank0 :
      (k : ℕ) (acc : T) (l : List (ℕ × T)) → AfterFirst acc (seen l) (accumulate ops rank0 k acc l)
  accumulate_rank0 k acc [] = refl
  accumulate_rank0 k acc ((t, v) ∷ l) =
      subst (λ x. AfterFirst acc (see (t, v) (seen l)) (accumulate ops rank0 (suc k) x l))
        (sym (contribute_rank0 k t acc v))
        (taken (t == 0) refl (seen l) (λ x. accumulate_rank0 (suc k) x l))
    where
      taken :
          (b : Bool)
          → (t == 0) ≡ b
          → (s : Seen T) → ((x : T) → AfterFirst x s (accumulate ops rank0 (suc k) x l))
          → AfterFirst acc
              (see (t, v) s)
              (accumulate ops rank0 (suc k) (if t == 0 then v else acc) l)
      taken true e nobody h = rw e (h v)
      taken true e (once w) h = rw e refl
      taken b e often h = refl
      taken false e nobody h = rw e (h acc)
      taken false e (once w) h = rw e (h acc)

  after_once : (acc : T) (s : Seen T) (v w : T) → AfterFirst acc s v → s ≡ once w → v ≡ w
  after_once acc s v w h e = subst (λ s. AfterFirst acc s v) e h

  -- A list in which thread 0 comes has a first thread.
  accumulate_all :
      (a : Average) (op : T → T → T)
      → Reorders op
      → ((k t : ℕ) (acc v : T) → contribute ops a (suc k) t acc v ≡ op acc v)
      → ((t : ℕ) (acc v : T) → contribute ops a 0 t acc v ≡ v)
      → (stale first : T) (l : List (ℕ × T)) → seen l ≡ once first
      → accumulate ops a 0 stale l ≡ value_or first (joined op l)
  accumulate_all a op laws step begin stale first [] h = absurd (differs h)
    where
      differs : nobody ≡ once first → ⊥
      differs h = ground arith
  accumulate_all a op laws step begin stale first ((t, v) ∷ l) h =
      ap (λ x. accumulate ops a 1 x l) (begin t stale v) ∙ accumulate-joined a op laws step 0 v l

  accumulate-reduced :
      (a : Average) (stale first : T) (l : List (ℕ × T))
      → Fits a
      → seen l ≡ once first
      → accumulate ops a 0 stale l ≡ reduced a first l
  accumulate-reduced rank0 stale first l fits_rank0 h =
      after_once stale (seen l) _ first (accumulate_rank0 0 stale l) h
  accumulate-reduced avg stale first l (fits_avg laws) h =
      accumulate_all avg ops.added laws (λ k t a v. refl) (λ t a v. refl) stale first l h
  accumulate-reduced least stale first l (fits_least laws) h =
      accumulate_all least ops.smaller laws (λ k t a v. refl) (λ t a v. refl) stale first l h
  accumulate-reduced most stale first l (fits_most laws) h =
      accumulate_all most ops.larger laws (λ k t a v. refl) (λ t a v. refl) stale first l h
  accumulate-reduced sum stale first l (fits_sum laws) h =
      accumulate_all sum ops.added laws (λ k t a v. refl) (λ t a v. refl) stale first l h
  accumulate-reduced unknown stale first l fits h = elim fits [ ]

  reduced_perm :
      (a : Average) (first : T) {l m : List (ℕ × T)}
      → Fits a
      → Permᴰ l m
      → reduced a first l ≡ reduced a first m
  reduced_perm rank0 first fits_rank0 p = refl
  reduced_perm avg first (fits_avg laws) p = ap (value_or first) (joined_perm ops.added laws p)
  reduced_perm least first (fits_least laws) p =
      ap (value_or first) (joined_perm ops.smaller laws p)
  reduced_perm most first (fits_most laws) p = ap (value_or first) (joined_perm ops.larger laws p)
  reduced_perm sum first (fits_sum laws) p = ap (value_or first) (joined_perm ops.added laws p)
  reduced_perm unknown first fits p = elim fits [ ]

  -- For any type of values and each number that the switch of Allreduce has a case for, if the
  -- operation that combines the values for that number, where there is one, is associative and
  -- commutative, as a sum that is not rounded, a minimum and a maximum are, and if thread 0 comes
  -- once: whatever an earlier call has left, and in whatever order the threads come, Allreduce
  -- finishes the value of thread 0, or all the values combined, as the number says.
  pub allreduce_any_order :
      (a : Average) (across : T → T) (total_procs n_threads : ℕ) (stale first : T)
      (threads arrivals : List (ℕ × T))
      → Fits a
      → seen arrivals ≡ once first
      → Permᴰ arrivals threads
      → allreduce ops a across total_procs n_threads stale arrivals
        ≡ finished ops a across total_procs n_threads (reduced a first threads)
  unfolding allreduce
  allreduce_any_order a across total_procs n_threads stale first threads arrivals fits h p =
      ap (finished ops a across total_procs n_threads)
        (accumulate-reduced a stale first arrivals fits h ∙ reduced_perm a first fits p)
