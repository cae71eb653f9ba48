-- ===== src/Verifiable/Integers/Trees.antt =====
-- Trees of ranks, and that a reduction over a tree depends on the set of its ranks only. For verifiable/verifiable.cu.
use mathlib.Core.List.{Permᴰ}
use nccl_tests.Prelude.{
  ℕ, zero, suc, ◌+◌, ◌<◌, ◌≡◌, ◌∙◌, refl, sym, ap, Option, none, some, List, [], ◌∷◌, ◌++◌,
}
use nccl_tests.Verifiable.Integers.Laws.{Commutative}

-- A way to reduce: a rank's own value, or the values of two parts.
pub data Tree : Type 0 where
  of_rank : ℕ → Tree
  both : Tree → Tree → Tree

abbrev pub ranks : Tree → List ℕ
ranks (of_rank r) = r ∷ []
ranks (both a b) = ranks a ++ ranks b

abbrev pub reduced : (f : ℕ → ℕ → ℕ) (value : ℕ → ℕ) → Tree → ℕ
reduced f value (of_rank r) = value r
reduced f value (both a b) = f (reduced f value a) (reduced f value b)

-- The ranks from `r` on.
abbrev pub ranks_from : (left r : ℕ) → List ℕ
ranks_from zero r = []
ranks_from (suc left) r = r ∷ ranks_from left (r + 1)

module _ (bound : ℕ) (f : ℕ → ℕ → ℕ) (laws : Commutative bound f) (value : ℕ → ℕ)
    (inside : (r : ℕ) → value r < bound) where
  open laws use {closed, commutes, regroups}

  unfoldable pub join : ℕ → Option ℕ → ℕ
  join x none = x
  join x (some y) = f x y

  unfoldable pub fold : List ℕ → Option ℕ
  fold [] = none
  fold (r ∷ l) = some (join (value r) (fold l))

  unfoldable pub merge : Option ℕ → Option ℕ → Option ℕ
  merge none n = n
  merge (some x) n = some (join x n)

  abbrev pub Inside : Option ℕ → Type 0
  Inside none = Unit {0}
  Inside (some x) = x < bound

  join-lt : (x : ℕ) (o : Option ℕ) → x < bound → Inside o → join x o < bound
  unfolding join
  join-lt x none l h = l
  join-lt x (some y) l h = closed x y l h

  pub fold-Inside : (l : List ℕ) → Inside (fold l)
  unfolding fold
  fold-Inside [] = tt
  fold-Inside (r ∷ l) = join-lt (value r) (fold l) (inside r) (fold-Inside l)

  pub join-join :
      (x : ℕ) (m n : Option ℕ)
      → x < bound
      → Inside m
      → Inside n
      → join x (merge m n) ≡ join (join x m) n
  unfolding join merge
  join-join x none n l h k = refl
  join-join x (some y) none l h k = refl
  join-join x (some y) (some z) l h k = sym (regroups x y z l h k)

  fold-append : (l m : List ℕ) → fold (l ++ m) ≡ merge (fold l) (fold m)
  unfolding fold merge
  fold-append [] m = refl
  fold-append (r ∷ l) m =
      ap (λ o. some (join (value r) o)) (fold-append l m)
      ∙ ap some (join-join (value r) (fold l) (fold m) (inside r) (fold-Inside l) (fold-Inside m))

  fold-swap :
      (x y : ℕ) (o : Option ℕ)
      → x < bound
      → y < bound
      → Inside o
      → join x (some (join y o)) ≡ join y (some (join x o))
  unfolding join
  fold-swap x y none l k h = commutes x y l k
  fold-swap x y (some z) l k h =
      sym (regroups x y z l k h) ∙ ap (λ w. f w z) (commutes x y l k) ∙ regroups y x z k l h

  pub fold-perm : {l m : List ℕ} → Permᴰ l m → fold l ≡ fold m
  unfolding fold
  fold-perm Permᴰ.nil = refl
  fold-perm (Permᴰ.cons {a} {b} {l₁} {l₂} e p) =
      ap (λ o. some (join (value a) o)) (fold-perm p) ∙ ap (λ c. some (join (value c) (fold l₂))) e
  fold-perm (Permᴰ.swap {a} {b} {a'} {b'} {l} e e') =
      ap some (fold-swap (value a) (value b) (fold l) (inside a) (inside b) (fold-Inside l))
      ∙ ap (λ c. some (join (value c) (some (join (value a) (fold l))))) e'
      ∙ ap (λ c. some (join (value a') (some (join (value c) (fold l))))) e
  fold-perm (Permᴰ.trans p q) = fold-perm p ∙ fold-perm q

  reduced-lt : (t : Tree) → reduced f value t < bound
  reduced-lt (of_rank r) = inside r
  reduced-lt (both a b) = closed _ _ (reduced-lt a) (reduced-lt b)

  pub reduced-fold : (t : Tree) → fold (ranks t) ≡ some (reduced f value t)
  unfolding fold join merge
  reduced-fold (of_rank r) = refl
  reduced-fold (both a b) =
      fold-append (ranks a) (ranks b)
      ∙ ap (λ o. merge o (fold (ranks b))) (reduced-fold a)
      ∙ ap (λ o. merge (some (reduced f value a)) o) (reduced-fold b)
