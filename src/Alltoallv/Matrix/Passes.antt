-- ===== src/Alltoallv/Matrix/Passes.antt =====
-- The two passes over the text of a matrix in src/alltoallv.cu, side by side.
use nccl_tests.Prelude.{
  ℕ, zero, suc, ◌+◌, ◌*◌, ◌<◌, Bool, true, false, ◌&&◌, Option, none, some, List, [], ◌∷◌, length,
  ltb, leb, ◌==◌, if◌then◌else◌, ◌≡◌, refl, ap, ◌∙◌, arith,
}
use native.Mathlib.Nat.{add-mul}
use nccl_tests.Gin.Number.{is_space}
use nccl_tests.Alltoallv.{aligned}
use nccl_tests.Alltoallv.Matrix.{
  Number, Shape, end_row, end_row_if, refused_number, count_number, with_text, Pass, refused,
  passed, count_step, last_row, first_pass, put, second_pass,
}

-- The values that a shape has.
abbrev values_of : Shape → ℕ
values_of s = s.rows * s.cols + s.tmp_cols

-- The end of a row adds no value.
data Ended (s : Shape) : Option Shape → Type 0 where
  uneven : Ended s none
  ended : (s' : Shape) → values_of s' ≡ values_of s → s'.tmp_cols ≡ 0 → Ended s (some s')

first_row_values : (s : Shape) → (s.rows == 0) ≡ true → (s.rows + 1) * s.tmp_cols + 0 ≡ values_of s
first_row_values s h =
    let e : s.rows ≡ 0 = ground arith in
    let a : s.rows * s.cols ≡ 0 * s.cols = ap (λ x. x * s.cols) e in
    let b : (s.rows + 1) * s.tmp_cols ≡ (0 + 1) * s.tmp_cols = ap (λ x. (x + 1) * s.tmp_cols) e in
    omega arith

later_row_values :
    (s : Shape) → (s.tmp_cols == s.cols) ≡ true → (s.rows + 1) * s.cols + 0 ≡ values_of s
later_row_values s h =
    let e : s.tmp_cols ≡ s.cols = ground arith in omega (arith, add-mul s.rows 1 s.cols)

end_row-Ended : (s : Shape) → Ended s (end_row s)
end_row-Ended s = first (s.rows == 0) refl
  where
    later :
        (b : Bool)
        → (s.tmp_cols == s.cols) ≡ b
        → Ended s
            (if b then some (record { rows = s.rows + 1; cols = s.cols; tmp_cols = 0 }) else none)
    later true h =
        ended (record { rows = s.rows + 1; cols = s.cols; tmp_cols = 0 }) (later_row_values s h)
          refl
    later false h = uneven

    first :
        (b : Bool)
        → (s.rows == 0) ≡ b
        → Ended s (
            if b
            then some (record { rows = s.rows + 1; cols = s.tmp_cols; tmp_cols = 0 })
            else if s.tmp_cols == s.cols
            then some (record { rows = s.rows + 1; cols = s.cols; tmp_cols = 0 })
            else none)
    first true h =
        ended (record { rows = s.rows + 1; cols = s.tmp_cols; tmp_cols = 0 }) (first_row_values s h)
          refl
    first false h = later (s.tmp_cols == s.cols) refl

module _ (strtod : List ℕ → Option Number)
    (shrinks : (t : List ℕ) (n : Number) → strtod t ≡ some n → length n.end < length t) where
  -- A number that the first pass takes is one more value.
  data Step (s : Shape) (x : ℕ) (t : List ℕ) : Option (Shape × List ℕ) → Type 0 where
    refuses : Step s x t none
    spaces :
        (s' : Shape) → is_space x ≡ true → values_of s' ≡ values_of s → Step s x t (some (s', t))
    takes :
        (s' : Shape) (n : Number)
        → is_space x ≡ false
        → strtod (x ∷ t) ≡ some n
        → values_of s' ≡ values_of s + 1
        → Step s x t (some (s', n.end))

  count_step-Step : (s : Shape) (x : ℕ) (t : List ℕ) → Step s x t (count_step strtod s x t)
  count_step-Step s x t = at_space (is_space x) refl
    where
      row : {r : Option Shape} → Ended s r → is_space x ≡ true → Step s x t (with_text t r)
      row uneven h = refuses
      row (ended s' v z) h = spaces s' h v

      row_if : (b : Bool) → is_space x ≡ true → Step s x t (with_text t (end_row_if b s))
      row_if true h = row (end_row-Ended s) h
      row_if false h = spaces s h refl

      number :
          (o : Option Number)
          → strtod (x ∷ t) ≡ o
          → is_space x ≡ false
          → Step s x t (count_number s o)
      number none e h = refuses
      number (some n) e h = checked (refused_number n)
        where
          checked :
              (b : Bool)
              → Step s x t
                  (if b then none else some (record s { tmp_cols = s.tmp_cols + 1 }, n.end))
          checked true = refuses
          checked false = takes (record s { tmp_cols = s.tmp_cols + 1 }) n h e (omega arith)

      at_space :
          (b : Bool)
          → is_space x ≡ b
          → Step s x t (
              if b
              then with_text t (end_row_if (x == 10 && ltb 0 s.tmp_cols) s)
              else count_number s (strtod (x ∷ t)))
      at_space true h = row_if (x == 10 && ltb 0 s.tmp_cols) h
      at_space false h = number (strtod (x ∷ t)) refl h

  -- How the first pass ends, and with it the second one.
  pub data Ends (k : ℕ) (fuel : ℕ) (t : List ℕ) : Pass Shape → Type 0 where
    first_refuses : Ends k fuel t refused
    both_pass :
        (s : Shape) (vs : List ℕ)
        → s.tmp_cols ≡ 0
        → k + length vs ≡ s.rows * s.cols
        → second_pass strtod fuel (s.rows * s.cols) k t ≡ passed vs
        → Ends k fuel t (passed s)

  -- Behind the text.
  at_end : (fuel k n : ℕ) → k ≡ n → second_pass strtod (suc fuel) n k [] ≡ passed []
  at_end fuel k n h =
      let e : (k == n) ≡ true = ground arith in ap (λ b. if b then passed [] else refused) e

  last_row-Ends :
      (fuel k : ℕ) (s : Shape) {r : Option Shape}
      → k ≡ values_of s
      → Ended s r
      → Ends k (suc fuel) [] (last_row r)
  last_row-Ends fuel k s h uneven = first_refuses
  last_row-Ends fuel k s h (ended s' v z) =
      both_pass s' [] z (omega arith) (at_end fuel k (s'.rows * s'.cols) (omega arith))

  no_row-Ends :
      (fuel k : ℕ) (s : Shape) → k ≡ values_of s → s.tmp_cols ≡ 0 → Ends k (suc fuel) [] (passed s)
  no_row-Ends fuel k s h z =
      both_pass s [] z (omega arith) (at_end fuel k (s.rows * s.cols) (omega arith))

  -- A space is passed over by both.
  spaces-Ends :
      (k fuel x : ℕ) (t : List ℕ) {r : Pass Shape}
      → is_space x ≡ true
      → Ends k fuel t r
      → Ends k (suc fuel) (x ∷ t) r
  spaces-Ends k fuel x t h first_refuses = first_refuses
  spaces-Ends k fuel x t h (both_pass s vs z e q) =
      let n : ℕ = s.rows * s.cols in
      both_pass s vs z e (
        ap
          (λ b. elim b [
            | true ↦ second_pass strtod fuel n k t
            | false ↦ elim (leb n k) [
              | true ↦ refused
              | false ↦ elim (strtod (x ∷ t)) [
                | none ↦ refused
                | some v ↦ put v.scaled (second_pass strtod fuel n (k + 1) v.end)
              ]
            ]
          ])
          h
        ∙ q)

  -- A number is taken by both.
  takes-Ends :
      (k fuel x : ℕ) (t : List ℕ) (v : Number) {r : Pass Shape}
      → is_space x ≡ false
      → strtod (x ∷ t) ≡ some v
      → Ends (k + 1) fuel v.end r
      → Ends k (suc fuel) (x ∷ t) r
  takes-Ends k fuel x t v h f first_refuses = first_refuses
  takes-Ends k fuel x t v h f (both_pass s vs z e q) =
      let n : ℕ = s.rows * s.cols in
      let room : leb n k ≡ false = ground arith in
      let found : Option Number → Pass (List ℕ) = λ o. elim o [
        | none ↦ refused
        | some w ↦ put w.scaled (second_pass strtod fuel n (k + 1) w.end)
      ] in
      both_pass s (aligned v.scaled ∷ vs) z (omega arith) (
        ap
          (λ b. elim b [
            | true ↦ second_pass strtod fuel n k t
            | false ↦ elim (leb n k) [ true ↦ refused | false ↦ found (strtod (x ∷ t)) ]
          ])
          h
        ∙ ap (λ b. elim b [ true ↦ refused | false ↦ found (strtod (x ∷ t)) ]) room
        ∙ ap found f
        ∙ ap (put v.scaled) q)

  pub first_pass-Ends :
      (fuel k : ℕ) (s : Shape) (t : List ℕ)
      → length t < fuel
      → k ≡ values_of s
      → Ends k fuel t (first_pass strtod fuel s t)
  first_pass-Ends zero k s t h v = elim h [ ]
  first_pass-Ends (suc fuel) k s [] h v = finish (ltb 0 s.tmp_cols) refl
    where
      finish : (b : Bool) → ltb 0 s.tmp_cols ≡ b → Ends k (suc fuel) [] (last_row (end_row_if b s))
      finish true e = last_row-Ends fuel k s v (end_row-Ended s)
      finish false e = no_row-Ends fuel k s v (ground arith)
  first_pass-Ends (suc fuel) k s (x ∷ t) h v =
      round (λ k' s' t' l w. first_pass-Ends fuel k' s' t' l w) (count_step-Step s x t)
    where
      round :
          ((k' : ℕ) (s' : Shape) (t' : List ℕ)
            → length t' < fuel
            → k' ≡ values_of s'
            → Ends k' fuel t' (first_pass strtod fuel s' t'))
          → {r : Option (Shape × List ℕ)} → Step s x t r
          → Ends k
              (suc fuel)
              (x ∷ t)
              (elim r [ none ↦ refused | some (s', t') ↦ first_pass strtod fuel s' t' ])
      round rec refuses = first_refuses
      round rec (spaces s' e w) = spaces-Ends k fuel x t e (rec k s' t (omega arith) (omega arith))
      round rec (takes s' n e f w) =
          let l = shrinks (x ∷ t) n f in
          takes-Ends k fuel x t n e f (rec (k + 1) s' n.end (omega arith) (omega arith))
