-- ===== src/Alltoallv/Matrix.antt =====
-- The file of a traffic matrix: `AlltoAllvReadTrafficMatrix` and `AlltoAllvInit` of src/alltoallv.cu. What
-- `strtod` makes of a text, and what the comparisons in floating point then say, is a parameter. `none` for
-- a file is that it cannot be opened or read; memory is there.
pub mod Passes
pub mod Square
pub mod Reach
use nccl_tests.Prelude.{
  ℕ, zero, suc, ◌+◌, ◌*◌, Bool, true, false, ◌&&◌, ◌||◌, not, Option, none, some, List, [], ◌∷◌,
  length, ltb, leb, ◌==◌, if◌then◌else◌,
}
use nccl_tests.Gin.Number.{is_space}
use nccl_tests.Alltoallv.{aligned, Pattern, generated, traffic_matrix}

-- A number that `strtod` found: the text at `end`, whether `errno` is `ERANGE`, whether the value is
-- below zero, whether it is above `SIZE_MAX` when it is scaled, and the scaled value as a `size_t`.
pub record Number : Type 0 where
  pub end : List ℕ
  pub out_of_range : Bool
  pub negative : Bool
  pub overflow : Bool
  pub scaled : ℕ

-- `rows`, `cols` and `tmp_cols`.
pub record Shape : Type 0 where
  pub rows : ℕ
  pub cols : ℕ
  pub tmp_cols : ℕ

-- The end of a row that has columns.
abbrev pub end_row : Shape → Option Shape
end_row s =
    if s.rows == 0
    then some (record { rows = s.rows + 1; cols = s.tmp_cols; tmp_cols = 0 })
    else if s.tmp_cols == s.cols
    then some (record { rows = s.rows + 1; cols = s.cols; tmp_cols = 0 })
    else none

abbrev pub end_row_if : Bool → Shape → Option Shape
end_row_if b s = if b then end_row s else some s

-- Does another character than a space follow?
abbrev pub more_follows : List ℕ → Bool
more_follows [] = false
more_follows (x ∷ s) = not (is_space x)

abbrev pub refused_number : Number → Bool
refused_number n = n.out_of_range || (more_follows n.end || (n.negative || n.overflow))

-- One more column, and the text behind the number.
abbrev pub count_number : Shape → Option Number → Option (Shape × List ℕ)
count_number s none = none
count_number s (some n) =
    if refused_number n then none else some (record s { tmp_cols = s.tmp_cols + 1 }, n.end)

abbrev pub with_text : List ℕ → Option Shape → Option (Shape × List ℕ)
with_text t none = none
with_text t (some s) = some (s, t)

-- How a pass ends; `endless` is that it does not.
pub data Pass {ℓ} (A : Type ℓ) : Type ℓ where
  refused endless : Pass A
  passed : A → Pass A

-- Behind the first loop.
abbrev pub last_row : Option Shape → Pass Shape
last_row none = refused
last_row (some s) = passed s

-- One round of the second loop with a number, and the rest of the loop.
abbrev pub put : ℕ → Pass (List ℕ) → Pass (List ℕ)
put v refused = refused
put v endless = endless
put v (passed vs) = passed (aligned v ∷ vs)

-- The tests between the passes.
abbrev pub is_square : Shape → Bool
is_square s = not (s.rows == 0) && s.rows == s.cols

abbrev pub matrix_of : ℕ → Pass (List ℕ) → Pass (ℕ × List ℕ)
matrix_of rows refused = refused
matrix_of rows endless = endless
matrix_of rows (passed vs) = passed (rows, vs)

abbrev pub no_rows : Shape
no_rows = record { rows = 0; cols = 0; tmp_cols = 0 }

abbrev pub matrix_pattern : (nranks : ℕ) → Pass (ℕ × List ℕ) → Option Pattern
matrix_pattern nranks refused = none
matrix_pattern nranks endless = none
matrix_pattern nranks (passed (dim, vs)) =
    if ltb dim nranks then none else some (traffic_matrix dim vs)

module _ (strtod : List ℕ → Option Number) where
  -- One round of the first loop, at a character and the text behind it.
  abbrev pub count_step : Shape → ℕ → List ℕ → Option (Shape × List ℕ)
  count_step s x t =
      if is_space x
      then with_text t (end_row_if (x == 10 && ltb 0 s.tmp_cols) s)
      else count_number s (strtod (x ∷ t))

  -- The first pass, with `fuel` tests of its condition.
  abbrev pub first_pass : (fuel : ℕ) → Shape → List ℕ → Pass Shape
  first_pass zero s t = endless
  first_pass (suc fuel) s [] = last_row (end_row_if (ltb 0 s.tmp_cols) s)
  first_pass (suc fuel) s (x ∷ t) = elim (count_step s x t) [
    | none ↦ refused
    | some (s', t') ↦ first_pass fuel s' t'
  ]

  -- The second pass; `k` values are in the matrix.
  abbrev pub second_pass : (fuel n_elts k : ℕ) → List ℕ → Pass (List ℕ)
  second_pass zero n_elts k t = endless
  second_pass (suc fuel) n_elts k [] = if k == n_elts then passed [] else refused
  second_pass (suc fuel) n_elts k (x ∷ t) = elim (is_space x) [
    | true ↦ second_pass fuel n_elts k t
    | false ↦ elim (leb n_elts k) [
      | true ↦ refused
      | false ↦ elim (strtod (x ∷ t)) [
        | none ↦ refused
        | some n ↦ put n.scaled (second_pass fuel n_elts (k + 1) n.end)
      ]
    ]
  ]

  abbrev pub between : (fuel : ℕ) → List ℕ → Pass Shape → Pass (ℕ × List ℕ)
  between fuel t refused = refused
  between fuel t endless = endless
  between fuel t (passed s) =
      if is_square s then matrix_of s.rows (second_pass fuel (s.rows * s.cols) 0 t) else refused

  -- `AlltoAllvReadTrafficMatrix`: the dimension and the values. The text ends before the first NUL.
  unfoldable pub read_traffic_matrix : Option (List ℕ) → Pass (ℕ × List ℕ)
  read_traffic_matrix none = refused
  read_traffic_matrix (some t) = between (suc (length t)) t (first_pass (suc (length t)) no_rows t)

  -- `AlltoAllvInit`, when it is called first; `file` is the matrix that the environment names. `none`
  -- sets the error flag.
  unfoldable pub init :
      (weight : ℕ → ℕ → ℕ → ℕ) (file : Option (Option (List ℕ))) (nranks : ℕ) → Option Pattern
  unfolding read_traffic_matrix
  init weight none nranks = some (generated weight)
  init weight (some file) nranks = matrix_pattern nranks (read_traffic_matrix file)
