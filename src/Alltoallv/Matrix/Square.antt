-- ===== src/Alltoallv/Matrix/Square.antt =====
-- How `AlltoAllvReadTrafficMatrix` of src/alltoallv.cu ends.
use nccl_tests.Prelude.{
  ℕ, suc, ◌*◌, ◌<◌, Bool, true, false, Option, none, some, List, length, if◌then◌else◌, ◌≡◌, refl,
  sym, ap, subst, ◌∙◌, arith,
}
use nccl_tests.Alltoallv.Matrix.{
  Number, Shape, Pass, refused, passed, first_pass, second_pass, is_square, matrix_of, between,
  no_rows, read_traffic_matrix,
}
use nccl_tests.Alltoallv.Matrix.Passes.{Ends, first_refuses, both_pass, first_pass-Ends}

-- How `AlltoAllvReadTrafficMatrix` ends.
pub data Read (strtod : List ℕ → Option Number) : Option (List ℕ) → Pass (ℕ × List ℕ) → Type 0 where
  unread : Read strtod none refused
  malformed :
      (t : List ℕ)
      → first_pass strtod (suc (length t)) no_rows t ≡ refused
      → Read strtod (some t) refused
  not_square :
      (t : List ℕ) (s : Shape)
      → first_pass strtod (suc (length t)) no_rows t ≡ passed s
      → is_square s ≡ false
      → Read strtod (some t) refused
  read :
      (t : List ℕ) (s : Shape) (vs : List ℕ)
      → first_pass strtod (suc (length t)) no_rows t ≡ passed s
      → is_square s ≡ true
      → length vs ≡ s.rows * s.rows
      → Read strtod (some t) (passed (s.rows, vs))

-- If `strtod` leaves less than it is given, `AlltoAllvReadTrafficMatrix` ends for every file: it refuses
-- a file that it cannot read, one that the first pass refuses and one that is not square, and of any
-- other it gives a matrix with as many values as the square of the rows that the first pass counts, so
-- that the second pass refuses nothing and neither pass runs on.
pub read_traffic_matrix-Read :
    (strtod : List ℕ → Option Number)
    → ((t : List ℕ) (n : Number) → strtod t ≡ some n → length n.end < length t)
    → (file : Option (List ℕ)) → Read strtod file (read_traffic_matrix strtod file)
unfolding read_traffic_matrix
read_traffic_matrix-Read strtod shrinks none = unread
read_traffic_matrix-Read strtod shrinks (some t) =
    go refl
      (first_pass-Ends strtod shrinks (suc (length t)) 0 no_rows t (omega arith) (omega arith))
  where
    second :
        (s : Shape) (vs : List ℕ)
        → first_pass strtod (suc (length t)) no_rows t ≡ passed s
        → length vs ≡ s.rows * s.cols
        → second_pass strtod (suc (length t)) (s.rows * s.cols) 0 t ≡ passed vs
        → (b : Bool) → is_square s ≡ b
        → Read strtod (some t) (
            if b
            then matrix_of s.rows (second_pass strtod (suc (length t)) (s.rows * s.cols) 0 t)
            else refused)
    second s vs e l q false h = not_square t s e h
    second s vs e l q true h =
        let rows : s.rows ≡ s.cols = ground arith in
        let square : length vs ≡ s.rows * s.rows = l ∙ ap (λ x. s.rows * x) (sym rows) in
        subst (λ r. Read strtod (some t) (matrix_of s.rows r)) (sym q) (read t s vs e h square)

    go :
        {r : Pass Shape}
        → first_pass strtod (suc (length t)) no_rows t ≡ r
        → Ends strtod shrinks 0 (suc (length t)) t r
        → Read strtod (some t) (between strtod (suc (length t)) t r)
    go e first_refuses = malformed t e
    go e (both_pass s vs z l q) = second s vs e (omega arith) q (is_square s) refl
