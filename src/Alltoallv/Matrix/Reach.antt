-- ===== src/Alltoallv/Matrix/Reach.antt =====
-- The accesses to the matrix that `AlltoAllvInit` of src/alltoallv.cu lets through.
use nccl_tests.Prelude.{
  ℕ, suc, ◌+◌, ◌*◌, ◌<◌, ◌≤◌, Bool, true, false, Option, none, some, List, length, get_elem?,
  get_elem?-eq-get_or, ltb, if◌then◌else◌, ◌≡◌, refl, subst, arith,
}
use native.Mathlib.Nat.{mul-le-mul_right, suc-mul}
use nccl_tests.Alltoallv.{Pattern, generated, traffic_matrix, peer_bytes}
use nccl_tests.Alltoallv.Matrix.{Number, Pass, matrix_pattern, init}
use nccl_tests.Alltoallv.Matrix.Square.{
  Read, unread, malformed, not_square, read, read_traffic_matrix-Read,
}

-- A matrix has a row and a column for each rank.
Covers : (nranks : ℕ) → Option Pattern → Type 0
Covers nranks none = Unit
Covers nranks (some (generated weight)) = Unit
Covers nranks (some (traffic_matrix dim vs)) = (nranks ≤ dim) × (length vs ≡ dim * dim)

module _ (strtod : List ℕ → Option Number) (nranks : ℕ) where
  matrix_pattern-Covers :
      {file : Option (List ℕ)} {r : Pass (ℕ × List ℕ)}
      → Read strtod file r
      → Covers nranks (matrix_pattern nranks r)
  unfolding Covers
  matrix_pattern-Covers unread = tt
  matrix_pattern-Covers (malformed t e) = tt
  matrix_pattern-Covers (not_square t s e h) = tt
  matrix_pattern-Covers (read t s vs e h l) = covers (ltb s.rows nranks) refl
    where
      covers :
          (b : Bool)
          → ltb s.rows nranks ≡ b
          → Covers nranks (if b then none else some (traffic_matrix s.rows vs))
      covers true k = tt
      covers false k = (ground arith, l)

cell : (dim i j n : ℕ) → i < n → j < n → n ≤ dim → i * dim + j < dim * dim
cell dim i j n h l k =
    let a : suc i * dim ≤ dim * dim = mul-le-mul_right dim (omega arith) in
    omega (arith, suc-mul i dim)

-- If `strtod` leaves less than it is given, then for a matrix that `AlltoAllvInit` has accepted for a
-- number of ranks, what `AlltoAllvGetPeerBytesFromMatrix` reads for any two of them stands in the
-- matrix.
pub init_in_matrix :
    (strtod : List ℕ → Option Number)
    → ((t : List ℕ) (n : Number) → strtod t ≡ some n → length n.end < length t)
    → (weight : ℕ → ℕ → ℕ → ℕ) (file : Option (List ℕ)) (nranks dim : ℕ) (vs : List ℕ)
      (i j total : ℕ)
    → init strtod weight (some file) nranks ≡ some (traffic_matrix dim vs)
    → i < nranks
    → j < nranks
    → get_elem? vs (i * dim + j) ≡ some (peer_bytes (traffic_matrix dim vs) i j nranks total)
unfolding init peer_bytes Covers
init_in_matrix strtod shrinks weight file nranks dim vs i j total e h l =
    let c : (nranks ≤ dim) × (length vs ≡ dim * dim) =
      subst (Covers nranks) e
        (matrix_pattern-Covers strtod nranks (read_traffic_matrix-Read strtod shrinks file)) in
    let d = cell dim i j nranks h l (c.0) in
    let m = c.1 in get_elem?-eq-get_or vs (i * dim + j) 0 (omega arith)
