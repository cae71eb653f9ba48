-- ===== src/Verifiable/Results.antt =====
-- `ncclVerifiablePrepareInput` and `ncclVerifiableVerify` of verifiable/verifiable.cu for integers: what a test writes
-- before a collective, and how it judges the results.
pub mod Judged
use nccl_tests.Prelude.{ℕ, ◌+◌, ◌==◌, if◌then◌else◌, List}
use nccl_tests.Verifiable.Kernels.{written, verify}
use nccl_tests.Verifiable.Integers.{Integer, Reduction, copy, gen_input, gen_output}

-- A single rank copies, whatever the reduction.
abbrev pub reduction_for : (rank_n : ℕ) → Reduction → Reduction
reduction_for rank_n op = if rank_n == 1 then copy else op

-- The inputs of a rank, with the writes of the threads in the order in which they come.
unfoldable pub prepare_input :
    Integer
    → Reduction
    → (rank_n rank_me seed elt_ix0 : ℕ) → (writes : List ℕ) → (elts : ℕ → ℕ) → (ℕ → ℕ)
prepare_input t op rank_n rank_me seed elt_ix0 writes elts =
    written (λ i. gen_input t (reduction_for rank_n op) rank_me seed (elt_ix0 + i)) writes elts

-- The number of wrong elements, with the expected ones computed on the way. Integers have no tolerance.
unfoldable pub verify_inline :
    Integer → Reduction → (rank_n seed elt_ix0 : ℕ) → (results : ℕ → ℕ) → (elt_n : ℕ) → ℕ
verify_inline t op rank_n seed elt_ix0 results elt_n =
    verify results (λ i. gen_output t (reduction_for rank_n op) rank_n seed (elt_ix0 + i)) 0 elt_n
