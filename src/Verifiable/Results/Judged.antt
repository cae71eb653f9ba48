-- ===== src/Verifiable/Results/Judged.antt =====
-- The judgement on integers in verifiable/verifiable.cu: no wrong elements are found exactly where each element is a
-- reduction of the ranks' inputs.
mod Tests
use mathlib.Core.List.{Permᴰ}
use nccl_tests.Prelude.{
  ℕ, zero, suc, ◌+◌, ◌^◌, ◌<◌, ◌≤◌, ◌≡◌, ◌∙◌, ◌↔◌, inl, inr, refl, sym, ap, arith, Bool, true,
  false, ltb, ◌==◌, if◌then◌else◌, Bool-cases,
}
use nccl_tests.Prelude.Sums.{sum, sum_same, sum_zero, term-le-sum}
use nccl_tests.Verifiable.Kernels.{is_bad, delta}
use nccl_tests.Verifiable.Kernels.Verify.{verify-counts}
use nccl_tests.Verifiable.Integers.{Integer, Reduction, reduce, post_op, prepared_input, gen_output}
use nccl_tests.Verifiable.Integers.Laws.{is_copy}
use nccl_tests.Verifiable.Integers.Trees.{Tree, reduced, ranks, ranks_from}
use nccl_tests.Verifiable.Integers.Order.{gen_output-any_order}
use nccl_tests.Verifiable.Results.{reduction_for, verify_inline}

is_bad_same : (a b : ℕ) → a ≡ b → is_bad 0 a b ≡ 0
is_bad_same a b e = ground arith

same_not_bad : (a b : ℕ) → is_bad 0 a b ≡ 0 → a ≡ b
same_not_bad a b e = ground arith

-- What the results are to be, one by one.
module _ (results expected : ℕ → ℕ) (n : ℕ) where
  none_bad :
      ((i : ℕ) → i < n → results i ≡ expected i)
      → sum (λ i. is_bad 0 (results i) (expected i)) n ≡ 0
  none_bad h =
      sum_same (λ i. is_bad 0 (results i) (expected i)) (λ i. 0) n
        (λ i l. is_bad_same (results i) (expected i) (h i l))
      ∙ sum_zero n

  all_same :
      sum (λ i. is_bad 0 (results i) (expected i)) n ≡ 0 → (i : ℕ) → i < n → results i ≡ expected i
  all_same e i l =
      let term = term-le-sum (λ i. is_bad 0 (results i) (expected i)) n i l in
      same_not_bad (results i) (expected i) (omega arith)

-- With integers of any type, two ranks or more, fewer than 2^63 elements, any reduction but the
-- copy, and for each element any tree whose leaves are the ranks in any order: the verification
-- finds no wrong element exactly when each element is what that tree, followed by the step after
-- the reduction, makes of the inputs that the ranks prepared for it.
pub verify_inline_iff :
    (t : Integer) (op : Reduction) (rank_n seed elt_ix0 : ℕ) (results : ℕ → ℕ) (elt_n : ℕ)
    (tree : ℕ → Tree)
    → is_copy op ≡ false
    → 2 ≤ rank_n
    → elt_n < 2 ^ 63
    → ((i : ℕ) → Permᴰ (ranks (tree i)) (ranks_from rank_n 0))
    → (verify_inline t op rank_n seed elt_ix0 results elt_n ≡ 0) ↔ (
        (i : ℕ)
        → i < elt_n
        → results i
          ≡ post_op t op rank_n
              (reduced (reduce t op) (prepared_input t op seed (elt_ix0 + i)) (tree i)))
unfolding verify_inline
verify_inline_iff t op rank_n seed elt_ix0 results elt_n tree real two few whole =
    let several : reduction_for rank_n op ≡ op =
      let more : (rank_n == 1) ≡ false = ground arith in rw more refl in
    let expected = λ (i : ℕ). gen_output t (reduction_for rank_n op) rank_n seed (elt_ix0 + i) in
    let reduction : (i : ℕ)
        → post_op t op rank_n
            (reduced (reduce t op) (prepared_input t op seed (elt_ix0 + i)) (tree i))
          ≡ expected i =
      λ i.
        gen_output-any_order t op rank_n seed (elt_ix0 + i) (tree i) real (omega arith) (whole i)
        ∙ ap (λ o. gen_output t o rank_n seed (elt_ix0 + i)) (sym several) in
    let counted = verify-counts results expected 0 elt_n few in
    (
      λ e i l. all_same results expected elt_n (sym counted ∙ e) i l ∙ sym (reduction i),
      λ h. counted ∙ none_bad results expected elt_n (λ i l. h i l ∙ reduction i),
    )
