-- ===== src/Verifiable/Kernels/Tests.antt =====
-- 5000 elements of which one is wrong, and three elements that two threads write in some order.
use nccl_tests.Prelude.{ℕ, ◌+◌, ◌≡◌, ltb, ◌==◌, if◌then◌else◌, [], ◌∷◌, arith}
use nccl_tests.Prelude.Sums.{sum, same}
use nccl_tests.Verifiable.Kernels.{is_bad, verify, written, thread_elements, rounds}
use nccl_tests.Verifiable.Kernels.Cover.{over}
use nccl_tests.Verifiable.Kernels.Verify.{verify-counts, prepared}

abbrev one_wrong : ℕ → ℕ
one_wrong i = if i == 7 then 4 else 1

verify-counts_example : verify one_wrong (λ i. 1) 2 5000 ≡ sum (λ i. is_bad 2 (one_wrong i) 1) 5000
verify-counts_example = verify-counts one_wrong (λ i. 1) 2 5000 (omega arith)

mixed :
    (i : ℕ)
    → over (λ j. same i j) (1 ∷ 0 ∷ 2 ∷ [])
      ≡ sum (λ block. sum (λ thread. over (λ j. same i j) (thread_elements 3 1 2 block thread)) 2) 1
unfolding thread_elements rounds
mixed i = omega arith

prepared_example :
    written (λ i. i + 100) (1 ∷ 0 ∷ 2 ∷ []) (λ i. 0) 2 ≡ (if ltb 2 3 then 2 + 100 else 0)
prepared_example =
    prepared (λ i. i + 100) (λ i. 0) 3 1 2 (1 ∷ 0 ∷ 2 ∷ []) (omega arith) (omega arith) mixed 2
