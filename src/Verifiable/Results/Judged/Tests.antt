-- ===== src/Verifiable/Results/Judged/Tests.antt =====
-- Three ranks that add up bytes, and 100 elements that come out as they should.
use mathlib.Core.List.{Permᴰ}
use nccl_tests.Prelude.{ℕ, ◌+◌, ◌<◌, ◌≡◌, ◌↔◌, refl, arith}
use nccl_tests.Verifiable.Integers.{int8, sum, reduce, post_op, prepared_input}
use nccl_tests.Verifiable.Integers.Trees.{Tree, of_rank, both, reduced, ranks, ranks_from}
use nccl_tests.Verifiable.Results.{verify_inline}
use nccl_tests.Verifiable.Results.Judged.{verify_inline_iff}

abbrev ring : Tree
ring = both (both (of_rank 1) (of_rank 0)) (of_rank 2)

abbrev outcome : ℕ → ℕ
outcome i =
    post_op int8 sum 3 (reduced (reduce int8 sum) (prepared_input int8 sum 11 (200 + i)) ring)

swapped : Permᴰ (ranks ring) (ranks_from 3 0)
swapped = Permᴰ.swap refl refl

verify_inline_iff_example : (verify_inline int8 sum 3 11 200 outcome 100 ≡ 0) ↔ (
    (i : ℕ)
    → i < 100
    → outcome i
      ≡ post_op int8 sum 3 (reduced (reduce int8 sum) (prepared_input int8 sum 11 (200 + i)) ring))
verify_inline_iff_example =
    verify_inline_iff int8 sum 3 11 200 outcome 100 (λ i. ring) refl (omega arith) (omega arith)
      (λ i. swapped)
