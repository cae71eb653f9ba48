-- ===== src/Verifiable/Shuffle/Tests.antt =====
-- Five ranks, shuffled as in verifiable/verifiable.cu.
use nccl_tests.Prelude.{◌≡◌, refl, [], ◌∷◌, map, arith}
use nccl_tests.Prelude.Sums.{count_to}
use nccl_tests.Verifiable.Words.{clz32, bit_length}
use nccl_tests.Verifiable.Shuffle.{
  shuffle_rank, largest_mask, first_round, second_round, shuffle_bottom,
}
use nccl_tests.Verifiable.Shuffle.Count.{shuffle_rank_once}

shuffled_five :
    map (λ r. shuffle_rank 5 r 0x123456789abcdef) (0 ∷ 1 ∷ 2 ∷ 3 ∷ 4 ∷ []) ≡ 0 ∷ 4 ∷ 1 ∷ 3 ∷ 2 ∷ []
unfolding shuffle_rank largest_mask first_round second_round shuffle_bottom clz32 bit_length
shuffled_five = refl

shuffle_rank_once_example : count_to (λ r. shuffle_rank 5 r 0x123456789abcdef) 5 3 ≡ 1
shuffle_rank_once_example = shuffle_rank_once 5 0x123456789abcdef 3 (omega arith) (omega arith)
