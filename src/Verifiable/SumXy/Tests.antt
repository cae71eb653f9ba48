-- ===== src/Verifiable/SumXy/Tests.antt =====
-- Five ranks that submit 200 in all, and more ranks than there is to submit.
use nccl_tests.Prelude.{
  ℕ, ◌+◌, ◌/◌, ◌≤◌, ◌<◌, ◌≡◌, ◌↔◌, refl, true, none, some, [], ◌∷◌, map, arith,
}
use nccl_tests.Prelude.Sums.{sum}
use nccl_tests.Verifiable.SumXy.{
  uint32, bounded, choose_y, contribution, partitions, partition_sum, ranks_per_partition,
  submit_with, submitted,
}
use nccl_tests.Verifiable.SumXy.Total.{contribution-total}
use nccl_tests.Verifiable.SumXy.Chosen.{choose_y-avoids, contribution-fails}

five :
    map (λ r. contribution uint32 255 5 r 200) (0 ∷ 1 ∷ 2 ∷ 3 ∷ 4 ∷ [])
    ≡ some 1 ∷ some 2 ∷ some 3 ∷ some 4 ∷ some 190 ∷ []
unfolding contribution partitions partition_sum ranks_per_partition submit_with submitted
five = refl

contribution-total_example :
    (x : ℕ → ℕ) × ((r : ℕ) → contribution uint32 255 5 r 200 ≡ some (x r)) × (sum x 5 ≡ 200)
contribution-total_example =
    contribution-total uint32 255 5 200 (omega arith) (omega arith) (omega arith) (omega arith)
      (omega arith)

-- The largest random number brings the sum to avoid back.
not_avoided : choose_y uint32 0xffffffff 255 200 true ≡ 200
unfolding choose_y
not_avoided = refl

choose_y-avoids_example :
    ((255 + 1) / 2 ≤ choose_y uint32 0xffffffff 255 200 true)
    × (choose_y uint32 0xffffffff 255 200 true ≤ 255)
    × ((choose_y uint32 0xffffffff 255 200 true ≡ 200)
        ↔ ((bounded uint32 0xffffffff (255 / 2) + 1 ≡ 255 / 2) × ((255 + 1) / 2 < 200)))
choose_y-avoids_example =
    choose_y-avoids uint32 0xffffffff 255 200 (omega arith) (omega arith) (omega arith)
      (omega arith) (omega arith)

contribution-fails_example : contribution uint32 15 9 4 8 ≡ none
contribution-fails_example =
    contribution-fails uint32 15 9 4 8 (omega arith) (omega arith) (omega arith)
