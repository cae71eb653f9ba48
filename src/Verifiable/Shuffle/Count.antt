-- ===== src/Verifiable/Shuffle/Count.antt =====
-- A sum over the ranks is the same over the shuffled ranks of verifiable/verifiable.cu.
use nccl_tests.Prelude.{ℕ, ◌^◌, ◌<◌, ◌≡◌}
use nccl_tests.Prelude.Sums.{sum, count_to, count_to_one, sum_permuted}
use nccl_tests.Verifiable.Shuffle.{shuffle_rank}
use nccl_tests.Verifiable.Shuffle.Bijective.{shuffle_rank-lt, shuffle_rank_injective}

-- For any number of ranks that an int holds and any random word, shuffleRank sends exactly one
-- rank to each rank.
pub shuffle_rank_once :
    (rank_n rng v : ℕ)
    → rank_n < 2 ^ 31
    → v < rank_n
    → count_to (λ r. shuffle_rank rank_n r rng) rank_n v ≡ 1
shuffle_rank_once rank_n rng v fits l =
    count_to_one (λ r. shuffle_rank rank_n r rng) rank_n
      (λ r m. shuffle_rank-lt rank_n r rng m fits)
      (λ r s m o e. shuffle_rank_injective rank_n r s rng m o fits e) v l

pub sum_shuffled :
    (rank_n rng : ℕ) (g : ℕ → ℕ)
    → rank_n < 2 ^ 31
    → sum (λ r. g (shuffle_rank rank_n r rng)) rank_n ≡ sum g rank_n
sum_shuffled rank_n rng g fits =
    sum_permuted (λ r. shuffle_rank rank_n r rng) rank_n
      (λ r m. shuffle_rank-lt rank_n r rng m fits)
      (λ r s m o e. shuffle_rank_injective rank_n r s rng m o fits e) g
