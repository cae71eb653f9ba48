-- ===== src/Verifiable/Shuffle.antt =====
-- `shuffleRank` of verifiable/verifiable.cu: the ranks in a random order, the same on every rank.
pub mod Numbers
pub mod Bottom
pub mod Bijective
pub mod Count
mod Tests
use Prim.Native.Nat.{bit_and, bit_or}
use nccl_tests.Prelude.{ℕ, ◌+◌, ◌-◌, ◌*◌, ◌/◌, ◌%◌, ◌^◌, Bool, leb, if◌then◌else◌}
use nccl_tests.Verifiable.Words.{u32, u64, clz32, mix_bits}

-- `n2`: `rank_n` rounded down to a power of two, less 1.
unfoldable pub largest_mask : (rank_n : ℕ) → ℕ
largest_mask rank_n = (2 ^ 32 - 1) / 2 / 2 ^ clz32 rank_n

-- One shuffle of the bottom `n2` + 1 ranks: a line of odd slope, then a triangular number.
unfoldable pub shuffle_bottom : (n2 slope offset r : ℕ) → ℕ
shuffle_bottom n2 slope offset r =
    let line = bit_and (u32 (u32 (r * bit_or slope 1) + offset)) n2 in
    bit_and (u32 (u32 (line * line) + line) / 2) n2

-- The first round: the bottom is shuffled and goes to the top, the top goes to the bottom.
unfoldable pub first_round : (rank_n n2 a b r : ℕ) → ℕ
first_round rank_n n2 a b r =
    if leb r n2
    then u32 (shuffle_bottom n2 a b r + u32 (rank_n + 2 ^ 32 - u32 (n2 + 1)))
    else u32 (r + 2 ^ 32 - u32 (n2 + 1))

-- The second round: the bottom is shuffled again, with the words the other way round.
unfoldable pub second_round : (n2 a b r : ℕ) → ℕ
second_round n2 a b r = if leb r n2 then shuffle_bottom n2 b a r else r

-- The rank that `shuffleRank` returns; `rng` becomes `mix_bits rng`.
unfoldable pub shuffle_rank : (rank_n rank_me rng : ℕ) → ℕ
shuffle_rank rank_n rank_me rng =
    let a = u32 rng in
    let b = u32 (rng / 2 ^ 32) in
    let n2 = largest_mask rank_n in second_round n2 a b (first_round rank_n n2 a b (u32 rank_me))
