-- ===== src/Verifiable/SumXy.antt =====
-- `genSumXY` of verifiable/verifiable.cu: what each rank submits and what that adds up to. `none` is a
-- division by zero, which C++ leaves undefined.
pub mod Partitions
pub mod Total
pub mod Chosen
mod Tests
use nccl_tests.Prelude.{
  ℕ, zero, suc, ◌+◌, ◌-◌, ◌*◌, ◌/◌, ◌%◌, ◌^◌, Bool, true, false, ◌&&◌, ◌||◌, Option, none, some,
  ◌==◌, ltb, leb, min, if◌then◌else◌,
}
use nccl_tests.Verifiable.Words.{u32, umul32hi, umul64hi, mix_bits}

-- `Uint`, `uint32_t` or `uint64_t`.
pub data Uint : Type 0 where
  uint32 uint64 : Uint

abbrev pub modulus : Uint → ℕ
modulus uint32 = 2 ^ 32
modulus uint64 = 2 ^ 64

-- A random number below `bound`.
abbrev pub bounded : Uint → (rng bound : ℕ) → ℕ
bounded uint32 rng bound = umul32hi (u32 rng) bound
bounded uint64 rng bound = umul64hi rng bound

-- The sum that is aimed at, between half of `y_max` and all of it; `y` is the one to avoid.
unfoldable pub choose_y : Uint → (rng y_max y : ℕ) → (avoid_y : Bool) → ℕ
choose_y u rng y_max y avoid_y =
    let y_min = (y_max + 1) % modulus u / 2 in
    let d = bounded u rng (y_max / 2 + (if avoid_y then 0 else 1)) in
    let y1 = ((if avoid_y then y + 1 else y_min) + d) % modulus u in
    (y1 + modulus u - (if avoid_y && (ltb y1 y_min || ltb y_max y1) then y_max / 2 else 0))
    % modulus u

-- `pn`, the number of partitions: one for each size of a contribution.
unfoldable pub partitions : Uint → (rn y : ℕ) → ℕ
partitions u rn y =
    let aimed = if rn == 1 then 1 else (2 * (y / rn) + modulus u - 1) % modulus u in
    let one_at_least = if aimed == 0 then 1 else aimed in
    if ltb rn one_at_least then rn else one_at_least

-- `p_sum`, what a rank of each partition submits in all.
unfoldable pub partition_sum : (y_max pn : ℕ) → ℕ
partition_sum y_max pn =
    if leb y_max (2 ^ 31 - 1)
    then u32 (u32 pn * u32 (pn + 1)) / 2
    else pn * ((pn + 1) % 2 ^ 64) % 2 ^ 64 / 2

-- `s`, the number of ranks in a partition.
unfoldable pub ranks_per_partition : (rn y pn p_sum : ℕ) → Option ℕ
ranks_per_partition rn y pn zero = none
ranks_per_partition rn y pn (suc p) =
    some (u32 (if ltb (y / suc p) (rn / pn) then y / suc p else rn / pn))

-- `x`: 1 more than the index of the rank's partition, and for the last rank what is missing.
unfoldable pub submitted : Uint → (rn r y pn p_sum s : ℕ) → Option ℕ
submitted u rn r y pn p_sum zero = none
submitted u rn r y pn p_sum (suc s) = some (
    ((if ltb (r / suc s) pn then 1 + r / suc s else 0)
      + (if r == rn - 1 then (y + modulus u - suc s * p_sum % modulus u) % modulus u else 0))
    % modulus u)

unfoldable pub submit_with : Uint → (rn r y pn p_sum : ℕ) → Option ℕ → Option ℕ
submit_with u rn r y pn p_sum none = none
submit_with u rn r y pn p_sum (some s) = submitted u rn r y pn p_sum s

-- The contribution of rank `r` of `rn` to `y`.
unfoldable pub contribution : Uint → (y_max rn r y : ℕ) → Option ℕ
contribution u y_max rn r y =
    let pn = partitions u rn y in
    let p_sum = partition_sum y_max pn in
    submit_with u rn r y pn p_sum (ranks_per_partition rn y pn p_sum)

-- `genSumXY`: `x` and `y`; the generator is mixed once.
unfoldable pub gen_sum_xy :
    Uint → (rank_n rank_me rng y_max y : ℕ) → (avoid_y : Bool) → Option ℕ × ℕ
gen_sum_xy u rank_n rank_me rng y_max y avoid_y =
    let chosen = choose_y u rng y_max y avoid_y in
    (contribution u y_max rank_n rank_me chosen, chosen)
