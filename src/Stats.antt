-- ===== src/Stats.antt =====
-- The statistics of per-iteration times: `percentileIndex` and `computeIterStats` of src/util.cu. A time
-- is a count of some unit. The mean and the deviation, which are floating-point sums, are left out.
pub mod Order
mod Tests
use nccl_tests.Prelude.{
  ℕ, zero, suc, ◌+◌, ◌-◌, ◌*◌, ◌/◌, ◌^◌, min, Bool, true, false, ◌&&◌, Option, none, some, List, [],
  ◌∷◌, length, get_or, ltb, leb, if◌then◌else◌,
}

-- `struct IterStats`, its order statistics.
pub record IterStats : Type 0 where
  pub min_time : ℕ
  pub max_time : ℕ
  pub p50 : ℕ
  pub p95 : ℕ
  pub p99 : ℕ

-- `percentileIndex`, for `n` above zero. All of its `int` values are below `n * percentile + 100`.
abbrev pub percentile_index : (n percentile : ℕ) → ℕ
percentile_index n percentile = min (n - 1) ((n * percentile + 99) / 100 - 1)

-- `computeIterStats`. `none` is undefined behaviour: an empty array, or an overflow of `int`.
unfoldable pub compute_iter_stats : (qsort : List ℕ → List ℕ) (times : List ℕ) → Option IterStats
compute_iter_stats qsort times =
    let n = length times in
    let sorted = qsort times in
    if ltb 0 n && ltb (n * 99 + 99) (2 ^ 31)
    then some (record {
      min_time = get_or sorted 0 0;
      max_time = get_or sorted (n - 1) 0;
      p50 = get_or sorted (n / 2) 0;
      p95 = get_or sorted (percentile_index n 95) 0;
      p99 = get_or sorted (percentile_index n 99) 0;
    })
    else none
