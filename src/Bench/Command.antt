-- ===== src/Bench/Command.antt =====
-- `BenchTime` of src/common.cu with the options that `main` goes on with.
use nccl_tests.Prelude.{ℕ, ℤ, pos, negsuc, Bool, not}
use nccl_tests.Launch.{int_is}
use nccl_tests.Bench.{Config}
use nccl_tests.CommandLine.Options.{Options}

-- A count below zero is no round of a loop.
abbrev count_of : ℤ → ℕ
count_of (pos n) = n
count_of (negsuc n) = 0

-- The options that `BenchTime` reads; `premul` is that the operation is `mulsum`.
abbrev pub bench_config : (premul : Bool) → Options → Config
bench_config premul o = record {
  n_gpus = count_of o.n_gpus;
  premul = premul;
  blocking_coll = o.blocking_coll;
  warmup_iters = count_of o.warmup_iters;
  iters = count_of o.iters;
  agg_iters = count_of o.agg_iters;
  per_iter_timing = not (int_is o.per_iter_timing 0);
  graph_launches = count_of o.cuda_graph_launches;
  datacheck = count_of o.datacheck;
}
