-- ===== src/Bench/Captures.antt =====
-- The groups and the captures of `BenchTime` of src/common.cu.
use nccl_tests.Prelude.{ℕ, List, [], if◌then◌else◌}
use nccl_tests.Bench.{Config, graphs}
use nccl_tests.Bench.Allowed.{gpus_between}

-- The GPUs whose streams are captured while the graph is made.
abbrev captured : Config → List ℕ
captured c = if graphs c then gpus_between 0 c.n_gpus else []
