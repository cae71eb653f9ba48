-- ===== src/Report/Tests.antt =====
-- The report of src/util.cu for a run of one line.
use nccl_tests.Prelude.{
  ℕ, pos, ◌≡◌, refl, Bool, true, false, none, some, [], ◌∷◌, codes, append-nil, arith,
}
use nccl_tests.Json.Print.{finite}
use nccl_tests.Json.State.{Writer}
use nccl_tests.Json.Writer.{start_object, perform_all}
use nccl_tests.Json.Document.Valid.{AllWriteJson}
use nccl_tests.Json.Finish.{fresh}
use nccl_tests.Report.{Config}
use nccl_tests.Report.Session.{Bench, Line, Session, session_calls, json_output_finalize}
use nccl_tests.Report.Session.Complete.{Finalized, session-Finalized}
use nccl_tests.Profiler.{Tuning}

abbrev always : ℕ → Bool
always n = true

abbrev bench : Bench
bench = record {
  time_usec = finite false 12000000;
  alg_bw = finite false 1500000;
  bus_bw = finite false 1500000;
  n_wrong = none;
  per_iter = none;
}

abbrev tuning_unknown : Tuning
tuning_unknown = record {
  implementation = codes "N/A";
  algo = codes "N/A";
  proto = codes "N/A";
  kernel_variant = codes "N/A";
  sync_strategy = codes "N/A";
  n_channels = pos 0;
  n_warps = pos 0;
  net_chunk_size = none;
}

abbrev line : Line
line = record {
  n_bytes = 32;
  n_elem = 8;
  type_name = codes "float";
  op_name = codes "sum";
  root = pos 0;
  out_of_place = bench;
  in_place = bench;
  task = tuning_unknown;
  iters = pos 20;
}

abbrev config : Config
config = record {
  n_threads = pos 1;
  n_gpus = pos 1;
  min_bytes = 32;
  max_bytes = 32;
  step_bytes = 0;
  step_factor = 2;
  warmup_iters = pos 1;
  iters = pos 20;
  agg_iters = pos 1;
  datacheck = pos 1;
  cuda_graph_launches = pos 0;
  blocking_coll = false;
  per_iter_timing = false;
  per_iter_skip = pos 0;
  parallel_init = false;
}

abbrev session : Session
session = record {
  start_time = codes "now";
  argv = codes "all_reduce_perf" ∷ [];
  envp = [];
  nccl_version = pos 22807;
  config = config;
  found = true;
  ranks = [];
  report_cputime = false;
  tuning = true;
  lines = line ∷ [];
  errors = pos 0;
  bw = finite false 1500000;
  no_errors = true;
  unchecked = true;
  fast = false;
  last_error = none;
}

session-json : AllWriteJson (session_calls session)
session-json = ground arith

session-Finalized_example :
    (w : Writer) × (perform_all (start_object ∷ session_calls session) (fresh always) ≡ some w)
    × Finalized 1 (json_output_finalize true (codes "later") w)
session-Finalized_example =
    session-Finalized session (session_calls session) [] (codes "later") always (λ n. refl)
      (append-nil (session_calls session)) session-json
