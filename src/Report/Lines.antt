-- ===== src/Report/Lines.antt =====
-- The lines of results in the JSON report of src/util.cu.
use nccl_tests.Prelude.{
  ℕ, ◌-◌, ℤ, pos, negsuc, Bool, true, false, Option, none, some, List, [], ◌∷◌, ◌++◌, codes, length,
  replicate, if◌then◌else◌,
}
use nccl_tests.Json.Print.{Double, decimal_int}
use nccl_tests.Json.Writer.{
  Call, call_key, start_object, finish_object, start_list, finish_list, null, str, int, size_t,
  double,
}
use nccl_tests.Profiler.{Tuning}

abbrev pub pair : List ℕ → Call → List Call
pair name val = call_key name ∷ val ∷ []

-- `sprintf(rootName, "%6i", root)`.
abbrev pub root_name : ℤ → List ℕ
root_name root = let digits = decimal_int root in replicate (6 - length digits) 0x20 ++ digits

-- `writeBenchmarkLinePreamble`.
abbrev pub line_preamble :
    (write_json : Bool) (n_bytes n_elem : ℕ) (type_name op_name : List ℕ) (root : ℤ) → List Call
line_preamble false n_bytes n_elem type_name op_name root = []
line_preamble true n_bytes n_elem type_name op_name root =
    start_object
    ∷ call_key (codes "size")
    ∷ size_t n_bytes
    ∷ call_key (codes "count")
    ∷ size_t n_elem
    ∷ call_key (codes "type")
    ∷ str (some type_name)
    ∷ call_key (codes "redop")
    ∷ str (some op_name)
    ∷ call_key (codes "root")
    ∷ str (some (root_name root))
    ∷ []

abbrev pub int_or_na : ℤ → Call
int_or_na (pos n) = int (pos n)
int_or_na (negsuc n) = str (some (codes "N/A"))

abbrev pub chunk_or_na : Option ℤ → Call
chunk_or_na none = str (some (codes "N/A"))
chunk_or_na (some n) = int n

-- The object that `writeBenchmarkLineTerminator` writes under -U.
abbrev pub tuning_object : Tuning → List Call
tuning_object t =
    call_key (codes "tuning")
    ∷ start_object
    ∷ call_key (codes "implementation")
    ∷ str (some t.implementation)
    ∷ call_key (codes "algo")
    ∷ str (some t.algo)
    ∷ call_key (codes "proto")
    ∷ str (some t.proto)
    ∷ call_key (codes "kernelVariant")
    ∷ str (some t.kernel_variant)
    ∷ call_key (codes "syncStrategy")
    ∷ str (some t.sync_strategy)
    ∷ call_key (codes "#channels")
    ∷ int_or_na t.n_channels
    ∷ call_key (codes "#warps")
    ∷ int_or_na t.n_warps
    ∷ call_key (codes "netChunkSize")
    ∷ chunk_or_na t.net_chunk_size
    ∷ finish_object
    ∷ []

-- `writeBenchmarkLineTerminator`.
abbrev pub line_terminator :
    (write_json tuning : Bool) → Tuning → (actual_iters : ℤ) (name : List ℕ) → List Call
line_terminator false tuning t actual_iters name = []
line_terminator true tuning t actual_iters name =
    (if tuning then tuning_object t else [])
    ++ call_key (codes "actual_iterations")
      ∷ int actual_iters
      ∷ call_key (codes "experiment_name")
      ∷ str (some name)
      ∷ finish_object
      ∷ []

-- `writeBenchMarkLineNullBody`.
abbrev pub line_null_body : (write_json : Bool) → List Call
line_null_body false = []
line_null_body true = pair (codes "out_of_place") null

-- `writeBenchmarkLineBody`; `none` for the count of wrong elements if errors are not reported.
abbrev pub line_body :
    (write_json : Bool) (time_usec alg_bw bus_bw : Double) (n_wrong : Option Double)
    → (report_cputime out_of_place : Bool) → List Call
line_body false time_usec alg_bw bus_bw n_wrong report_cputime out_of_place = []
line_body true time_usec alg_bw bus_bw n_wrong report_cputime out_of_place =
    call_key (if out_of_place then codes "out_of_place" else codes "in_place")
    ∷ start_object
    ∷ call_key (if report_cputime then codes "cpu_time" else codes "time")
    ∷ double time_usec
    ∷ call_key (codes "alg_bw")
    ∷ double alg_bw
    ∷ call_key (codes "bus_bw")
    ∷ double bus_bw
    ∷ call_key (codes "nwrong")
    ∷ elim n_wrong [ none ↦ null | some d ↦ double d ]
    ∷ finish_object
    ∷ []

-- The statistics that a per-iteration report writes, in microseconds and per cent.
pub record IterReport : Type 0 where
  pub min_us : Double
  pub max_us : Double
  pub avg_us : Double
  pub p50_us : Double
  pub p95_us : Double
  pub p99_us : Double
  pub stdev_us : Double
  pub cv_pct : Double

abbrev pub doubles : List Double → List Call
doubles [] = []
doubles (d ∷ ds) = double d ∷ doubles ds

-- One list of times for each process.
abbrev pub rows : List (List Double) → List Call
rows [] = []
rows (r ∷ rs) = (start_list ∷ doubles r ++ finish_list ∷ []) ++ rows rs

abbrev pub per_iter_head : (out_of_place : Bool) (skipped : ℤ) → IterReport → List Call
per_iter_head out_of_place skipped r =
    call_key (if out_of_place then codes "out_of_place_per_iter" else codes "in_place_per_iter")
    ∷ start_object
    ∷ call_key (codes "skipped_iterations")
    ∷ int skipped
    ∷ call_key (codes "min_us")
    ∷ double r.min_us
    ∷ call_key (codes "max_us")
    ∷ double r.max_us
    ∷ call_key (codes "avg_us")
    ∷ double r.avg_us
    ∷ call_key (codes "p50_us")
    ∷ double r.p50_us
    ∷ call_key (codes "p95_us")
    ∷ double r.p95_us
    ∷ call_key (codes "p99_us")
    ∷ double r.p99_us
    ∷ call_key (codes "stdev_us")
    ∷ double r.stdev_us
    ∷ call_key (codes "cv_pct")
    ∷ double r.cv_pct
    ∷ call_key (codes "times_us")
    ∷ []

-- The rows of all processes; `none` where there is one process or this one does not hold them.
abbrev pub process_rows : Option (List (List Double)) → List Call
process_rows none = []
process_rows (some rs) =
    call_key (codes "per_process_max_times_us") ∷ (start_list ∷ rows rs ++ finish_list ∷ [])

-- `writePerIterReport`.
abbrev pub per_iter_report :
    (write_json out_of_place : Bool) (skipped : ℤ)
    → IterReport
    → (times : List Double) → (all_processes : Option (List (List Double))) → List Call
per_iter_report false out_of_place skipped r times all_processes = []
per_iter_report true out_of_place skipped r times all_processes =
    per_iter_head out_of_place skipped r
    ++ ((start_list ∷ doubles times ++ finish_list ∷ [])
        ++ (process_rows all_processes ++ finish_object ∷ []))
