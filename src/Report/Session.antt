-- ===== src/Report/Session.antt =====
-- A whole run as the JSON report sees it: `main`, `run`, `TimeTest` and `BenchTime` of src/common.cu call
-- the reporting functions of src/util.cu in this order, on the thread that writes the report.
pub mod Complete
use nccl_tests.Prelude.{
  ℕ, ℤ, Bool, true, false, Option, none, some, List, [], ◌∷◌, ◌++◌, codes, if◌then◌else◌, length,
  ◌==◌, ◌&&◌,
}
use nccl_tests.Json.Print.{Double}
use nccl_tests.Json.State.{
  JsonState, json_none, key, object_empty, object_some, list_empty, list_some, Writer, M, ◌>>◌,
  json_curr_state,
}
use nccl_tests.Json.Writer.{Call, start_object, str, perform_all, finish_all}
use nccl_tests.Report.{
  RankInfo, Config, output_init, device_report_config, device_report_devices, result_header,
  result_footer, write_errors,
}
use nccl_tests.Report.Lines.{
  pair, line_preamble, line_body, line_terminator, per_iter_report, IterReport,
}
use nccl_tests.Profiler.{Tuning}

-- What one call of `BenchTime` reports; the last part only with per-iteration timing.
pub record Bench : Type 0 where
  pub time_usec : Double
  pub alg_bw : Double
  pub bus_bw : Double
  pub n_wrong : Option Double
  pub per_iter : Option (ℤ × IterReport × List Double × Option (List (List Double)))

abbrev pub bench_per_iter :
    (out_of_place : Bool)
    → Option (ℤ × IterReport × List Double × Option (List (List Double)))
    → List Call
bench_per_iter out_of_place none = []
bench_per_iter out_of_place (some (skipped, r, times, all_processes)) =
    per_iter_report true out_of_place skipped r times all_processes

-- The report of `BenchTime`.
abbrev pub bench_calls : (report_cputime out_of_place : Bool) → Bench → List Call
bench_calls report_cputime out_of_place b =
    line_body true b.time_usec b.alg_bw b.bus_bw b.n_wrong report_cputime out_of_place
    ++ bench_per_iter out_of_place b.per_iter

-- One size of the loop in `TimeTest`.
pub record Line : Type 0 where
  pub n_bytes : ℕ
  pub n_elem : ℕ
  pub type_name : List ℕ
  pub op_name : List ℕ
  pub root : ℤ
  pub out_of_place : Bench
  pub in_place : Bench
  pub task : Tuning
  pub iters : ℤ

abbrev pub line_calls : (report_cputime tuning : Bool) → Line → List Call
line_calls report_cputime tuning l =
    line_preamble true l.n_bytes l.n_elem l.type_name l.op_name l.root
    ++ (bench_calls report_cputime true l.out_of_place
        ++ (bench_calls report_cputime false l.in_place
            ++ line_terminator true tuning l.task l.iters []))

abbrev pub lines_calls : (report_cputime tuning : Bool) → List Line → List Call
lines_calls report_cputime tuning [] = []
lines_calls report_cputime tuning (l ∷ ls) =
    line_calls report_cputime tuning l ++ lines_calls report_cputime tuning ls

-- What a run reports. `found` is whether all its devices were found.
pub record Session : Type 0 where
  pub start_time : List ℕ
  pub argv : List (List ℕ)
  pub envp : List (List ℕ)
  pub nccl_version : ℤ
  pub config : Config
  pub found : Bool
  pub ranks : List RankInfo
  pub report_cputime : Bool
  pub tuning : Bool
  pub lines : List Line
  pub errors : ℤ
  pub bw : Double
  pub no_errors : Bool
  pub unchecked : Bool
  pub fast : Bool
  pub last_error : Option (List ℕ)

-- `run` after `writeDeviceReport` has returned.
abbrev pub results_calls : Session → List Call
results_calls s =
    result_header true
    ++ (lines_calls s.report_cputime s.tuning s.lines
        ++ (result_footer true s.errors s.bw s.no_errors s.unchecked s.fast
            ++ write_errors true s.last_error))

-- All calls inside the top-level object, which `jsonOutputInit` opens first.
abbrev pub session_calls : Session → List Call
session_calls s =
    output_init s.start_time s.argv s.envp s.nccl_version
    ++ (device_report_config s.config
        ++ (if s.found then device_report_devices s.ranks ++ results_calls s else []))

-- `free(states)` and the resets behind it; the file is closed.
abbrev pub json_release : M
json_release w = some (record w { states = []; state_cap = 0 })

abbrev pub end_time_in : JsonState → (end_time : List ℕ) → List Call
end_time_in object_empty end_time = pair (codes "end_time") (str (some end_time))
end_time_in object_some end_time = pair (codes "end_time") (str (some end_time))
end_time_in s end_time = []

-- `assert(jsonCurrState() == JSON_NONE)`.
abbrev pub assert_none : JsonState → M
assert_none json_none w = some w
assert_none s w = none

-- `jsonOutputFinalize`.
unfoldable pub json_output_finalize : (write_json : Bool) → (end_time : List ℕ) → M
json_output_finalize false end_time w = some w
json_output_finalize true end_time w =
    (perform_all (if length w.states == 1 then end_time_in (json_curr_state w) end_time else [])
        >> finish_all
        >> (λ w'. assert_none (json_curr_state w') w')
        >> json_release)
      w
