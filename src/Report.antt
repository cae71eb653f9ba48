-- ===== src/Report.antt =====
-- The JSON report of src/util.cu: the calls of the writer that each reporting function makes, in
-- order. `write_json` is the thread's flag; what the same functions print to stdout is left out.
pub mod Lines
pub mod Runs
pub mod Session
mod Tests
use Lines.{pair}
use nccl_tests.Prelude.{
  ℕ, zero, suc, ◌+◌, ◌-◌, ℤ, pos, negsuc, is_neg, Bool, true, false, not, ◌&&◌, ◌||◌, Option, none,
  some, List, [], ◌∷◌, ◌++◌, map, codes, length, ltb, replicate, if◌then◌else◌,
}
use nccl_tests.Json.Print.{Double, decimal_int}
use nccl_tests.Json.Writer.{
  Call, call_key, start_object, finish_object, start_list, finish_list, null, str, bool, int,
  size_t, double,
}

abbrev pub when : Bool → List Call → List Call
when true cs = cs
when false cs = []

-- `jsonIdentifyWriter`: the thread's flag from then on.
abbrev pub json_identify_writer : (is_writer write_json : Bool) → Bool
json_identify_writer is_writer write_json = write_json && is_writer

-- `argv` or `envp` as strings.
abbrev pub strings : List (List ℕ) → List Call
strings [] = []
strings (x ∷ xs) = str (some x) ∷ strings xs

-- What `jsonOutputInit` writes after the top-level `{`, for the time and the program's arguments.
abbrev pub output_init :
    (start_time : List ℕ) (argv envp : List (List ℕ)) (nccl_version : ℤ) → List Call
output_init start_time argv envp nccl_version =
    pair (codes "version") (int (pos 4))
    ++ (pair (codes "start_time") (str (some start_time))
        ++ (call_key (codes "args") ∷ (start_list ∷ strings argv ++ finish_list ∷ [])
            ++ (call_key (codes "env") ∷ (start_list ∷ strings envp ++ finish_list ∷ [])
                ++ pair (codes "nccl_version") (int nccl_version))))

-- `rankInfo_t`, as `parseRankInfo` fills it.
pub record RankInfo : Type 0 where
  pub rank : ℤ
  pub group : ℤ
  pub pid : ℤ
  pub hostname : List ℕ
  pub device : ℤ
  pub device_hex : List ℕ
  pub devinfo : List ℕ

-- `jsonRankInfo`.
abbrev pub rank_info : RankInfo → List Call
rank_info ri =
    start_object
    ∷ call_key (codes "rank")
    ∷ int ri.rank
    ∷ call_key (codes "group")
    ∷ int ri.group
    ∷ call_key (codes "pid")
    ∷ int ri.pid
    ∷ call_key (codes "hostname")
    ∷ str (some ri.hostname)
    ∷ call_key (codes "device")
    ∷ int ri.device
    ∷ call_key (codes "device_hex")
    ∷ str (some ri.device_hex)
    ∷ call_key (codes "device_info")
    ∷ str (some ri.devinfo)
    ∷ finish_object
    ∷ []

abbrev pub rank_infos : List RankInfo → List Call
rank_infos [] = []
rank_infos (ri ∷ ris) = rank_info ri ++ rank_infos ris

-- The globals that `writeDeviceReport` writes.
pub record Config : Type 0 where
  pub n_threads : ℤ
  pub n_gpus : ℤ
  pub min_bytes : ℕ
  pub max_bytes : ℕ
  pub step_bytes : ℕ
  pub step_factor : ℕ
  pub warmup_iters : ℤ
  pub iters : ℤ
  pub agg_iters : ℤ
  pub datacheck : ℤ
  pub cuda_graph_launches : ℤ
  pub blocking_coll : Bool
  pub per_iter_timing : Bool
  pub per_iter_skip : ℤ
  pub parallel_init : Bool

abbrev pub config_step : Config → List Call
config_step c =
    if ltb 1 c.step_factor
    then pair (codes "step_factor") (size_t c.step_factor)
    else pair (codes "step_bytes") (size_t c.step_bytes)

abbrev pub config_head : Config → List Call
config_head c =
    call_key (codes "config")
    ∷ start_object
    ∷ call_key (codes "nthreads")
    ∷ int c.n_threads
    ∷ call_key (codes "ngpus")
    ∷ int c.n_gpus
    ∷ call_key (codes "minimum_bytes")
    ∷ size_t c.min_bytes
    ∷ call_key (codes "maximum_bytes")
    ∷ size_t c.max_bytes
    ∷ []

abbrev pub config_tail : Config → List Call
config_tail c =
    call_key (codes "warmup_iters")
    ∷ int c.warmup_iters
    ∷ call_key (codes "iterations")
    ∷ int c.iters
    ∷ call_key (codes "aggregated_iterations")
    ∷ int c.agg_iters
    ∷ call_key (codes "validation")
    ∷ int c.datacheck
    ∷ call_key (codes "graph")
    ∷ int c.cuda_graph_launches
    ∷ call_key (codes "blocking_collectives")
    ∷ bool c.blocking_coll
    ∷ call_key (codes "per_iter_timing")
    ∷ bool c.per_iter_timing
    ∷ call_key (codes "per_iter_skip")
    ∷ int c.per_iter_skip
    ∷ call_key (codes "parallel_init")
    ∷ bool c.parallel_init
    ∷ []

-- `writeDeviceReport` up to the loop over the devices.
abbrev pub device_report_config : Config → List Call
device_report_config c = config_head c ++ (config_step c ++ config_tail c)

-- The end of `writeDeviceReport`; without MPI there is one line of devices, with MPI one for each
-- process. It is not reached if a device is missing or CUDA reports an error.
abbrev pub device_report_devices : List RankInfo → List Call
device_report_devices ris =
    call_key (codes "devices") ∷ (start_list ∷ rank_infos ris ++ finish_list ∷ [])
    ++ finish_object ∷ []

-- The JSON part of `writeDeviceReport`. `found` is whether its loop over the devices goes through.
abbrev pub device_report : (write_json : Bool) → Config → (found : Bool) → List RankInfo → List Call
device_report write_json c found ris =
    when write_json (device_report_config c)
    ++ (if found then when write_json (device_report_devices ris) else [])

-- `writeResultHeader`.
abbrev pub result_header : (write_json : Bool) → List Call
result_header write_json = when write_json (call_key (codes "results") ∷ start_list ∷ [])

-- `writeResultFooter`. `unchecked` is `check_avg_bw == -1`, `fast` is `bw[0] >= check_avg_bw*(0.9)`.
abbrev pub result_footer :
    (write_json : Bool) (errors : ℤ) (bw : Double) (no_errors unchecked fast : Bool) → List Call
result_footer write_json errors bw no_errors unchecked fast =
    when write_json (finish_list ∷ [])
    ++ when write_json (
        call_key (codes "out_of_bounds")
        ∷ start_object
        ∷ call_key (codes "count")
        ∷ int errors
        ∷ call_key (codes "okay")
        ∷ bool no_errors
        ∷ finish_object
        ∷ call_key (codes "average_bus_bandwidth")
        ∷ start_object
        ∷ call_key (codes "bandwidth")
        ∷ double bw
        ∷ call_key (codes "okay")
        ∷ (if unchecked then str (some (codes "unchecked")) else bool fast)
        ∷ finish_object
        ∷ [])

-- `writeErrors`; `none` is a null pointer from `ncclGetLastError`.
abbrev pub write_errors : (write_json : Bool) → Option (List ℕ) → List Call
write_errors write_json error = when write_json (
    call_key (codes "errors") ∷ start_list ∷ elim error [ none ↦ [] | some e ↦ str (some e) ∷ [] ]
    ++ finish_list ∷ [])
