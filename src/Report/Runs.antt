-- ===== src/Report/Runs.antt =====
-- Every reporting function of src/util.cu is accepted where the program calls it, and leaves the
-- writer where the next one expects it.
use nccl_tests.Prelude.{
  ℕ, ℤ, pos, Bool, true, false, Option, none, some, List, [], ◌∷◌, codes, refl, arith, ltb,
  if◌then◌else◌, Bool-cases, inl, inr,
}
use nccl_tests.Json.Print.{Double}
use nccl_tests.Json.State.{JsonState, key, object_empty, object_some, list_empty, list_some}
use nccl_tests.Json.Writer.{Call, int, finish_object, str, double}
use nccl_tests.Json.Machine.{Stack}
use nccl_tests.Json.Runs.{
  WritesValue, WritesValues, no_more, value, list-WritesValue, Passes, ◌then◌, keyed,
}
use nccl_tests.Report.{
  strings, output_init, RankInfo, rank_info, rank_infos, Config, config_head, config_step,
  config_tail, device_report_config, device_report_devices, result_header, result_footer,
  write_errors,
}
use nccl_tests.Report.Lines.{
  pair, line_preamble, line_terminator, tuning_object, line_body, IterReport, doubles, rows,
  per_iter_head, process_rows, per_iter_report,
}
use nccl_tests.Profiler.{Tuning}

str-WritesValue : (x : List ℕ) → WritesValue (str (some x) ∷ [])
str-WritesValue x = record {
  in_list = λ st. (tt, refl);
  begins_list = λ st. (tt, refl);
  at_key = λ s st. (tt, refl);
}

double-WritesValue : (d : Double) → WritesValue (double d ∷ [])
double-WritesValue d = record {
  in_list = λ st. (tt, refl);
  begins_list = λ st. (tt, refl);
  at_key = λ s st. (tt, refl);
}

strings-WritesValues : (xs : List (List ℕ)) → WritesValues (strings xs)
strings-WritesValues [] = no_more
strings-WritesValues (x ∷ xs) = value (str-WritesValue x) (strings-WritesValues xs)

doubles-WritesValues : (ds : List Double) → WritesValues (doubles ds)
doubles-WritesValues [] = no_more
doubles-WritesValues (d ∷ ds) = value (double-WritesValue d) (doubles-WritesValues ds)

rows-WritesValues : (rs : List (List Double)) → WritesValues (rows rs)
rows-WritesValues [] = no_more
rows-WritesValues (r ∷ rs) =
    value (list-WritesValue (doubles-WritesValues r)) (rows-WritesValues rs)

rank_info-WritesValue : (ri : RankInfo) → WritesValue (rank_info ri)
rank_info-WritesValue ri = record {
  in_list = λ st. ground arith;
  begins_list = λ st. ground arith;
  at_key = λ s st. ground arith;
}

rank_infos-WritesValues : (ris : List RankInfo) → WritesValues (rank_infos ris)
rank_infos-WritesValues [] = no_more
rank_infos-WritesValues (ri ∷ ris) = value (rank_info-WritesValue ri) (rank_infos-WritesValues ris)

first_pair :
    (name : List ℕ) (z : ℤ) → Passes (pair name (int z)) (object_empty ∷ []) (object_some ∷ [])
first_pair name z = ground arith

int_pair :
    (name : List ℕ) (z : ℤ) → Passes (pair name (int z)) (object_some ∷ []) (object_some ∷ [])
int_pair name z = ground arith

str_pair :
    (name s : List ℕ) → Passes (pair name (str (some s))) (object_some ∷ []) (object_some ∷ [])
str_pair name s = ground arith

finish_object-Passes : (st : Stack) → Passes (finish_object ∷ []) (object_some ∷ st) st
finish_object-Passes st = ground arith

pub output_init-Passes :
    (start_time : List ℕ) (argv envp : List (List ℕ)) (version : ℤ)
    → Passes (output_init start_time argv envp version) (object_empty ∷ []) (object_some ∷ [])
output_init-Passes start_time argv envp version =
    first_pair (codes "version") (pos 4)
    then (str_pair (codes "start_time") start_time
        then (keyed (list-WritesValue (strings-WritesValues argv))
            then (keyed (list-WritesValue (strings-WritesValues envp))
                then int_pair (codes "nccl_version") version)))

config_step-Passes :
    (c : Config) (st : Stack) → Passes (config_step c) (object_some ∷ st) (object_some ∷ st)
config_step-Passes c st = elim (Bool-cases (ltb 1 c.step_factor)) [
  | inl e ↦ rw e (record { run = ground arith })
  | inr e ↦ rw e (record { run = ground arith })
]

config_head-Passes :
    (c : Config) → Passes (config_head c) (object_some ∷ []) (object_some ∷ object_some ∷ [])
config_head-Passes c = ground arith

config_tail-Passes :
    (c : Config)
    → Passes (config_tail c) (object_some ∷ object_some ∷ []) (object_some ∷ object_some ∷ [])
config_tail-Passes c = ground arith

pub device_report_config-Passes :
    (c : Config)
    → Passes (device_report_config c) (object_some ∷ []) (object_some ∷ object_some ∷ [])
device_report_config-Passes c =
    config_head-Passes c then (config_step-Passes c _ then config_tail-Passes c)

pub device_report_devices-Passes :
    (ris : List RankInfo)
    → Passes (device_report_devices ris) (object_some ∷ object_some ∷ []) (object_some ∷ [])
device_report_devices-Passes ris =
    keyed (list-WritesValue (rank_infos-WritesValues ris)) then record { run = ground arith }

-- A line of results stands in the list of results, the first one or a later one.
pub data AtLine : JsonState → Type 0 where
  first_line : AtLine list_empty
  later_line : AtLine list_some

pub line_preamble-Passes :
    {s : JsonState} (n_bytes n_elem : ℕ) (type_name op_name : List ℕ) (root : ℤ) (st : Stack)
    → AtLine s
    → Passes
        (line_preamble true n_bytes n_elem type_name op_name root)
        (s ∷ st)
        (object_some ∷ list_some ∷ st)
line_preamble-Passes n_bytes n_elem type_name op_name root st first_line = ground arith
line_preamble-Passes n_bytes n_elem type_name op_name root st later_line = ground arith

pub line_body-Passes :
    (time_usec alg_bw bus_bw : Double) (n_wrong : Option Double)
    (report_cputime out_of_place : Bool) (st : Stack)
    → Passes
        (line_body true time_usec alg_bw bus_bw n_wrong report_cputime out_of_place)
        (object_some ∷ st)
        (object_some ∷ st)
line_body-Passes time_usec alg_bw bus_bw none report_cputime out_of_place st = ground arith
line_body-Passes time_usec alg_bw bus_bw (some d) report_cputime out_of_place st = ground arith

tuning_object-Passes :
    (t : Tuning) (st : Stack) → Passes (tuning_object t) (object_some ∷ st) (object_some ∷ st)
tuning_object-Passes t st = ground arith

pub line_terminator-Passes :
    (tuning : Bool) (t : Tuning) (actual_iters : ℤ) (name : List ℕ) (st : Stack)
    → Passes (line_terminator true tuning t actual_iters name) (object_some ∷ st) st
line_terminator-Passes true t actual_iters name st =
    tuning_object-Passes t st then record { run = ground arith }
line_terminator-Passes false t actual_iters name st = record { run = ground arith }

per_iter_head-Passes :
    (out_of_place : Bool) (skipped : ℤ) (r : IterReport) (st : Stack)
    → Passes
        (per_iter_head out_of_place skipped r)
        (object_some ∷ st)
        (key ∷ object_some ∷ object_some ∷ st)
per_iter_head-Passes out_of_place skipped r st = ground arith

process_rows-Passes :
    (rs : Option (List (List Double))) (st : Stack)
    → Passes (process_rows rs) (object_some ∷ st) (object_some ∷ st)
process_rows-Passes none st = record { run = refl }
process_rows-Passes (some rs) st = keyed (list-WritesValue (rows-WritesValues rs))

keyed_list :
    {cs : List Call} {s : JsonState} {st : Stack}
    → WritesValue cs
    → Passes cs (key ∷ s ∷ st) (s ∷ st)
keyed_list {s = s} {st = st} v = record { run = v.at_key s st }

pub per_iter_report-Passes :
    (out_of_place : Bool) (skipped : ℤ) (r : IterReport) (times : List Double)
    (all_processes : Option (List (List Double))) (st : Stack)
    → Passes
        (per_iter_report true out_of_place skipped r times all_processes)
        (object_some ∷ st)
        (object_some ∷ st)
per_iter_report-Passes out_of_place skipped r times all_processes st =
    per_iter_head-Passes out_of_place skipped r st
    then (keyed_list (list-WritesValue (doubles-WritesValues times))
        then (process_rows-Passes all_processes (object_some ∷ st)
            then finish_object-Passes (object_some ∷ st)))

pub result_header-Passes :
    Passes (result_header true) (object_some ∷ []) (list_empty ∷ object_some ∷ [])
result_header-Passes = ground arith

pub result_footer-Passes :
    {s : JsonState} (errors : ℤ) (bw : Double) (no_errors unchecked fast : Bool)
    → AtLine s
    → Passes
        (result_footer true errors bw no_errors unchecked fast)
        (s ∷ object_some ∷ [])
        (object_some ∷ [])
result_footer-Passes errors bw no_errors true fast first_line = ground arith
result_footer-Passes errors bw no_errors true fast later_line = ground arith
result_footer-Passes errors bw no_errors false fast first_line = ground arith
result_footer-Passes errors bw no_errors false fast later_line = ground arith

pub write_errors-Passes :
    (error : Option (List ℕ))
    → Passes (write_errors true error) (object_some ∷ []) (object_some ∷ [])
write_errors-Passes none = ground arith
write_errors-Passes (some e) = ground arith
