-- ===== src/CommandLine/Options.antt =====
-- The options of the tests: the loop over them in `main` of src/common.cu, and the checks behind it. What
-- `getopt_long` finds, in order, is an argument. The build has NCCL 2.31 or newer and CUDA 11.3 or newer;
-- `running` is the version that `ncclGetVersion` gives.
use nccl_tests.Prelude.{
  ℕ, ◌*◌, ℤ, pos, negsuc, is_neg, Bool, true, false, ◌&&◌, ◌||◌, not, Option, none, some, List, [],
  ◌∷◌, ltb, leb, if◌then◌else◌,
}
use nccl_tests.Launch.{int_is}
use nccl_tests.Gin.Number.{to_int}
use nccl_tests.CommandLine.Numbers.{
  strtol, int_arg, size_arg, Scanned, Size, invalid, undefined, bytes, size_option,
}
use nccl_tests.CommandLine.Names.{version, ncclstringtotype, ncclstringtoop}

-- The variables that the options set.
pub record Options : Type 0 where
  pub n_threads : ℤ
  pub n_gpus : ℤ
  pub min_bytes : ℕ
  pub max_bytes : ℕ
  pub step_bytes : ℕ
  pub step_factor : ℕ
  pub iters : ℤ
  pub agg_iters : ℤ
  pub warmup_iters : ℤ
  pub run_cycles : ℤ
  pub parallel_init : ℤ
  pub datacheck : ℤ
  pub ncclop : ℤ
  pub nccltype : ℤ
  pub ncclroot : ℤ
  pub blocking_coll : ℤ
  pub streamnull : ℤ
  pub timeout : ℤ
  pub cuda_graph_launches : ℤ
  pub report_cputime : ℤ
  pub report_timestamps : ℤ
  pub output_file : Option (List ℕ)
  pub average : ℤ
  pub local_register : ℤ
  pub memory_report : ℤ
  pub per_iter_timing : ℤ
  pub per_iter_skip : ℤ
  pub tuning : ℤ
  pub cta_policy : ℤ
  pub device_impl : ℤ
  pub device_cta_count : ℤ
  pub unalign : ℤ
  pub host_rma_impl : Bool
  pub rma_ctx_count : ℤ

-- The values before the loop.
abbrev pub default_options : Options
default_options = record {
  n_threads = pos 1;
  n_gpus = pos 1;
  min_bytes = 32 * 1024 * 1024;
  max_bytes = 32 * 1024 * 1024;
  step_bytes = 1024 * 1024;
  step_factor = 1;
  iters = pos 20;
  agg_iters = pos 1;
  warmup_iters = pos 1;
  run_cycles = pos 1;
  parallel_init = pos 0;
  datacheck = pos 1;
  ncclop = pos 0;
  nccltype = pos 7;
  ncclroot = pos 0;
  blocking_coll = pos 0;
  streamnull = pos 0;
  timeout = pos 0;
  cuda_graph_launches = pos 0;
  report_cputime = pos 0;
  report_timestamps = pos 0;
  output_file = none;
  average = pos 1;
  local_register = pos 0;
  memory_report = pos 0;
  per_iter_timing = pos 0;
  per_iter_skip = pos 0;
  tuning = pos 0;
  cta_policy = negsuc 0;
  device_impl = pos 0;
  device_cta_count = pos 16;
  unalign = pos 0;
  host_rma_impl = false;
  rma_ctx_count = pos 1;
}

-- What `getopt_long` returns, with `optarg`; the text of a size as `sscanf` reads it. `help` is also any
-- other value.
pub data Found : Type 0 where
  nthreads ngpus stepfactor iters agg_iters warmup_iters run_cycles parallel_init check op datatype
        root blocking stream_null timeout cudagraph report_cputime report_timestamps output_file
        average local_register memory per_iter_timing per_iter_skip tuning cta_policy
        device_implementation device_cta_count unalign host_rma_implementation :
      (optarg : List ℕ) → Found
  minbytes maxbytes stepbytes : (optarg : Scanned) → Found
  help : Found

-- How the options end: `main` returns, a conversion is undefined, or `main` goes on.
pub data Parsed : Type 0 where
  returns : (code : ℤ) → Parsed
  undefined_size : Parsed
  goes_on : Options → Parsed

-- `z < n` and `z > n` for an `int` and a constant.
abbrev pub int_below : ℤ → ℕ → Bool
int_below (pos m) n = ltb m n
int_below (negsuc m) n = true

abbrev pub int_above : ℤ → ℕ → Bool
int_above (pos m) n = ltb n m
int_above (negsuc m) n = false

-- `a >= b` for two `int`.
abbrev pub int_at_least : ℤ → ℤ → Bool
int_at_least (pos a) (pos b) = leb b a
int_at_least (pos a) (negsuc b) = true
int_at_least (negsuc a) (pos b) = false
int_at_least (negsuc a) (negsuc b) = leb a b

abbrev pub with_size : Size → (ℕ → Options) → Parsed
with_size invalid f = returns (negsuc 0)
with_size undefined f = undefined_size
with_size (bytes n) f = goes_on (f n)

-- `SYMMETRIC_REGISTER` before 2.27 becomes `LOCAL_REGISTER`.
abbrev pub register_mode : (running : ℕ) → ℤ → ℤ
register_mode running z = if int_is z 2 && ltb running (version 27) then pos 1 else z

abbrev pub tuning_mode : (running : ℕ) → ℤ → ℤ
tuning_mode running z = if not (int_is z 0) && ltb running (version 28) then pos 0 else z

abbrev pub policy_mode : (running : ℕ) → ℤ → ℤ
policy_mode running z = if int_above z 1 && ltb running (version 28) then negsuc 0 else z

abbrev pub cta_count : ℤ → ℤ
cta_count z = if int_below z 1 || int_above z 128 then pos 16 else z

abbrev pub is_nul : List ℕ → Bool
is_nul [] = true
is_nul (x ∷ s) = false

-- The option -H.
abbrev pub host_rma : (running : ℕ) → ℤ × List ℕ → Options → Parsed
host_rma running (val, endptr) o =
    if ltb running (version 29)
    then returns (negsuc 0)
    else if not (is_nul endptr) || int_below (to_int val) 1
    then returns (negsuc 0)
    else goes_on (record o { host_rma_impl = true; rma_ctx_count = to_int val })

-- The `switch` of the loop.
unfoldable pub set_option : (running : ℕ) → Found → Options → Parsed
unfolding strtol size_option ncclstringtotype ncclstringtoop
set_option running (nthreads s) o = goes_on (record o { n_threads = int_arg s })
set_option running (ngpus s) o = goes_on (record o { n_gpus = int_arg s })
set_option running (minbytes s) o = with_size (size_option s) (λ n. record o { min_bytes = n })
set_option running (maxbytes s) o = with_size (size_option s) (λ n. record o { max_bytes = n })
set_option running (stepbytes s) o = with_size (size_option s) (λ n. record o { step_bytes = n })
set_option running (stepfactor s) o = goes_on (record o { step_factor = size_arg s })
set_option running (iters s) o = goes_on (record o { iters = int_arg s })
set_option running (agg_iters s) o = goes_on (record o { agg_iters = int_arg s })
set_option running (warmup_iters s) o = goes_on (record o { warmup_iters = int_arg s })
set_option running (run_cycles s) o = goes_on (record o { run_cycles = int_arg s })
set_option running (check s) o = goes_on (record o { datacheck = int_arg s })
set_option running (parallel_init s) o = goes_on (record o { parallel_init = int_arg s })
set_option running (op s) o = goes_on (record o { ncclop = ncclstringtoop running s })
set_option running (datatype s) o = goes_on (record o { nccltype = ncclstringtotype running s })
set_option running (root s) o = goes_on (record o { ncclroot = int_arg s })
set_option running (blocking s) o = goes_on (record o { blocking_coll = int_arg s })
set_option running (stream_null s) o = goes_on (record o { streamnull = int_arg s })
set_option running (timeout s) o = goes_on (record o { timeout = int_arg s })
set_option running (cudagraph s) o = goes_on (record o { cuda_graph_launches = int_arg s })
set_option running (report_cputime s) o = goes_on (record o { report_cputime = int_arg s })
set_option running (output_file s) o = goes_on (record o { output_file = some s })
set_option running (report_timestamps s) o = goes_on (record o { report_timestamps = int_arg s })
set_option running (average s) o = goes_on (record o { average = int_arg s })
set_option running (local_register s) o =
    goes_on (record o { local_register = register_mode running (int_arg s) })
set_option running (memory s) o = goes_on (record o { memory_report = int_arg s })
set_option running (per_iter_timing s) o = goes_on (record o { per_iter_timing = int_arg s })
set_option running (per_iter_skip s) o = goes_on (record o { per_iter_skip = int_arg s })
set_option running (tuning s) o = goes_on (record o { tuning = tuning_mode running (int_arg s) })
set_option running (cta_policy s) o =
    goes_on (record o { cta_policy = policy_mode running (int_arg s) })
set_option running (device_implementation s) o =
    if leb (version 28) running
    then goes_on (record o { device_impl = int_arg s })
    else returns (negsuc 0)
set_option running (device_cta_count s) o =
    if leb (version 28) running
    then goes_on (record o { device_cta_count = cta_count (int_arg s) })
    else returns (negsuc 0)
set_option running (unalign s) o = goes_on (record o { unalign = int_arg s })
set_option running (host_rma_implementation s) o = host_rma running (strtol s) o
set_option running help o = returns (pos 0)

-- The loop over the options.
unfoldable pub set_options : (running : ℕ) → List Found → Options → Parsed
unfolding set_option
set_options running [] o = goes_on o
set_options running (f ∷ fs) o = elim (set_option running f o) [
  | returns code ↦ returns code
  | undefined_size ↦ undefined_size
  | goes_on o' ↦ set_options running fs o'
]

-- The checks behind the loop after which `main` returns -1.
unfoldable pub refused : (running : ℕ) → Options → Bool
refused running o =
    ltb o.max_bytes o.min_bytes
    || ((int_above o.device_impl 0 && not (int_is o.local_register 2))
        || ((o.host_rma_impl && int_above o.device_impl 0)
            || ((o.host_rma_impl && not (int_is o.local_register 2))
                || (int_above o.rma_ctx_count 1 && ltb running (version 31)))))

-- The options that are switched off in place of an error, in the code's order.
abbrev pub timing_known : Options → Options
timing_known o =
    if not (int_is o.per_iter_timing 0) && not (int_is o.per_iter_timing 1)
    then record o { per_iter_timing = pos 0 }
    else o

abbrev pub timing_without_graph : Options → Options
timing_without_graph o =
    if not (int_is o.per_iter_timing 0) && int_above o.cuda_graph_launches 0
    then record o { per_iter_timing = pos 0 }
    else o

abbrev pub blocking_without_graph : Options → Options
blocking_without_graph o =
    if int_is o.blocking_coll 3 && int_above o.cuda_graph_launches 0
    then record o { blocking_coll = pos 0 }
    else o

abbrev pub skip_in_range : Options → Options
skip_in_range o =
    if is_neg o.per_iter_skip || int_at_least o.per_iter_skip o.iters
    then record o { per_iter_skip = pos 0 }
    else o

abbrev pub skip_of_timing : Options → Options
skip_of_timing o =
    if not (int_is o.per_iter_skip 0) && int_is o.per_iter_timing 0
    then record o { per_iter_skip = pos 0 }
    else o

abbrev pub adjusted : Options → Options
adjusted o =
    skip_of_timing (skip_in_range (blocking_without_graph (timing_without_graph (timing_known o))))

-- The options of `main`, up to the start of MPI.
unfoldable pub main_options : (running : ℕ) → List Found → Parsed
unfolding set_options refused
main_options running fs = elim (set_options running fs default_options) [
  | returns code ↦ returns code
  | undefined_size ↦ undefined_size
  | goes_on o ↦ if refused running o then returns (negsuc 0) else goes_on (adjusted o)
]
