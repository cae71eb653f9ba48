-- ===== src/Gin/Options.antt =====
-- The command line of the GIN benchmarks: `args_t` and `parse_args` of src/device_api/gin/utils/args.cc.
-- What `getopt_long` finds, in order, is an argument: one value for each option of the table
-- `long_opts` and of the short options, with the text at `optarg`. `exit(EXIT_FAILURE)` is `none`.
pub mod Laws
use nccl_tests.Prelude.{
  ℕ, ◌+◌, ◌*◌, ◌%◌, ◌^◌, ℤ, pos, negsuc, is_neg, Bool, true, false, ◌&&◌, ◌||◌, not, Option, none,
  some, List, [], ◌∷◌, ltb, leb, ◌==◌, if◌then◌else◌, codes,
}
use mathlib.Core.Option.{map as map_option}
use nccl_tests.Gin.Number.{parse_size, parse_int_arg}

pub data GinRsm : Type 0 where
  rsm_unset rsm_thread rsm_cta rsm_gpu : GinRsm

pub data GinOp : Type 0 where
  op_unset op_put op_put_signal op_put_counter : GinOp

-- `args_t`. A `size_t` is a number below 2^64, an `int` an integer of 32 bits.
pub record Args : Type 0 where
  pub minbytes : ℕ
  pub maxbytes : ℕ
  pub stepfactor : ℤ
  pub stepbytes : ℕ
  pub warmup_iters : ℤ
  pub iters : ℤ
  pub num_ctas : ℤ
  pub num_threads : ℤ
  pub gin_skip_credit_check : Bool
  pub gin_strong_signal : Bool
  pub gin_aggregate_requests : Bool
  pub gin_bidirectional : Bool
  pub queue_depth : ℤ
  pub gin_rsm : GinRsm
  pub gin_op : GinOp

-- `strcmp(a, b) == 0`.
unfoldable pub str_eq : List ℕ → List ℕ → Bool
str_eq [] [] = true
str_eq [] (y ∷ t) = false
str_eq (x ∷ s) [] = false
str_eq (x ∷ s) (y ∷ t) = x == y && str_eq s t

unfoldable pub parse_rsm : List ℕ → Option GinRsm
unfolding str_eq
parse_rsm s =
    if str_eq s (codes "thread")
    then some rsm_thread
    else if str_eq s (codes "cta")
    then some rsm_cta
    else if str_eq s (codes "gpu")
    then some rsm_gpu
    else none

unfoldable pub parse_op : List ℕ → Option GinOp
unfolding str_eq
parse_op s =
    if str_eq s (codes "put")
    then some op_put
    else if str_eq s (codes "put_signal")
    then some op_put_signal
    else if str_eq s (codes "put_counter")
    then some op_put_counter
    else none

unfoldable pub gin_op_name : GinOp → List ℕ
gin_op_name op_put = codes "put"
gin_op_name op_put_signal = codes "put_signal"
gin_op_name op_put_counter = codes "put_counter"
gin_op_name op_unset = codes "unset"

unfoldable pub gin_rsm_name : GinRsm → List ℕ
gin_rsm_name rsm_thread = codes "thread"
gin_rsm_name rsm_cta = codes "cta"
gin_rsm_name rsm_gpu = codes "gpu"
gin_rsm_name rsm_unset = codes "unset"

-- What `getopt_long` returns, with `optarg`; `other` is any value without a case.
pub data Found : Type 0 where
  opt_b opt_e opt_f opt_i opt_w opt_n opt_c opt_t gin_op_arg gin_rsm_arg gin_tx_depth :
      (optarg : List ℕ) → Found
  gin_skip_credit_check gin_strong_signal gin_ag gin_bd other : Found

abbrev pub default_args : Args
default_args = record {
  minbytes = 4;
  maxbytes = 4 * 1024 * 1024;
  stepfactor = pos 2;
  stepbytes = 0;
  warmup_iters = pos 50;
  iters = pos 500;
  num_ctas = pos 1;
  num_threads = pos 1;
  gin_skip_credit_check = false;
  gin_strong_signal = false;
  gin_aggregate_requests = false;
  gin_bidirectional = false;
  queue_depth = pos 1024;
  gin_rsm = rsm_unset;
  gin_op = op_unset;
}

-- One round of the loop over the options.
unfoldable pub set_option : Found → Args → Option Args
unfolding parse_size parse_int_arg parse_rsm parse_op
set_option (opt_b s) a = map_option (λ v. record a { minbytes = v }) (parse_size s)
set_option (opt_e s) a = map_option (λ v. record a { maxbytes = v }) (parse_size s)
set_option (opt_f s) a = map_option (λ v. record a { stepfactor = v }) (parse_int_arg s)
set_option (opt_i s) a = map_option (λ v. record a { stepbytes = v }) (parse_size s)
set_option (opt_w s) a = map_option (λ v. record a { warmup_iters = v }) (parse_int_arg s)
set_option (opt_n s) a = map_option (λ v. record a { iters = v }) (parse_int_arg s)
set_option (opt_c s) a = map_option (λ v. record a { num_ctas = v }) (parse_int_arg s)
set_option (opt_t s) a = map_option (λ v. record a { num_threads = v }) (parse_int_arg s)
set_option gin_skip_credit_check a = some (record a { gin_skip_credit_check = true })
set_option (gin_op_arg s) a = map_option (λ v. record a { gin_op = v }) (parse_op s)
set_option gin_strong_signal a = some (record a { gin_strong_signal = true })
set_option gin_ag a = some (record a { gin_aggregate_requests = true })
set_option gin_bd a = some (record a { gin_bidirectional = true })
set_option (gin_rsm_arg s) a = map_option (λ v. record a { gin_rsm = v }) (parse_rsm s)
set_option (gin_tx_depth s) a = map_option (λ v. record a { queue_depth = v }) (parse_int_arg s)
set_option other a = none

unfoldable pub set_options : List Found → Args → Option Args
unfolding set_option
set_options [] a = some a
set_options (o ∷ os) a = elim (set_option o a) [ none ↦ none | some a' ↦ set_options os a' ]

-- `z <= n`, for an `int`.
abbrev pub int_le : ℤ → ℕ → Bool
int_le (pos m) n = leb m n
int_le (negsuc m) n = true

-- `gin_max_buffer_bytes` of src/device_api/gin/utils/gin_context.cc.
abbrev pub gin_max_buffer_bytes : ℕ
gin_max_buffer_bytes = 20 * 2 ^ 31

-- The tests behind the loop, in the code's order; `true` is `exit(EXIT_FAILURE)`.
unfoldable pub refused : Args → Bool
refused a =
    leb a.minbytes 0
    || (leb a.maxbytes 0
        || (ltb a.maxbytes a.minbytes
            || (not (a.minbytes % 4 == 0)
                || (not (a.maxbytes % 4 == 0)
                    || ((int_le a.stepfactor 1 && a.stepbytes == 0)
                        || ((not (a.stepbytes == 0) && not (a.stepbytes % 4 == 0))
                            || (is_neg a.warmup_iters
                                || (int_le a.iters 0
                                    || (int_le a.num_ctas 0
                                        || (int_le a.num_threads 0
                                            || (int_le a.queue_depth 0
                                                || ltb gin_max_buffer_bytes a.maxbytes)))))))))))

abbrev pub validated : Args → Option Args
validated a = if refused a then none else some a

-- `parse_args`; `positional` is `optind < argc`.
unfoldable pub parse_args : List Found → Bool → Option Args
unfolding set_options refused
parse_args os positional = elim (set_options os default_args) [
  | none ↦ none
  | some a ↦ if positional then none else validated a
]
