-- ===== src/Gin/Tests.antt =====
-- The GIN benchmarks' options and loop on concrete inputs.
use nccl_tests.Prelude.{
  ℕ, suc, ◌*◌, ◌^◌, ◌≡◌, refl, ◌↔◌, pos, true, false, some, List, [], ◌∷◌, ◌++◌, codes, arith,
}
use nccl_tests.Json.Print.{decimal}
use nccl_tests.Gin.Number.{parse_size, parse_int_arg, strtoll, read_digits, skip_spaces}
use nccl_tests.Gin.Number.Laws.{kilo, parse_size-decimal}
use nccl_tests.Gin.Options.{
  Args, Found, opt_b, gin_bd, gin_op_arg, set_options, default_args, parse_args, rsm_gpu, op_put,
  op_put_signal,
}
use nccl_tests.Gin.Options.Laws.{IsValid, parse_args_iff}
use nccl_tests.Gin.Configure.{GinTestCaps, configure_test_args}
use nccl_tests.Gin.Sweep.{throughput, sweep, gin_perf_run}
use nccl_tests.Gin.Sweep.Sizes.{concat_map, IsSweep, sweep-IsSweep}
use nccl_tests.Gin.Sweep.Ranks.{Together, gin_perf_run-Together}

parse_size-decimal_example : parse_size (decimal 16 ++ codes "K") ≡ some (16 * 2 ^ 10)
parse_size-decimal_example = parse_size-decimal 16 kilo (omega arith) (omega arith)

-- The value is cut to 32 bits, with no diagnostic.
parse_int_arg_truncates : parse_int_arg (codes "4294967301") ≡ some (pos 5)
unfolding parse_int_arg strtoll read_digits skip_spaces
parse_int_arg_truncates = refl

abbrev options : List Found
options = opt_b (codes "8") ∷ gin_bd ∷ gin_op_arg (codes "put_signal") ∷ []

abbrev parsed : Args
parsed = record default_args { minbytes = 8; gin_bidirectional = true; gin_op = op_put_signal }

parsed-IsValid : IsValid parsed
parsed-IsValid = ground arith

parse_args_iff_example :
    (parse_args options false ≡ some parsed)
    ↔ ((set_options options default_args ≡ some parsed) × (false ≡ false) × IsValid parsed)
parse_args_iff_example = parse_args_iff options false parsed

options-parsed : parse_args options false ≡ some parsed
unfolding parse_args set_options parse_size strtoll read_digits skip_spaces
options-parsed = refl

-- What ginPutBW declares.
abbrev put_bw : GinTestCaps
put_bw = record {
  default_rsm = rsm_gpu;
  allow_thread_rsm = false;
  op_mask = 14;
  default_op = op_put;
  is_signal_op = false;
  allow_aggregate_requests = true;
  allow_bidirectional = true;
  allow_multi_cta_threads = true;
}

abbrev configured : Args
configured = record parsed { gin_rsm = rsm_gpu }

parsed-configured : configure_test_args put_bw parsed ≡ some configured
unfolding configure_test_args
parsed-configured = refl

configured-IsValid : IsValid configured
configured-IsValid = ground arith

abbrev one : ℕ → List ℕ
one size = size ∷ []

sweep-IsSweep_example :
    (sizes : List ℕ) × (sweep one configured (suc configured.maxbytes) configured.minbytes
      ≡ some (concat_map one sizes))
    × IsSweep configured configured.minbytes sizes
sweep-IsSweep_example = sweep-IsSweep one configured configured-IsValid

gin_perf_run-Together_example :
    Together
      (gin_perf_run configured throughput (5 ∷ 5 ∷ []) 0)
      (gin_perf_run configured throughput (5 ∷ 5 ∷ []) 1)
gin_perf_run-Together_example = gin_perf_run-Together configured throughput 5 5 configured-IsValid
