-- ===== src/Gin/Configure.antt =====
-- What a benchmark supports: `gin_test_caps_t`, `configure_op` and `configure_test_args` of
-- src/device_api/gin/utils/args.h and args.cc. `exit(EXIT_FAILURE)` is `none`.
pub mod Laws
use nccl_tests.Prelude.{
  ℕ, zero, suc, ◌+◌, ◌-◌, ◌*◌, ◌/◌, ◌%◌, ◌^◌, ◌≡◌, refl, ◌≢◌, ◌⊎◌, inl, inr, ℤ, pos, negsuc, Bool,
  true, false, ◌&&◌, ◌||◌, not, Option, none, some, ◌==◌, if◌then◌else◌, arith,
}
use nccl_tests.Gin.Options.{
  Args, GinRsm, rsm_unset, rsm_thread, rsm_cta, rsm_gpu, GinOp, op_unset, op_put, op_put_signal,
  op_put_counter,
}

pub record GinTestCaps : Type 0 where
  pub default_rsm : GinRsm
  pub allow_thread_rsm : Bool
  pub op_mask : ℕ
  pub default_op : GinOp
  pub is_signal_op : Bool
  pub allow_aggregate_requests : Bool
  pub allow_bidirectional : Bool
  pub allow_multi_cta_threads : Bool

abbrev pub is_unset : GinRsm → Bool
is_unset rsm_unset = true
is_unset r = false

abbrev pub is_thread : GinRsm → Bool
is_thread rsm_thread = true
is_thread r = false

abbrev pub is_op_unset : GinOp → Bool
is_op_unset op_unset = true
is_op_unset o = false

abbrev pub is_put_signal : GinOp → Bool
is_put_signal op_put_signal = true
is_put_signal o = false

-- The enumerators' values.
abbrev pub op_value : GinOp → ℕ
op_value op_unset = 0
op_value op_put = 1
op_value op_put_signal = 2
op_value op_put_counter = 3

-- `mask & GIN_OP_BIT(op)`.
abbrev pub in_mask : ℕ → GinOp → Bool
in_mask mask op = mask / 2 ^ op_value op % 2 == 1

abbrev pub is_one : ℤ → Bool
is_one (pos n) = n == 1
is_one (negsuc n) = false

-- `num_threads % 32 == 0`; the sign does not matter.
abbrev pub whole_warps : ℤ → Bool
whole_warps (pos n) = n % 32 == 0
whole_warps (negsuc n) = (n + 1) % 32 == 0

unfoldable pub configure_op : GinTestCaps → Args → Option Args
configure_op caps args =
    let chosen =
      if is_op_unset args.gin_op then record args { gin_op = caps.default_op } else args in
    if caps.op_mask == 0
    then (if is_op_unset args.gin_op then some args else none)
    else if in_mask caps.op_mask chosen.gin_op
    then some chosen
    else none

-- The tests of `configure_test_args` behind `configure_op`; `true` is `exit(EXIT_FAILURE)`.
abbrev pub unsupported : GinTestCaps → Args → Bool
unsupported caps args =
    (not (caps.is_signal_op || is_put_signal args.gin_op) && args.gin_strong_signal)
    || ((not caps.allow_aggregate_requests && args.gin_aggregate_requests)
        || ((not caps.allow_bidirectional && args.gin_bidirectional)
            || ((not caps.allow_multi_cta_threads
                  && (not (is_one args.num_ctas) || not (is_one args.num_threads)))
                || (args.gin_aggregate_requests && not (whole_warps args.num_threads)))))

abbrev pub supported : GinTestCaps → Option Args → Option Args
supported caps none = none
supported caps (some args) = if unsupported caps args then none else some args

abbrev pub with_rsm : GinTestCaps → Args → Args
with_rsm caps args =
    if is_unset args.gin_rsm then record args { gin_rsm = caps.default_rsm } else args

unfoldable pub configure_test_args : GinTestCaps → Args → Option Args
unfolding configure_op
configure_test_args caps args =
    let a = with_rsm caps args in
    if not caps.allow_thread_rsm && is_thread a.gin_rsm
    then none
    else supported caps (configure_op caps a)
