-- ===== src/Gin/Configure/Laws.antt =====
-- What `configure_test_args` of src/device_api/gin/utils/args.cc lets through.
use nccl_tests.Prelude.{
  ◌≡◌, refl, ◌≢◌, ◌⊎◌, inl, inr, pos, true, false, Option, none, some, not, ◌&&◌, arith, Bool-cases,
  sym, ◌∙◌,
}
use nccl_tests.Gin.Options.{Args, rsm_unset, rsm_thread, op_unset, op_put_signal}
use nccl_tests.Gin.Configure.{
  GinTestCaps, in_mask, whole_warps, configure_test_args, configure_op, supported, unsupported,
  with_rsm, is_thread,
}

-- What the options asked for is kept.
pub record Keeps (args a : Args) : Type 0 where
  pub rsm_kept : args.gin_rsm ≢ rsm_unset → a.gin_rsm ≡ args.gin_rsm
  pub op_kept : args.gin_op ≢ op_unset → a.gin_op ≡ args.gin_op
  pub rest_kept : record a { gin_rsm = args.gin_rsm; gin_op = args.gin_op } ≡ args

-- The benchmark implements what is asked for.
pub record Supports (caps : GinTestCaps) (a : Args) : Type 0 where
  pub rsm_set : caps.default_rsm ≢ rsm_unset → a.gin_rsm ≢ rsm_unset
  pub thread_rsm : a.gin_rsm ≡ rsm_thread → caps.allow_thread_rsm ≡ true
  pub op_known :
      ((caps.op_mask ≡ 0) × (a.gin_op ≡ op_unset)) ⊎ (in_mask caps.op_mask a.gin_op ≡ true)
  pub strong_signal :
      a.gin_strong_signal ≡ true → (caps.is_signal_op ≡ true) ⊎ (a.gin_op ≡ op_put_signal)
  pub aggregates :
      a.gin_aggregate_requests ≡ true
      → (caps.allow_aggregate_requests ≡ true) × (whole_warps a.num_threads ≡ true)
  pub bidirectional : a.gin_bidirectional ≡ true → caps.allow_bidirectional ≡ true
  pub one_thread :
      caps.allow_multi_cta_threads ≡ false → (a.num_ctas ≡ pos 1) × (a.num_threads ≡ pos 1)

configured :
    (caps : GinTestCaps) (args a : Args)
    → configure_op caps args ≡ some a
    → (((caps.op_mask ≡ 0) × (a.gin_op ≡ op_unset)) ⊎ (in_mask caps.op_mask a.gin_op ≡ true))
      × (args.gin_op ≢ op_unset → a.gin_op ≡ args.gin_op)
      × (record a { gin_op = args.gin_op } ≡ args)
unfolding configure_op
configured caps args a h = ground arith

supported-some :
    (caps : GinTestCaps) (o : Option Args) (a : Args)
    → supported caps o ≡ some a
    → (o ≡ some a) × (unsupported caps a ≡ false)
supported-some caps none a h = cc
supported-some caps (some b) a h = elim (Bool-cases (unsupported caps b)) [
  | inl u ↦ absurd (cc)
  | inr u ↦ let e : some b ≡ some a = sym (rw u refl) ∙ h in (e, cc)
]

Supports-of :
    (caps : GinTestCaps) (a : Args)
    → (((caps.op_mask ≡ 0) × (a.gin_op ≡ op_unset)) ⊎ (in_mask caps.op_mask a.gin_op ≡ true))
    → (caps.default_rsm ≢ rsm_unset → a.gin_rsm ≢ rsm_unset)
    → (a.gin_rsm ≡ rsm_thread → caps.allow_thread_rsm ≡ true)
    → unsupported caps a ≡ false
    → Supports caps a
Supports-of caps a op rsm thread u = record {
  rsm_set = rsm;
  thread_rsm = thread;
  op_known = op;
  strong_signal = ground arith;
  aggregates = ground arith;
  bidirectional = ground arith;
  one_thread = ground arith;
}

rsm-facts :
    (caps : GinTestCaps) (args a : Args)
    → (not caps.allow_thread_rsm && is_thread (with_rsm caps args).gin_rsm) ≡ false
    → record a { gin_op = (with_rsm caps args).gin_op } ≡ with_rsm caps args
    → (caps.default_rsm ≢ rsm_unset → a.gin_rsm ≢ rsm_unset)
      × (a.gin_rsm ≡ rsm_thread → caps.allow_thread_rsm ≡ true)
      × (args.gin_rsm ≢ rsm_unset → a.gin_rsm ≡ args.gin_rsm)
      × (record a { gin_rsm = args.gin_rsm; gin_op = args.gin_op } ≡ args)
rsm-facts caps args a n e = (ground arith, ground arith, ground arith, ground arith)

op-kept : (caps : GinTestCaps) (args : Args) → (with_rsm caps args).gin_op ≡ args.gin_op
op-kept caps args = ground arith

-- When `configure_test_args` lets the arguments through, the benchmark supports every one of them, those
-- that were left open have the benchmark's defaults, and nothing else has changed.
pub configure_test_args-Supports :
    (caps : GinTestCaps) (args a : Args)
    → configure_test_args caps args ≡ some a
    → Supports caps a × Keeps args a
unfolding configure_test_args configure_op
configure_test_args-Supports caps args a h =
    elim (Bool-cases (not caps.allow_thread_rsm && is_thread (with_rsm caps args).gin_rsm)) [
      | inl n ↦ absurd (cc)
      | inr n ↦
          let (e, u) =
            supported-some caps (configure_op caps (with_rsm caps args)) a (sym (rw n refl) ∙ h) in
          let (op, kept, rest) = configured caps (with_rsm caps args) a e in
          let (r1, r2, r3, r4) = rsm-facts caps args a n rest in
          (
            Supports-of caps a op r1 r2 u,
            record {
              rsm_kept = r3;
              op_kept = λ ne. kept (λ z. ne (sym (op-kept caps args) ∙ z)) ∙ op-kept caps args;
              rest_kept = r4;
            },
          )
    ]
