-- ===== src/CommandLine/Consistent.antt =====
-- What the options of src/common.cu are when `main` goes on with them.
use nccl_tests.Prelude.{
  ℕ, ◌≡◌, subst, pos, negsuc, is_neg, Bool, true, false, ◌&&◌, ◌||◌, not, List, if◌then◌else◌,
  arith,
}
use nccl_tests.Launch.{int_is}
use nccl_tests.CommandLine.Options.{
  Options, default_options, Found, Parsed, returns, undefined_size, goes_on, int_above,
  int_at_least, set_options, refused, adjusted, timing_known, timing_without_graph,
  blocking_without_graph, skip_in_range, skip_of_timing, main_options,
}
use nccl_tests.CommandLine.Supported.{
  Supported, Checked, Adjusted, Consistent, Goes, unless-Goes, default-Supported,
  set_options-Supported,
}

-- The options that are switched off are not among those that the other checks read.
if_both : (P : Options → Type 0) (b : Bool) (x y : Options) → P x → P y → P (if b then x else y)
if_both P true x y h k = h
if_both P false x y h k = k

adjusted_timing : (o : Options) → Adjusted (adjusted o)
adjusted_timing o = record {
  timing = ground arith;
  no_graph = λ k. ground arith;
  no_paired_graph = λ k. ground arith;
  skip = ground arith;
}

refused-Checked : (running : ℕ) (o : Options) → refused running o ≡ false → Checked running o
unfolding refused
refused-Checked running o h = record {
  sizes = ground arith;
  device_registered = λ k. ground arith;
  one_implementation = λ k. ground arith;
  rma_registered = λ k. ground arith;
  many_contexts = λ k. ground arith;
}

abbrev Kept : (running : ℕ) → Options → Type 0
Kept running o = Supported running o × Checked running o

timing_known_keeps : (running : ℕ) (o : Options) → Kept running o → Kept running (timing_known o)
timing_known_keeps running o h =
    if_both (Kept running) (not (int_is o.per_iter_timing 0) && not (int_is o.per_iter_timing 1))
      (record o { per_iter_timing = pos 0 }) o h h

timing_without_graph_keeps :
    (running : ℕ) (o : Options) → Kept running o → Kept running (timing_without_graph o)
timing_without_graph_keeps running o h =
    if_both (Kept running) (not (int_is o.per_iter_timing 0) && int_above o.cuda_graph_launches 0)
      (record o { per_iter_timing = pos 0 }) o h h

blocking_without_graph_keeps :
    (running : ℕ) (o : Options) → Kept running o → Kept running (blocking_without_graph o)
blocking_without_graph_keeps running o h =
    if_both (Kept running) (int_is o.blocking_coll 3 && int_above o.cuda_graph_launches 0)
      (record o { blocking_coll = pos 0 }) o h h

skip_in_range_keeps : (running : ℕ) (o : Options) → Kept running o → Kept running (skip_in_range o)
skip_in_range_keeps running o h =
    if_both (Kept running) (is_neg o.per_iter_skip || int_at_least o.per_iter_skip o.iters)
      (record o { per_iter_skip = pos 0 }) o h h

skip_of_timing_keeps :
    (running : ℕ) (o : Options) → Kept running o → Kept running (skip_of_timing o)
skip_of_timing_keeps running o h =
    if_both (Kept running) (not (int_is o.per_iter_skip 0) && int_is o.per_iter_timing 0)
      (record o { per_iter_skip = pos 0 }) o h h

-- If main goes on, whatever options it was given and whatever version runs, its options agree: the
-- smallest size is not above the largest; an implementation of -D above 0, and -H, have -R 2, and
-- the two are not both in use; -R 2, a --tuning and a -D other than 0, a policy above 1, -H and
-- more than one context have the version that brought them; -V is from 1 to 128 and there is at
-- least one context; the times of iterations are off or on, and on without a graph only; mode 3 of
-- -z is without a graph only; and iterations are skipped only if they are timed, not fewer than
-- none, and fewer than there are.
pub main_options-Consistent :
    (running : ℕ) (fs : List Found) (o : Options)
    → main_options running fs ≡ goes_on o
    → Consistent running o
unfolding main_options
main_options-Consistent running fs o e = subst (Goes (Consistent running)) e (
    checks (set_options running fs default_options)
      (set_options-Supported running fs default_options (default-Supported running)))
  where
    consistent : (o : Options) → Kept running o → Consistent running (adjusted o)
    consistent o h =
        let kept : Kept running (adjusted o) =
          skip_of_timing_keeps running
            (skip_in_range (blocking_without_graph (timing_without_graph (timing_known o))))
            (skip_in_range_keeps running
              (blocking_without_graph (timing_without_graph (timing_known o)))
              (blocking_without_graph_keeps running (timing_without_graph (timing_known o)) (
                timing_without_graph_keeps running (timing_known o)
                  (timing_known_keeps running o h)))) in
        record { supported = kept.0; checked = kept.1; adjusted = adjusted_timing o }

    checks :
        (r : Parsed)
        → Goes (Supported running) r
        → Goes (Consistent running) (elim r [
          | returns code ↦ returns code
          | undefined_size ↦ undefined_size
          | goes_on o ↦ if refused running o then returns (negsuc 0) else goes_on (adjusted o)
        ])
    checks (returns code) s = tt
    checks undefined_size s = tt
    checks (goes_on o) s =
        unless-Goes (Consistent running) (refused running o) (negsuc 0) (goes_on (adjusted o))
          (λ h. consistent o (s, refused-Checked running o h))
