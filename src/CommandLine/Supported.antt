-- ===== src/CommandLine/Supported.antt =====
-- What the options of src/common.cu keep to, and the loop of `main` that sets them.
use nccl_tests.Prelude.{
  ℕ, ◌≤◌, ◌≡◌, refl, ◌⊎◌, ℤ, negsuc, is_neg, Bool, true, false, ◌||◌, not, List, [], ◌∷◌, ltb, leb,
  if◌then◌else◌, arith,
}
use nccl_tests.Launch.{int_is}
use nccl_tests.Gin.Number.{to_int}
use nccl_tests.CommandLine.Numbers.{strtol, int_arg, Size, invalid, undefined, bytes, size_option}
use nccl_tests.CommandLine.Names.{version}
use nccl_tests.CommandLine.Options.{
  Options, default_options, Found, nthreads, ngpus, stepfactor, iters, agg_iters, warmup_iters,
  run_cycles, parallel_init, check, op, datatype, root, blocking, stream_null, timeout, cudagraph,
  report_cputime, report_timestamps, output_file, average, local_register, memory, per_iter_timing,
  per_iter_skip, tuning, cta_policy, device_implementation, device_cta_count, unalign,
  host_rma_implementation, minbytes, maxbytes, stepbytes, help, Parsed, returns, undefined_size,
  goes_on, int_below, int_above, int_at_least, with_size, register_mode, tuning_mode, policy_mode,
  cta_count, host_rma, set_option, set_options, is_nul,
}

-- The limits that the loop keeps: what a version has, and the ranges of -V and -H.
pub record Limits (running : ℕ) (register tuning policy device ctas : ℤ) (rma : Bool) (contexts : ℤ)
    : Type 0 where
  pub symmetric : int_is register 2 ≡ true → version 27 ≤ running
  pub tuned : int_is tuning 0 ≡ false → version 28 ≤ running
  pub policied : int_above policy 1 ≡ true → version 28 ≤ running
  pub on_device : int_is device 0 ≡ false → version 28 ≤ running
  pub some_ctas : int_below ctas 1 ≡ false
  pub few_ctas : int_above ctas 128 ≡ false
  pub with_rma : rma ≡ true → version 29 ≤ running
  pub some_contexts : int_below contexts 1 ≡ false

abbrev pub Supported : (running : ℕ) → Options → Type 0
Supported running o =
    Limits running o.local_register o.tuning o.cta_policy o.device_impl o.device_cta_count
      o.host_rma_impl o.rma_ctx_count

-- The checks behind the loop that end the program.
pub record Checks (running min_bytes max_bytes : ℕ) (register device contexts : ℤ) (rma : Bool)
    : Type 0 where
  pub sizes : min_bytes ≤ max_bytes
  pub device_registered : int_above device 0 ≡ true → int_is register 2 ≡ true
  pub one_implementation : rma ≡ true → int_above device 0 ≡ false
  pub rma_registered : rma ≡ true → int_is register 2 ≡ true
  pub many_contexts : int_above contexts 1 ≡ true → version 31 ≤ running

abbrev pub Checked : (running : ℕ) → Options → Type 0
Checked running o =
    Checks running o.min_bytes o.max_bytes o.local_register o.device_impl o.rma_ctx_count
      o.host_rma_impl

-- What the checks that switch options off see to.
pub record Adjusted (o : Options) : Type 0 where
  pub timing : (int_is o.per_iter_timing 0 ≡ true) ⊎ (int_is o.per_iter_timing 1 ≡ true)
  pub no_graph : int_is o.per_iter_timing 1 ≡ true → int_above o.cuda_graph_launches 0 ≡ false
  pub no_paired_graph : int_is o.blocking_coll 3 ≡ true → int_above o.cuda_graph_launches 0 ≡ false
  pub skip :
      (int_is o.per_iter_skip 0 ≡ true)
      ⊎ ((is_neg o.per_iter_skip ≡ false)
          × (int_at_least o.per_iter_skip o.iters ≡ false)
          × (int_is o.per_iter_timing 1 ≡ true))

pub record Consistent (running : ℕ) (o : Options) : Type 0 where
  pub supported : Supported running o
  pub checked : Checked running o
  pub adjusted : Adjusted o

-- What holds of the options with which the program goes on, if it does.
abbrev pub Goes {ℓ} : (Options → Type ℓ) → Parsed → Type ℓ
Goes P (returns code) = Unit
Goes P undefined_size = Unit
Goes P (goes_on o) = P o

pub with_size-Goes :
    (P : Options → Type 0) (z : Size) (f : ℕ → Options)
    → ((n : ℕ) → P (f n))
    → Goes P (with_size z f)
with_size-Goes P invalid f h = tt
with_size-Goes P undefined f h = tt
with_size-Goes P (bytes n) f h = h n

pub if-Goes :
    (P : Options → Type 0) (b : Bool) (o : Options) (code : ℤ)
    → (b ≡ true → P o)
    → Goes P (if b then goes_on o else returns code)
if-Goes P true o code h = h refl
if-Goes P false o code h = tt

pub unless-Goes :
    (P : Options → Type 0) (b : Bool) (code : ℤ) (p : Parsed)
    → (b ≡ false → Goes P p)
    → Goes P (if b then returns code else p)
unless-Goes P true code p h = tt
unless-Goes P false code p h = h refl

pub default-Supported : (running : ℕ) → Supported running default_options
default-Supported running = record {
  symmetric = λ h. ground arith;
  tuned = λ h. ground arith;
  policied = λ h. ground arith;
  on_device = λ h. ground arith;
  some_ctas = refl;
  few_ctas = refl;
  with_rma = λ h. ground arith;
  some_contexts = refl;
}

pub register_mode-version :
    (running : ℕ) (z : ℤ) → int_is (register_mode running z) 2 ≡ true → version 27 ≤ running
register_mode-version running z h = ground arith

pub tuning_mode-version :
    (running : ℕ) (z : ℤ) → int_is (tuning_mode running z) 0 ≡ false → version 28 ≤ running
tuning_mode-version running z h = ground arith

pub policy_mode-version :
    (running : ℕ) (z : ℤ) → int_above (policy_mode running z) 1 ≡ true → version 28 ≤ running
policy_mode-version running z h = ground arith

pub cta_count_some : (z : ℤ) → int_below (cta_count z) 1 ≡ false
cta_count_some z = ground arith

pub cta_count_few : (z : ℤ) → int_above (cta_count z) 128 ≡ false
cta_count_few z = ground arith

pub host_rma-Goes :
    (running : ℕ) (r : ℤ × List ℕ) (o : Options)
    → Supported running o
    → Goes (Supported running) (host_rma running r o)
host_rma-Goes running (val, endptr) o s =
    unless-Goes (Supported running) (ltb running (version 29)) (negsuc 0)
      (if not (is_nul endptr) || int_below (to_int val) 1
        then returns (negsuc 0)
        else goes_on (record o { host_rma_impl = true; rma_ctx_count = to_int val }))
      (λ h.
        unless-Goes (Supported running) (not (is_nul endptr) || int_below (to_int val) 1) (negsuc 0)
          (goes_on (record o { host_rma_impl = true; rma_ctx_count = to_int val }))
          (λ k. record {
            symmetric = s.symmetric;
            tuned = s.tuned;
            policied = s.policied;
            on_device = s.on_device;
            some_ctas = s.some_ctas;
            few_ctas = s.few_ctas;
            with_rma = λ e. ground arith;
            some_contexts = ground arith;
          }))

pub set_option-Supported :
    (running : ℕ) (f : Found) (o : Options)
    → Supported running o
    → Goes (Supported running) (set_option running f o)
unfolding set_option
set_option-Supported running (minbytes t) o s =
    with_size-Goes (Supported running) (size_option t) (λ n. record o { min_bytes = n }) (λ n. s)
set_option-Supported running (maxbytes t) o s =
    with_size-Goes (Supported running) (size_option t) (λ n. record o { max_bytes = n }) (λ n. s)
set_option-Supported running (stepbytes t) o s =
    with_size-Goes (Supported running) (size_option t) (λ n. record o { step_bytes = n }) (λ n. s)
set_option-Supported running (local_register t) o s = record {
  symmetric = register_mode-version running (int_arg t);
  tuned = s.tuned;
  policied = s.policied;
  on_device = s.on_device;
  some_ctas = s.some_ctas;
  few_ctas = s.few_ctas;
  with_rma = s.with_rma;
  some_contexts = s.some_contexts;
}
set_option-Supported running (tuning t) o s = record {
  symmetric = s.symmetric;
  tuned = tuning_mode-version running (int_arg t);
  policied = s.policied;
  on_device = s.on_device;
  some_ctas = s.some_ctas;
  few_ctas = s.few_ctas;
  with_rma = s.with_rma;
  some_contexts = s.some_contexts;
}
set_option-Supported running (cta_policy t) o s = record {
  symmetric = s.symmetric;
  tuned = s.tuned;
  policied = policy_mode-version running (int_arg t);
  on_device = s.on_device;
  some_ctas = s.some_ctas;
  few_ctas = s.few_ctas;
  with_rma = s.with_rma;
  some_contexts = s.some_contexts;
}
set_option-Supported running (device_implementation t) o s =
    if-Goes (Supported running) (leb (version 28) running) (record o { device_impl = int_arg t })
      (negsuc 0)
      (λ h. record {
        symmetric = s.symmetric;
        tuned = s.tuned;
        policied = s.policied;
        on_device = λ k. ground arith;
        some_ctas = s.some_ctas;
        few_ctas = s.few_ctas;
        with_rma = s.with_rma;
        some_contexts = s.some_contexts;
      })
set_option-Supported running (device_cta_count t) o s =
    if-Goes (Supported running) (leb (version 28) running)
      (record o { device_cta_count = cta_count (int_arg t) }) (negsuc 0)
      (λ h. record {
        symmetric = s.symmetric;
        tuned = s.tuned;
        policied = s.policied;
        on_device = s.on_device;
        some_ctas = cta_count_some (int_arg t);
        few_ctas = cta_count_few (int_arg t);
        with_rma = s.with_rma;
        some_contexts = s.some_contexts;
      })
set_option-Supported running (host_rma_implementation t) o s = host_rma-Goes running (strtol t) o s
set_option-Supported running help o s = tt
set_option-Supported running (nthreads t) o s = s
set_option-Supported running (ngpus t) o s = s
set_option-Supported running (stepfactor t) o s = s
set_option-Supported running (iters t) o s = s
set_option-Supported running (agg_iters t) o s = s
set_option-Supported running (warmup_iters t) o s = s
set_option-Supported running (run_cycles t) o s = s
set_option-Supported running (parallel_init t) o s = s
set_option-Supported running (check t) o s = s
set_option-Supported running (op t) o s = s
set_option-Supported running (datatype t) o s = s
set_option-Supported running (root t) o s = s
set_option-Supported running (blocking t) o s = s
set_option-Supported running (stream_null t) o s = s
set_option-Supported running (timeout t) o s = s
set_option-Supported running (cudagraph t) o s = s
set_option-Supported running (report_cputime t) o s = s
set_option-Supported running (report_timestamps t) o s = s
set_option-Supported running (output_file t) o s = s
set_option-Supported running (average t) o s = s
set_option-Supported running (memory t) o s = s
set_option-Supported running (per_iter_timing t) o s = s
set_option-Supported running (per_iter_skip t) o s = s
set_option-Supported running (unalign t) o s = s

pub set_options-Supported :
    (running : ℕ) (fs : List Found) (o : Options)
    → Supported running o
    → Goes (Supported running) (set_options running fs o)
unfolding set_options
set_options-Supported running [] o s = s
set_options-Supported running (f ∷ fs) o s =
    go (set_option running f o) (set_option-Supported running f o s)
      (λ o' s'. set_options-Supported running fs o' s')
  where
    go :
        (r : Parsed)
        → Goes (Supported running) r
        → ((o' : Options)
            → Supported running o'
            → Goes (Supported running) (set_options running fs o'))
        → Goes (Supported running) (elim r [
          | returns code ↦ returns code
          | undefined_size ↦ undefined_size
          | goes_on o' ↦ set_options running fs o'
        ])
    go (returns code) t rec = tt
    go undefined_size t rec = tt
    go (goes_on o') t rec = rec o' t
