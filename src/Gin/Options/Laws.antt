-- ===== src/Gin/Options/Laws.antt =====
-- What `parse_args` of src/device_api/gin/utils/args.cc accepts.
use nccl_tests.Prelude.{
  ℕ, ◌%◌, ◌<◌, ◌≤◌, ◌≡◌, refl, ◌↔◌, ◌⊎◌, inl, inr, ℤ, pos, negsuc, Bool, true, false, Option, none,
  some, List, if◌then◌else◌, arith, Bool-cases, sym, subst, ◌∙◌,
}
use nccl_tests.Gin.Options.{
  Args, Found, set_options, default_args, refused, validated, parse_args, gin_max_buffer_bytes,
}

-- An `int` above `n`.
abbrev pub Above : ℕ → ℤ → Type 0
Above n (pos m) = n < m
Above n (negsuc m) = n < 0

abbrev pub NotNegative : ℤ → Type 0
NotNegative (pos m) = 0 ≤ m
NotNegative (negsuc m) = 1 ≤ 0

-- Arguments a benchmark can run with.
pub record IsValid (a : Args) : Type 0 where
  pub min_positive : 0 < a.minbytes
  pub min_le_max : a.minbytes ≤ a.maxbytes
  pub min_words : a.minbytes % 4 ≡ 0
  pub max_words : a.maxbytes % 4 ≡ 0
  pub max_fits : a.maxbytes ≤ gin_max_buffer_bytes
  pub step_grows : (0 < a.stepbytes) ⊎ Above 1 a.stepfactor
  pub step_words : a.stepbytes % 4 ≡ 0
  pub warmup_counts : NotNegative a.warmup_iters
  pub iters_positive : Above 0 a.iters
  pub ctas_positive : Above 0 a.num_ctas
  pub threads_positive : Above 0 a.num_threads
  pub depth_positive : Above 0 a.queue_depth

refused-IsValid : (a : Args) → refused a ≡ false → IsValid a
unfolding refused
refused-IsValid a h = ground arith

IsValid-refused : (a : Args) → IsValid a → refused a ≡ false
unfolding refused
IsValid-refused a v = ground arith

judged :
    (x : Option Args) (positional : Bool) (a : Args)
    → (elim x [ none ↦ none | some y ↦ if positional then none else validated y ] ≡ some a)
      ↔ ((x ≡ some a) × (positional ≡ false) × IsValid a)
judged none positional a = (λ e. cc, λ (e, p, v). cc)
judged (some y) true a = (λ e. cc, λ (e, p, v). cc)
judged (some y) false a = (there, back)
  where
    there : validated y ≡ some a → (some y ≡ some a) × (false ≡ false) × IsValid a
    there e = elim (Bool-cases (refused y)) [
      | inl r ↦ absurd (cc)
      | inr r ↦
          let e' : some y ≡ some a = sym (rw r refl) ∙ e in
          (
            e',
            refl,
            subst (λ o. elim o [ none ↦ Unit | some z ↦ IsValid z ]) e' (refused-IsValid y r),
          )
    ]

    back : (some y ≡ some a) × (false ≡ false) × IsValid a → validated y ≡ some a
    back (e, p, v) =
        let r : refused y ≡ false =
          subst (λ o. elim o [ none ↦ true | some z ↦ refused z ] ≡ false) (sym e)
            (IsValid-refused a v) in
        rw r e

-- `parse_args` ends in success exactly when every option's text is accepted, no positional argument is
-- left, and the arguments that the options leave are fit for a run, and then these are its result.
pub parse_args_iff :
    (os : List Found) (positional : Bool) (a : Args)
    → (parse_args os positional ≡ some a)
      ↔ ((set_options os default_args ≡ some a) × (positional ≡ false) × IsValid a)
unfolding parse_args
parse_args_iff os positional a = judged (set_options os default_args) positional a
