-- ===== src/Profiler/Variant.antt =====
-- The kernel variant's name in `ncclProfilerStartEvent_v7` of src/util.cu, without the name of the
-- collective in front.
use nccl_tests.Prelude.{ℕ, ◌≡◌, refl, ◌≢◌, List, [], ◌∷◌, ◌++◌, ◌==◌, if◌then◌else◌, arith}

-- `strncmp(s, func, strlen(func)) == 0 && s[len] == '_'`, and then `s + len + 1`; else `s` itself.
-- `whole` is the string that the caller began with.
strip_from : (whole s func : List ℕ) → List ℕ
strip_from whole (x ∷ s) [] = if x == 0x5f then s else whole
strip_from whole [] func = whole
strip_from whole (x ∷ s) (y ∷ func) =
    let rest = strip_from whole s func in if x == y then rest else whole

unfoldable pub strip_func : List ℕ → List ℕ → List ℕ
unfolding strip_from
strip_func variant func = strip_from variant variant func

strip_from-prefix : (whole func rest : List ℕ) → strip_from whole (func ++ 0x5f ∷ rest) func ≡ rest
unfolding strip_from
strip_from-prefix whole [] rest = refl
strip_from-prefix whole (y ∷ func) rest = ground (arith, strip_from-prefix whole func rest)

strip_from-cases :
    (whole s func : List ℕ)
    → (strip_from whole s func ≢ whole)
    → s ≡ func ++ 0x5f ∷ strip_from whole s func
unfolding strip_from
strip_from-cases whole (x ∷ s) [] h = ground arith
strip_from-cases whole [] [] h = absurd (h refl)
strip_from-cases whole [] (y ∷ func) h = absurd (h refl)
strip_from-cases whole (x ∷ s) (y ∷ func) h = ground (arith, strip_from-cases whole s func)

-- A variant that begins with the collective's name and an underscore loses exactly these, and a
-- variant that changes at all had them.
pub strip_func_exact :
    (variant func : List ℕ)
    → ((rest : List ℕ) → variant ≡ func ++ 0x5f ∷ rest → strip_func variant func ≡ rest)
      × (strip_func variant func ≢ variant → variant ≡ func ++ 0x5f ∷ strip_func variant func)
unfolding strip_func
strip_func_exact variant func =
    (λ rest e. rw e (strip_from-prefix _ func rest), strip_from-cases variant variant func)
