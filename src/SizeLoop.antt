-- ===== src/SizeLoop.antt =====
-- The loop over the sizes in `TimeTest` of src/common.cu. What it does for a size is a parameter.
pub mod Ends
mod Tests
use nccl_tests.Prelude.{
  ℕ, zero, suc, ◌+◌, ◌*◌, ◌%◌, ◌^◌, Option, none, some, List, [], ◌∷◌, ◌++◌, ltb, if◌then◌else◌,
}
use mathlib.Core.Option.{map as map_option}

-- The fields of `threadArgs` that the loop reads.
pub record Range : Type 0 where
  pub minbytes : ℕ
  pub maxbytes : ℕ
  pub stepbytes : ℕ
  pub stepfactor : ℕ

-- The third part of the `for` statement.
abbrev pub following : Range → ℕ → ℕ
following r size =
    if ltb 1 r.stepfactor then size * r.stepfactor % 2 ^ 64 else (size + r.stepbytes) % 2 ^ 64

-- The loop from `size` on; `none` is a loop that is not over after `fuel` tests of its condition.
unfoldable pub size_loop {ℓ} : {A : Type ℓ} → (ℕ → List A) → Range → ℕ → ℕ → Option (List A)
size_loop body r zero size = none
size_loop body r (suc fuel) size =
    let rest = size_loop body r fuel (following r size) in
    if ltb r.maxbytes size then some [] else map_option (λ l. body size ++ l) rest
