-- ===== src/SizeLoop/Tests.antt =====
-- The loop over the sizes in src/common.cu for concrete ranges.
use nccl_tests.Prelude.{ℕ, suc, ◌≡◌, refl, some, List, [], ◌∷◌, arith}
use nccl_tests.SizeLoop.{Range, size_loop}
use nccl_tests.SizeLoop.Ends.{Grows, Visits, bodies, size_loop-Visits}

abbrev one : ℕ → List ℕ
one size = size ∷ []

-- `-b 8 -e 64 -f 2`.
abbrev doubling : Range
doubling = record { minbytes = 8; maxbytes = 64; stepbytes = 1048576; stepfactor = 2 }

doubled : size_loop one doubling 66 8 ≡ some (8 ∷ 16 ∷ 32 ∷ 64 ∷ [])
unfolding size_loop
doubled = refl

doubling-Grows : Grows doubling
doubling-Grows = record {
  by_factor = λ h. (omega arith, omega arith);
  by_bytes = λ h. absurd (omega arith);
}

size_loop-Visits_example :
    (sizes : List ℕ) × (size_loop one doubling (suc (suc doubling.maxbytes)) doubling.minbytes
      ≡ some (bodies one sizes))
    × Visits doubling doubling.minbytes sizes
size_loop-Visits_example = size_loop-Visits one doubling doubling-Grows
