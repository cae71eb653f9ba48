-- ===== src/Hypercube/Tests.antt =====
-- Eight ranks gather their blocks as in src/hypercube.cu.
use nccl_tests.Prelude.{ℕ, ◌^◌, ◌+◌, ◌<◌, ◌≡◌, some, refl, Option, none}
use nccl_tests.Hypercube.{exchange, gather, hyper_cube_run_coll}
use nccl_tests.Hypercube.Gathers.{hyper_cube_run_coll_gathers}

abbrev block_at : Option (ℕ → ℕ → ℕ) → (rank slot : ℕ) → ℕ
block_at none rank slot = 0
block_at (some blocks) rank slot = blocks rank slot

six_from_rank_3 : block_at (hyper_cube_run_coll 4 8 (λ rank. 100 + rank) (λ rank slot. 0)) 3 6 ≡ 106
unfolding hyper_cube_run_coll gather exchange
six_from_rank_3 = refl

hyper_cube_run_coll_gathers_example :
    (got : ℕ → ℕ → ℕ) × (hyper_cube_run_coll 4 (2 ^ 3) (λ rank. 100 + rank) (λ rank slot. 0)
      ≡ some got)
    × ((rank slot : ℕ) → rank < 2 ^ 3 → slot < 2 ^ 3 → got rank slot ≡ 100 + slot)
hyper_cube_run_coll_gathers_example =
    hyper_cube_run_coll_gathers 3 (λ rank. 100 + rank) (λ rank slot. 0)
