-- ===== src/Hypercube.antt =====
-- The gathering of src/hypercube.cu: in each round a rank and its partner, which differs from it in one bit, exchange
-- all that they have. A buffer is taken as its blocks, one for each rank.
pub mod Toggle
pub mod Step
pub mod Gathers
mod Tests
use Prim.Native.Nat.{bit_xor}
use nccl_tests.Prelude.{
  ℕ, zero, suc, ◌+◌, ◌-◌, ◌*◌, ◌%◌, Option, none, some, ◌&&◌, ◌==◌, ltb, leb, if◌then◌else◌,
}

-- `rank & ~(mask-1)`. `mask` is a power of two, so that what is taken off is the remainder by it.
abbrev pub sent_from : (mask rank : ℕ) → ℕ
sent_from mask rank = rank - rank % mask

-- What all the ranks have after `ncclSend` and `ncclRecv` of one round: the blocks from `r` on come from the partner,
-- which sends its own from `sent_from mask partner` on.
unfoldable pub exchange : (mask : ℕ) → (blocks : ℕ → ℕ → ℕ) → (rank slot : ℕ) → ℕ
exchange mask blocks rank slot =
    let partner = bit_xor rank mask in
    let r = bit_xor (sent_from mask rank) mask in
    if leb r slot && ltb slot (r + mask)
    then blocks partner (sent_from mask partner + (slot - r))
    else blocks rank slot

-- The loop over the masks; `none` is out of fuel.
unfoldable pub gather : (fuel mask nranks : ℕ) → (ℕ → ℕ → ℕ) → Option (ℕ → ℕ → ℕ)
gather zero mask nranks blocks = none
gather (suc fuel) mask nranks blocks =
    let rest = gather fuel (mask * 2) nranks (exchange mask blocks) in
    if ltb mask nranks then rest else some blocks

-- `HyperCubeRunColl` on every rank: the own block is copied first.
unfoldable pub hyper_cube_run_coll :
    (fuel nranks : ℕ) → (sent : ℕ → ℕ) → (received : ℕ → ℕ → ℕ) → Option (ℕ → ℕ → ℕ)
hyper_cube_run_coll fuel nranks sent received =
    gather fuel 1 nranks (λ rank slot. if slot == rank then sent rank else received rank slot)
