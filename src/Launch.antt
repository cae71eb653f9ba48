-- ===== src/Launch.antt =====
-- How a collective is called: `AllocateBuffs`, `startColl` and `completeColl` of src/common.cu. The
-- calls of CUDA, NCCL and of the collective's `runColl` are the steps of a thread, in order; a call that
-- fails ends the function, so the steps are those of a call in which none fails.
pub mod Bounds
mod Tests
use nccl_tests.Prelude.{
  ℕ, zero, suc, ◌+◌, ◌-◌, ◌*◌, ◌/◌, ◌%◌, ◌^◌, max, ℤ, pos, negsuc, Bool, true, false, ◌&&◌, not,
  Option, none, some, List, [], ◌∷◌, ◌++◌, ltb, leb, ◌==◌, if◌then◌else◌,
}
use nccl_tests.Collectives.{times, Sizes}

-- A product and a sum of two `int`s, as the 32 bits that they come round to.
abbrev pub int_times : ℕ → ℕ → ℕ
int_times a b = a * b % 2 ^ 32

abbrev pub int_plus : ℕ → ℕ → ℕ
int_plus a b = (a + b) % 2 ^ 32

-- 32 bits of an `int` as a `size_t`: the sign goes on.
abbrev pub size_of_int : ℕ → ℕ
size_of_int x = if ltb x (2 ^ 31) then x else x + (2 ^ 64 - 2 ^ 32)

-- `AllocateBuffs`: the bytes of a send or a receive buffer. `unalign` is not negative here, but its product is
-- one of `int`s.
abbrev pub alloc_bytes : (nbytes unalign : ℕ) → ℕ
alloc_bytes nbytes unalign = (nbytes + size_of_int (int_times 8 unalign)) % 2 ^ 64

-- The offset of an iteration in `startColl`. `none` is a division by zero.
unfoldable pub shift : (maxbytes : ℕ) → Sizes → (iter : ℕ) → Option ℕ
shift maxbytes s iter =
    let total = max s.send_bytes s.expected_bytes in
    let steps = if total == 0 then 1 else maxbytes / total in
    if steps == 0 then none else some (times total (iter % steps))

-- The rank of the thread's GPU `i`.
abbrev pub rank_of : (proc n_threads thread n_gpus i : ℕ) → ℕ
rank_of proc n_threads thread n_gpus i =
    int_plus (int_times (int_plus (int_times proc n_threads) thread) n_gpus) i

-- What the collective gets: a pointer, or a registered window.
pub data Mode : Type 0 where
  pointers windows : Mode

-- The buffers and offsets that `runColl` is called with. A base is counted from the start of the buffer's
-- memory; `send_in_recv` is that the receive buffer is sent from.
pub record Regions : Type 0 where
  pub send_in_recv : Bool
  pub send_base : ℕ
  pub send_offset : ℕ
  pub recv_base : ℕ
  pub recv_offset : ℕ

abbrev pub in_place_offset : (in_place : Bool) (offset rank : ℕ) → ℕ
in_place_offset in_place offset rank = if in_place then times offset rank else 0

-- `TimeTest` has moved the pointers by `unalign * wordSize(type)`; a window begins with the memory.
abbrev pub regions : Mode → (in_place : Bool) → Sizes → (shift unalign_bytes rank : ℕ) → Regions
regions pointers in_place s shift unalign_bytes rank = record {
  send_in_recv = in_place;
  send_base = unalign_bytes + shift;
  send_offset = in_place_offset in_place s.send_inplace_offset rank;
  recv_base = unalign_bytes + shift;
  recv_offset = in_place_offset in_place s.recv_inplace_offset rank;
}
regions windows in_place s shift unalign_bytes rank = record {
  send_in_recv = in_place;
  send_base = 0;
  send_offset = shift + in_place_offset in_place s.send_inplace_offset rank + unalign_bytes;
  recv_base = 0;
  recv_offset = shift + in_place_offset in_place s.recv_inplace_offset rank + unalign_bytes;
}

-- What a thread calls. A step on a GPU names it, a call of `runColl` its iteration too, and a call on an
-- event its place in `args->events`.
pub data Step : Type 0 where
  group_start group_end synchronize barrier check_data all_reduce : Step
  create_op destroy_op : (gpu : ℕ) → Step
  run_coll : (gpu iter : ℕ) → Step
  init_data : (rep : ℕ) → Step
  create_event destroy_event : (slot : ℕ) → Step
  record_event : (gpu slot : ℕ) → Step
  elapsed_time : (gpu start stop : ℕ) → Step
  begin_capture end_capture instantiate_graph launch_graph destroy_graph : (gpu : ℕ) → Step

-- A loop from `i` on, of `n` rounds.
abbrev pub for_each : (ℕ → List Step) → (i n : ℕ) → List Step
for_each f i zero = []
for_each f i (suc n) = f i ++ for_each f (suc i) n

abbrev pub when : Bool → List Step → List Step
when true l = l
when false l = []

-- An `int` of the options against a number.
abbrev pub int_is : ℤ → ℕ → Bool
int_is (pos n) m = n == m
int_is (negsuc n) m = false

-- `blocking_coll && blocking_coll != 3`.
abbrev pub blocks : (blocking_coll : ℤ) → Bool
blocks blocking_coll = not (int_is blocking_coll 0) && not (int_is blocking_coll 3)

-- One round of the loop of `startColl`. `premul` is `opIndex >= ncclNumOps`.
abbrev pub coll_on : (premul : Bool) (iter gpu : ℕ) → List Step
coll_on premul iter gpu =
    when premul (create_op gpu ∷ []) ++ run_coll gpu iter ∷ when premul (destroy_op gpu ∷ [])

-- `startColl`.
unfoldable pub start_coll : (n_gpus : ℕ) (premul : Bool) (blocking_coll : ℤ) (iter : ℕ) → List Step
start_coll n_gpus premul blocking_coll iter =
    when (ltb 1 n_gpus) (group_start ∷ [])
    ++ (for_each (coll_on premul iter) 0 n_gpus
        ++ (when (ltb 1 n_gpus) (group_end ∷ [])
            ++ (when (blocks blocking_coll) (synchronize ∷ [])
                ++ when (int_is blocking_coll 1) (barrier ∷ []))))

-- `completeColl`.
unfoldable pub complete_coll : (blocking_coll : ℤ) (agg_iters : ℕ) → List Step
complete_coll blocking_coll agg_iters =
    if blocks blocking_coll && leb agg_iters 1 then [] else synchronize ∷ []
