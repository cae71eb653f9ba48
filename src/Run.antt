-- ===== src/Run.antt =====
-- How `run` of src/common.cu hands out memory, GPUs and ranks: the limit of the sizes, the GPUs of a
-- process, the communicators that `initComms` makes, and the slices of the vectors that each thread
-- gets.
pub mod Memory
pub mod Ranks
mod Tests
use nccl_tests.Prelude.{
  ℕ, zero, suc, ◌+◌, ◌-◌, ◌*◌, ◌/◌, ◌%◌, ◌^◌, min, ℤ, pos, Bool, true, false, List, [], ◌∷◌, map,
  ltb, ◌==◌, if◌then◌else◌,
}
use nccl_tests.Launch.{int_times, int_plus}

-- `GB`.
abbrev pub gb : ℕ
gb = 2 ^ 30

-- A sum and a difference of two `size_t`.
abbrev pub plus : ℕ → ℕ → ℕ
plus a b = (a + b) % 2 ^ 64

abbrev pub minus : ℕ → ℕ → ℕ
minus a b = (a + (2 ^ 64 - b)) % 2 ^ 64

-- `DIVUP(x, y)`, for a `y` above 0.
abbrev pub div_up : ℕ → ℕ → ℕ
div_up x y = minus (plus x y) 1 / y

-- `reserveMem`.
abbrev pub reserve_mem : (max_mem : ℕ) → ℕ
reserve_mem max_mem = min (div_up max_mem (16 * gb) * (1 * gb) % 2 ^ 64) (4 * gb)

-- The buffers of a GPU.
abbrev pub buffers : (datacheck : Bool) → ℕ
buffers datacheck = if datacheck then 3 else 2

-- `memMaxBytes`.
abbrev pub mem_max_bytes : (datacheck : Bool) (max_mem : ℕ) → ℕ
mem_max_bytes datacheck max_mem =
    minus (minus max_mem (reserve_mem max_mem)) (1 * gb) / buffers datacheck

-- `minBytes` and `maxBytes`, behind the test of the memory.
unfoldable pub limit_sizes : (datacheck : Bool) (max_mem min_bytes max_bytes : ℕ) → ℕ × ℕ
limit_sizes datacheck max_mem min_bytes max_bytes =
    let limit = mem_max_bytes datacheck max_mem in
    if ltb limit max_bytes
    then (if ltb limit min_bytes then limit else min_bytes, limit)
    else (min_bytes, max_bytes)

-- `localRank`: the processes in front of `proc` on its host. `hosts` has the hash of each process's host.
abbrev pub same_host : (hosts : ℕ → ℕ) (host n : ℕ) → ℕ
same_host hosts host zero = 0
same_host hosts host (suc p) = same_host hosts host p + (if hosts p == host then 1 else 0)

abbrev pub local_rank : (hosts : ℕ → ℕ) (proc : ℕ) → ℕ
local_rank hosts proc = same_host hosts (hosts proc) proc

-- `gpus[i]`; `gpu0` is the first GPU of the process.
abbrev pub gpus : (gpu0 i : ℕ) → ℕ
gpus gpu0 i = int_plus gpu0 i

-- `gpu0`, where the environment does not set it.
abbrev pub first_gpu : (local_rank n_threads n_gpus : ℕ) → ℕ
first_gpu local_rank n_threads n_gpus = int_times (int_times local_rank n_threads) n_gpus

-- `initComms`: the rank that each communicator gets, from `i` on, `n_comms` of them.
abbrev pub init_comms : (first_rank i n_comms : ℕ) → List ℕ
init_comms first_rank i zero = []
init_comms first_rank i (suc n) = int_plus first_rank i ∷ init_comms first_rank (suc i) n

-- The communicators of a process, with the arguments of the call in `run`.
unfoldable pub process_comms : (nccl_proc n_threads n_gpus : ℕ) → List ℕ
process_comms nccl_proc n_threads n_gpus =
    init_comms (int_times (int_times nccl_proc n_threads) n_gpus) 0 (int_times n_gpus n_threads)

-- The number of ranks that `initComms` is told, and the one that `setupArgs` computes.
abbrev pub comm_ranks : (nccl_procs n_threads n_gpus : ℕ) → ℕ
comm_ranks nccl_procs n_threads n_gpus = int_times (int_times nccl_procs n_threads) n_gpus

abbrev pub setup_ranks : (n_procs n_threads n_gpus : ℕ) → ℕ
setup_ranks n_procs n_threads n_gpus = int_times (int_times n_procs n_gpus) n_threads

-- Where the slice of a thread begins in the vectors of the process: `+t*nGpus`.
abbrev pub slice : (n_gpus thread : ℕ) → ℕ
slice n_gpus thread = thread * n_gpus
