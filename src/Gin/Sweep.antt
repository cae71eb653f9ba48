-- ===== src/Gin/Sweep.antt =====
-- The driver of a GIN benchmark: `next_size` and `gin_perf_run` of src/device_api/gin/utils/common.cc.
-- The calls of MPI, CUDA and NCCL, and the lines on stdout, are the steps of a rank, in order. A call that
-- fails ends the program, so the steps are those of a run in which none fails.
pub mod Sizes
pub mod Ranks
use nccl_tests.Prelude.{
  ℕ, zero, suc, ◌+◌, ◌-◌, ◌*◌, ◌/◌, ◌%◌, ◌^◌, ℤ, pos, negsuc, Bool, true, false, ◌&&◌, ◌||◌, not,
  Option, none, some, List, [], ◌∷◌, ◌++◌, ltb, leb, ◌==◌, if◌then◌else◌, length, get_or,
}
use mathlib.Core.Option.{map as map_option}
use nccl_tests.Gin.Options.{Args, int_le}

-- An `int` as a `size_t`.
abbrev pub to_size : ℤ → ℕ
to_size (pos n) = n
to_size (negsuc n) = 2 ^ 64 - 1 - n

unfoldable pub next_size : Args → ℕ → ℕ
next_size args size =
    let factor = to_size args.stepfactor in
    if not (args.stepbytes == 0)
    then (size + args.stepbytes) % 2 ^ 64
    else size * (if leb factor 1 then 2 else factor) % 2 ^ 64

pub data BenchmarkType : Type 0 where
  ping ping_pong throughput : BenchmarkType

pub data Step : Type 0 where
  mpi_init mpi_comm_rank mpi_comm_size mpi_allgather mpi_bcast mpi_barrier mpi_reduce mpi_finalize
        mpi_abort :
      Step
  get_unique_id comm_init dev_comm_create dev_comm_destroy comm_destroy : Step
  set_device : (dev : ℕ) → Step
  stream_create stream_synchronize stream_destroy : Step
  event_create event_destroy record_start record_stop elapsed_time : Step
  -- `bench->run` with that many elements and rounds.
  run : (elems : ℕ) (iters : ℤ) → Step
  print_error print_configuration print_header : Step
  print_latency print_throughput : (size : ℕ) → Step

abbrev pub when : Bool → List Step → List Step
when true l = l
when false l = []

-- The rank's part in a benchmark.
abbrev pub participates : Args → BenchmarkType → Bool → Bool
participates args ping_pong rank0 = true
participates args bench rank0 = args.gin_bidirectional || rank0

abbrev pub measures : Args → Bool → Bool
measures args rank0 = rank0 || args.gin_bidirectional

-- What is reported of a size.
abbrev pub report_size : Args → BenchmarkType → Bool → ℕ → List Step
report_size args throughput rank0 size =
    when (measures args rank0) (elapsed_time ∷ [])
    ++ when args.gin_bidirectional (mpi_reduce ∷ [])
    ++ when rank0 (print_throughput size ∷ [])
report_size args bench rank0 size = when rank0 (elapsed_time ∷ print_latency size ∷ [])

-- One round of the loop, without the change of `size`.
unfoldable pub round_steps : Args → BenchmarkType → Bool → ℕ → List Step
round_steps args bench rank0 size =
    when (not (int_le args.warmup_iters 0) && participates args bench rank0)
      (run (size / 4) args.warmup_iters ∷ stream_synchronize ∷ [])
    ++ (mpi_barrier ∷ [])
    ++ when (measures args rank0) (record_start ∷ [])
    ++ when (participates args bench rank0) (run (size / 4) args.iters ∷ [])
    ++ when (measures args rank0) (record_stop ∷ [])
    ++ when (participates args bench rank0) (stream_synchronize ∷ [])
    ++ report_size args bench rank0 size
    ++ (mpi_barrier ∷ [])

-- `for (size_t size = args->minbytes; size <= args->maxbytes;) { ... }`, from `size` on. `none` is a loop
-- that is not over after `fuel` rounds.
unfoldable pub sweep {ℓ} : {A : Type ℓ} → (ℕ → List A) → Args → ℕ → ℕ → Option (List A)
unfolding next_size
sweep body args zero size = none
sweep body args (suc fuel) size =
    let next = next_size args size in
    let rest = sweep body args fuel next in
    if ltb args.maxbytes size
    then some []
    else if leb next size
    then some (body size)
    else map_option (λ steps. body size ++ steps) rest

-- How many of the ranks in front are on the same host.
unfoldable pub local_device : List ℕ → ℕ → ℕ → ℕ
local_device hosts zero rank = 0
local_device hosts (suc r) rank =
    local_device hosts r rank + (if get_or hosts r 0 == get_or hosts rank 0 then 1 else 0)

abbrev pub is_zero : ℕ → Bool
is_zero n = n == 0

-- What `gin_perf_run` does in front of the loop, behind the test of the number of ranks, and behind it.
abbrev pub prologue : Args → Bool → ℕ → List Step
prologue args rank0 dev =
    (mpi_init ∷ mpi_comm_rank ∷ mpi_comm_size ∷ mpi_allgather ∷ set_device dev ∷ [])
    ++ when rank0 (get_unique_id ∷ [])
    ++ (mpi_bcast ∷ stream_create ∷ comm_init ∷ dev_comm_create ∷ [])
    ++ when (measures args rank0) (event_create ∷ event_create ∷ [])
    ++ when rank0 (print_configuration ∷ print_header ∷ [])

abbrev pub epilogue : Args → Bool → List Step
epilogue args rank0 =
    (mpi_barrier ∷ dev_comm_destroy ∷ comm_destroy ∷ [])
    ++ when (measures args rank0) (event_destroy ∷ event_destroy ∷ [])
    ++ (stream_destroy ∷ mpi_finalize ∷ [])

-- `gin_perf_run` of the rank `rank` of `length hosts`; `hosts` are the hashes of the ranks' host names.
-- With more than two ranks `MPI_Abort` ends the program.
unfoldable pub gin_perf_run : Args → BenchmarkType → List ℕ → ℕ → Option (List Step)
unfolding sweep round_steps local_device
gin_perf_run args bench hosts rank =
    let rank0 = is_zero rank in
    if not (length hosts == 2)
    then some (
        (mpi_init ∷ mpi_comm_rank ∷ mpi_comm_size ∷ [])
        ++ when rank0 (print_error ∷ [])
        ++ (mpi_abort ∷ []))
    else map_option
        (λ rounds.
          prologue args rank0 (local_device hosts rank rank) ++ rounds ++ epilogue args rank0)
        (sweep (round_steps args bench rank0) args (suc args.maxbytes) args.minbytes)
