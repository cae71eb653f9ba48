-- ===== src/Reduce.antt =====
-- What `Allreduce` of src/common.cu computes: the threads of a process come one behind the other under
-- the mutex, in any order, and the last one finishes the value. The waiting is that of the barrier. The
-- type of the values is that of the template, with its operations as arguments.
pub mod Order
mod Tests
use nccl_tests.Prelude.{
  ℕ, zero, suc, ◌*◌, Bool, true, false, ◌||◌, not, List, [], ◌∷◌, ◌==◌, if◌then◌else◌,
}
use nccl_tests.Launch.{int_times}

-- `average`; `unknown` is any other number, which no case of the switch takes.
pub data Average : Type 0 where
  rank0 avg least most sum unknown : Average

abbrev pub is_rank0 : Average → Bool
is_rank0 rank0 = true
is_rank0 a = false

-- The operations of `T`: `+=`, `std::min`, `std::max` and `/=` by an `int`.
pub record Operations {ℓ} (T : Type ℓ) : Type ℓ where
  pub added : T → T → T
  pub smaller : T → T → T
  pub larger : T → T → T
  pub divided : T → ℕ → T

module _ {ℓ} {T : Type ℓ} (ops : Operations T) where
  -- The switch, for a thread that is not the first to come.
  abbrev pub combined : Average → (thread : ℕ) → (accumulator value : T) → T
  combined rank0 thread accumulator value = if thread == 0 then value else accumulator
  combined avg thread accumulator value = ops.added accumulator value
  combined least thread accumulator value = ops.smaller accumulator value
  combined most thread accumulator value = ops.larger accumulator value
  combined sum thread accumulator value = ops.added accumulator value
  combined unknown thread accumulator value = accumulator

  -- The accumulator behind a thread's way in.
  abbrev pub contribute : Average → (counter thread : ℕ) → (accumulator value : T) → T
  contribute a zero thread accumulator value =
      if not (is_rank0 a) || thread == 0 then value else accumulator
  contribute a (suc counter) thread accumulator value = combined a thread accumulator value

  -- The threads that are still to come, in their order, each with its value.
  abbrev pub accumulate : Average → (counter : ℕ) → (accumulator : T) → List (ℕ × T) → T
  accumulate a counter accumulator [] = accumulator
  accumulate a counter accumulator ((thread, value) ∷ l) =
      accumulate a (suc counter) (contribute a counter thread accumulator value) l

  -- What the last thread does: `MPI_Allreduce`, which is an argument, and the mean.
  abbrev pub finished : Average → (across : T → T) (total_procs n_threads : ℕ) (accumulator : T) → T
  finished rank0 across total_procs n_threads accumulator = accumulator
  finished avg across total_procs n_threads accumulator =
      ops.divided (across accumulator) (int_times total_procs n_threads)
  finished a across total_procs n_threads accumulator = across accumulator

  -- `Allreduce`, with what an earlier call has left in the accumulator.
  unfoldable pub allreduce :
      Average → (across : T → T) (total_procs n_threads : ℕ) (stale : T) → List (ℕ × T) → T
  allreduce a across total_procs n_threads stale arrivals =
      finished a across total_procs n_threads (accumulate a 0 stale arrivals)
