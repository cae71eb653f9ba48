-- ===== src/Barrier.antt =====
-- The thread barrier: `Barrier` of src/common.cu. A thread works under the mutex of its epoch from one
-- `wait` to the next, so a step is a thread's way in, up to the wait, or its way out once the condition
-- that it waits for holds. `MPI_Barrier`, which the last thread calls in between, is left out. So is the
-- waking: a thread may go on once its condition holds, also if nobody has notified it, which can only
-- allow more than the code does.
pub mod Invariant
pub mod Safety
mod Tests
use nccl_tests.Prelude.{
  ℕ, zero, suc, ◌+◌, Bool, true, false, not, Option, none, some, List, [], ◌∷◌, length, ◌==◌,
  if◌then◌else◌, get_elem?,
}

-- A thread's `epoch`, whether it waits in the barrier, and how many barriers it has passed, which the
-- program does not store.
pub record Thread : Type 0 where
  pub epoch : Bool
  pub waiting : Bool
  pub passed : ℕ

-- `counter[2]`, and the threads; `last` is the one with `thread+1 == nThreads`.
pub record State : Type 0 where
  pub counter0 : ℕ
  pub counter1 : ℕ
  pub others : List Thread
  pub last : Thread

abbrev pub counter : State → Bool → ℕ
counter s false = s.counter0
counter s true = s.counter1

abbrev pub set_counter : Bool → ℕ → State → State
set_counter e n s = record s {
  counter0 = if e then s.counter0 else n;
  counter1 = if e then n else s.counter1;
}

abbrev pub n_threads : State → ℕ
n_threads s = suc (length s.others)

abbrev pub update : List Thread → ℕ → Thread → List Thread
update [] i t = []
update (u ∷ us) zero t = t ∷ us
update (u ∷ us) (suc i) t = u ∷ update us i t

abbrev pub entered : Thread → Thread
entered t = record t { waiting = true }

-- `ul.unlock(); epoch ^= 1;`.
abbrev pub left : Thread → Thread
left t = record { epoch = not t.epoch; waiting = false; passed = suc t.passed }

-- A step of the thread `i`, which is `t`, among those before the last. `none` is a thread that waits on.
abbrev pub step_other : ℕ → Thread → State → Option State
step_other i t s =
    if t.waiting
    then (if counter s t.epoch == 0
        then some (record s { others = update s.others i (left t) })
        else none)
    else some (
        set_counter t.epoch (suc (counter s t.epoch))
          (record s { others = update s.others i (entered t) }))

-- A step of the last thread.
abbrev pub step_last : State → Option State
step_last s =
    if s.last.waiting
    then (if counter s s.last.epoch == n_threads s
        then some (set_counter s.last.epoch 0 (record s { last = left s.last }))
        else none)
    else some (
        set_counter s.last.epoch (suc (counter s s.last.epoch))
          (record s { last = entered s.last }))

abbrev pub step_at : Option Thread → ℕ → State → Option State
step_at none i s = step_last s
step_at (some t) i s = step_other i t s

-- A step of the thread `i`; any number from `nThreads - 1` on is the last thread.
unfoldable pub step : ℕ → State → Option State
step i s = step_at (get_elem? s.others i) i s

-- Any schedule; a thread that is woken for nothing waits on.
unfoldable pub run : List ℕ → State → State
unfolding step
run [] s = s
run (i ∷ is) s = elim (step i s) [ none ↦ run is s | some s' ↦ run is s' ]

abbrev pub outside : Thread
outside = record { epoch = false; waiting = false; passed = 0 }

abbrev pub threads : ℕ → List Thread
threads zero = []
threads (suc n) = outside ∷ threads n

-- `n + 1` threads before their first barrier.
abbrev pub start : ℕ → State
start n = record { counter0 = 0; counter1 = 0; others = threads n; last = outside }
