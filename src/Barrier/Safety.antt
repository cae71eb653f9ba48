-- ===== src/Barrier/Safety.antt =====
-- No thread leaves `Barrier` of src/common.cu early.
use nccl_tests.Prelude.{
  ℕ, ◌+◌, ◌≤◌, ◌≡◌, refl, some, List, ◌∷◌, if◌then◌else◌, get_elem?, arith, inl, inr,
}
use nccl_tests.Barrier.{Thread, State, run, start}
use nccl_tests.Barrier.Invariant.{
  InRound, IsConsistent, lookup-InRound, run-IsConsistent, start-IsConsistent,
}

-- The barriers that a thread has entered.
abbrev pub entries : Thread → ℕ
entries t = t.passed + (if t.waiting then 1 else 0)

abbrev pub all_threads : State → List Thread
all_threads s = s.last ∷ s.others

bounded :
    (s : State) (t : Thread)
    → InRound s.last.passed t
    → (t.passed ≤ s.last.passed) × (s.last.passed ≤ entries t)
bounded s t (o, inl p) = (omega arith, omega arith)
bounded s t (o, inr (p, w)) = (omega arith, ground arith)

member-InRound :
    (s : State) (i : ℕ) (t : Thread)
    → IsConsistent s
    → get_elem? (all_threads s) i ≡ some t
    → InRound s.last.passed t
member-InRound s i t c e =
    lookup-InRound s.last.passed (all_threads s) i ((c.last_epoch, inl refl), c.others_in) e

-- With any number of threads and under any schedule, no thread has passed more barriers than any other has
-- entered: nobody leaves a barrier before all have come to it.
pub run-all_entered :
    (n : ℕ) (is : List ℕ) (i j : ℕ) (t u : Thread)
    → get_elem? (all_threads (run is (start n))) i ≡ some t
    → get_elem? (all_threads (run is (start n))) j ≡ some u
    → t.passed ≤ entries u
run-all_entered n is i j t u e f =
    let c = run-IsConsistent is (start n) (start-IsConsistent n) in
    let a = bounded (run is (start n)) t (member-InRound _ i t c e) in
    let b = bounded (run is (start n)) u (member-InRound _ j u c f) in omega arith
