-- ===== src/Barrier/Tests.antt =====
-- Three threads at the barrier of src/common.cu.
use nccl_tests.Prelude.{ℕ, ◌≡◌, ◌≤◌, refl, true, false, some, List, [], ◌∷◌, get_elem?}
use nccl_tests.Barrier.{Thread, start, run, step}
use nccl_tests.Barrier.Safety.{all_threads, entries, run-all_entered}

-- All come in, the last opens the barrier, the first leaves and comes to the next one.
abbrev schedule : List ℕ
schedule = 0 ∷ 2 ∷ 2 ∷ 1 ∷ 2 ∷ 0 ∷ 0 ∷ []

abbrev ahead : Thread
ahead = record { epoch = true; waiting = true; passed = 1 }

abbrev behind : Thread
behind = record { epoch = false; waiting = true; passed = 0 }

first_is_ahead : get_elem? (all_threads (run schedule (start 2))) 1 ≡ some ahead
unfolding run step
first_is_ahead = refl

second_is_behind : get_elem? (all_threads (run schedule (start 2))) 2 ≡ some behind
unfolding run step
second_is_behind = refl

run-all_entered_example : ahead.passed ≤ entries behind
run-all_entered_example =
    run-all_entered 2 schedule 1 2 ahead behind first_is_ahead second_is_behind
