-- ===== src/Bench/Tests.antt =====
-- Runs of `BenchTime` of src/common.cu at fixed options.
use nccl_tests.Prelude.{◌≡◌, refl, pos, true, false, none, [], ◌∷◌}
use nccl_tests.Launch.{group_start, group_end, run_coll, record_event, start_coll, complete_coll}
use nccl_tests.Bench.{Config, bench_time}
use nccl_tests.Bench.Rounds.{call, event}
use nccl_tests.Bench.Groups.{stream}
use nccl_tests.Bench.Allowed.{all_allowed, open_now}

-- Two GPUs, three iterations of two calls, timed one by one, with pairs of events.
abbrev timed : Config
timed = record {
  n_gpus = 2;
  premul = true;
  blocking_coll = pos 3;
  warmup_iters = 1;
  iters = 3;
  agg_iters = 2;
  per_iter_timing = true;
  graph_launches = 0;
  datacheck = 1;
}

-- The same with two launches of a graph in place of the times.
abbrev captured : Config
captured = record {
  n_gpus = 2;
  premul = true;
  blocking_coll = pos 0;
  warmup_iters = 1;
  iters = 3;
  agg_iters = 2;
  per_iter_timing = false;
  graph_launches = 2;
  datacheck = 1;
}

-- Blocking calls in a graph.
abbrev blocking_in_graph : Config
blocking_in_graph = record {
  n_gpus = 1;
  premul = false;
  blocking_coll = pos 1;
  warmup_iters = 0;
  iters = 1;
  agg_iters = 1;
  per_iter_timing = false;
  graph_launches = 1;
  datacheck = 0;
}

-- A stream is waited for while it is captured: the options -z 1 and -G.
blocking_in_graph_query :
    all_allowed (bench_time blocking_in_graph 7 (λ i. 0)) (open_now 0 []) ≡ none
unfolding bench_time start_coll complete_coll
blocking_in_graph_query = refl

-- The streams are waited for in an open group: the options -z 1 and -m 2.
abbrev blocking_in_group : Config
blocking_in_group = record blocking_in_graph { agg_iters = 2; graph_launches = 0 }

blocking_in_group_query :
    all_allowed (bench_time blocking_in_group 7 (λ i. 0)) (open_now 0 []) ≡ none
unfolding bench_time start_coll complete_coll
blocking_in_group_query = refl

-- An event that is recorded in a group comes before the call that the group holds back.
held_back :
    stream 0 0 [] (group_start ∷ run_coll 0 5 ∷ record_event 0 1 ∷ group_end ∷ [])
    ≡ event 1 ∷ call 5 ∷ []
held_back = refl
