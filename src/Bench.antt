-- ===== src/Bench.antt =====
-- `BenchTime` of src/common.cu and its events: `getEventCount`, `initEvents`, `recordEvents`,
-- `getElapsedTimes` and `destroyEvents`. A run of them is the list of the thread's calls, in order, when
-- none fails. The counts of the options are not negative here; the times, bandwidths and reports are no
-- steps.
pub mod Rounds
pub mod Streams
pub mod Timeline
pub mod Groups
pub mod Settled
pub mod Events
pub mod Allowed
pub mod Captures
pub mod Command
mod Tests
use nccl_tests.Prelude.{
  ℕ, zero, suc, ◌+◌, ◌-◌, ◌*◌, ℤ, pos, negsuc, Bool, true, false, ◌&&◌, not, List, [], ◌∷◌, ◌++◌,
  ltb, leb, ◌==◌, if◌then◌else◌,
}
use nccl_tests.Launch.{
  Step, group_start, group_end, synchronize, barrier, check_data, all_reduce, init_data,
  create_event, destroy_event, record_event, elapsed_time, begin_capture, end_capture,
  instantiate_graph, launch_graph, destroy_graph, for_each, when, int_is, blocks, start_coll,
  complete_coll,
}

-- The options that `BenchTime` reads. `premul` is that the operation is the tests' own sum.
pub record Config : Type 0 where
  pub n_gpus : ℕ
  pub premul : Bool
  pub blocking_coll : ℤ
  pub warmup_iters : ℕ
  pub iters : ℕ
  pub agg_iters : ℕ
  pub per_iter_timing : Bool
  pub graph_launches : ℕ
  pub datacheck : ℕ

module _ (c : Config) where
  -- `blocking_coll == 3`.
  abbrev pub paired_events : Bool
  paired_events = int_is c.blocking_coll 3

  -- `getEventCount`.
  abbrev pub event_count : (event_iters : ℕ) → ℕ
  event_count event_iters = if paired_events then event_iters * 2 else event_iters + 1

  -- The index of the event in `recordEvents`.
  abbrev pub event_index : (iteration stop_event : ℕ) → ℕ
  event_index iteration stop_event = if paired_events then 2 * iteration + stop_event else iteration

  -- `recordEvents`.
  abbrev pub record_events : (iterations iteration stop_event : ℕ) → List Step
  record_events iterations iteration stop_event =
      for_each
        (λ i. record_event i (i * event_count iterations + event_index iteration stop_event) ∷ []) 0
        c.n_gpus

  -- `initEvents`.
  abbrev pub init_events : (event_iters : ℕ) → List Step
  init_events event_iters =
      for_each
        (λ i.
          for_each (λ j. create_event (i * event_count event_iters + j) ∷ []) 0
            (event_count event_iters))
        0 c.n_gpus

  -- `destroyEvents`.
  abbrev pub destroy_events : (event_iters : ℕ) → List Step
  destroy_events event_iters =
      for_each
        (λ i.
          for_each (λ j. destroy_event (i * event_count event_iters + j) ∷ []) 0
            (event_count event_iters))
        0 c.n_gpus

  -- The events that `getElapsedTimes` takes the time between.
  abbrev pub start_event : (j : ℕ) → ℕ
  start_event j = if paired_events then 2 * j else j

  abbrev pub stop_event : (j : ℕ) → ℕ
  stop_event j = if paired_events then 2 * j + 1 else j + 1

  -- `getElapsedTimes`.
  abbrev pub get_elapsed_times : (event_iters : ℕ) → List Step
  get_elapsed_times event_iters =
      for_each
        (λ i.
          for_each
            (λ j.
              elapsed_time i (i * event_count event_iters + start_event j)
                (i * event_count event_iters + stop_event j)
              ∷ [])
            0 event_iters)
        0 c.n_gpus

  abbrev pub coll : (iter : ℕ) → List Step
  coll iter = start_coll c.n_gpus c.premul c.blocking_coll iter

  abbrev pub complete : List Step
  complete = complete_coll c.blocking_coll c.agg_iters

  abbrev pub on_gpus : (ℕ → Step) → List Step
  on_gpus f = for_each (λ i. f i ∷ []) 0 c.n_gpus

  -- `cudaGraphLaunches >= 1`.
  abbrev pub graphs : Bool
  graphs = leb 1 c.graph_launches

  -- The data, the warm-up and the begin of the capture.
  abbrev pub warm_up : List Step
  warm_up =
      when (leb 1 c.datacheck) (init_data 99 ∷ [])
      ++ (for_each coll 0 c.warmup_iters
          ++ (complete ++ barrier ∷ when graphs (on_gpus begin_capture)))

  -- One round of the loop that is timed.
  abbrev pub iteration : (iter : ℕ) → List Step
  iteration iter =
      when (ltb 1 c.agg_iters) (group_start ∷ [])
      ++ ((when c.per_iter_timing (record_events c.iters iter 0)
            ++ for_each (λ aiter. coll (iter * c.agg_iters + aiter)) 0 c.agg_iters)
          ++ (when (ltb 1 c.agg_iters) (group_end ∷ [])
              ++ when paired_events (
                  synchronize
                  ∷ (when c.per_iter_timing (record_events c.iters iter 1) ++ barrier ∷ []))))

  -- The end of the capture, and the launches.
  abbrev pub run_graphs : List Step
  run_graphs = when graphs (
      on_gpus end_capture
      ++ (on_gpus instantiate_graph
          ++ barrier ∷ for_each (λ l. on_gpus launch_graph) 0 c.graph_launches))

  -- All that is timed.
  abbrev pub benchmark : List Step
  benchmark =
      when c.per_iter_timing (init_events c.iters)
      ++ (for_each iteration 0 c.iters
          ++ (when (c.per_iter_timing && not paired_events) (record_events c.iters c.iters 0)
              ++ (run_graphs ++ complete)))

  -- The events are read and freed.
  abbrev pub read_events : List Step
  read_events = when c.per_iter_timing (
      when (blocks c.blocking_coll && leb c.agg_iters 1) (synchronize ∷ [])
      ++ (get_elapsed_times c.iters ++ destroy_events c.iters))

  -- The loop over the checks of the data, `n` more of them. `wrong i` is the sum of the wrong elements
  -- of all threads when `i` checks are still to come; the loop ends at the first that is not 0. `rep`
  -- counts the calls of `BenchTime`.
  abbrev pub data_checks : (rep : ℕ) (wrong : ℕ → ℕ) (n : ℕ) → List Step
  data_checks rep wrong zero = []
  data_checks rep wrong (suc n) =
      init_data rep
      ∷ (when graphs (on_gpus begin_capture)
          ++ (coll 0
              ++ (when graphs
                    (on_gpus end_capture ++ (on_gpus instantiate_graph ++ on_gpus launch_graph))
                  ++ (complete
                      ++ (when graphs (on_gpus destroy_graph)
                          ++ check_data
                            ∷ all_reduce
                            ∷ (if wrong n == 0 then data_checks rep wrong n else []))))))

  -- `BenchTime`.
  unfoldable pub bench_time : (rep : ℕ) (wrong : ℕ → ℕ) → List Step
  bench_time rep wrong =
      warm_up
      ++ (benchmark
          ++ (read_events
              ++ all_reduce
                ∷ (when graphs (on_gpus destroy_graph)
                    ++ barrier ∷ data_checks rep wrong c.datacheck)))
