-- ===== src/Profiler/Tests.antt =====
-- The profiler plugin of src/util.cu on concrete events.
use nccl_tests.Prelude.{pos, ◌≡◌, refl, true, List, [], ◌∷◌, codes, arith}
use nccl_tests.Profiler.Overlap.{
  Micro, begin_start, begin_stop, go_on, micro, overlap, alone, overlapped_burst,
}
use nccl_tests.Profiler.{
  profile_p2p, profile_coll, p2p, unset, events_init, task, proxy, descr_p2p, descr_proxy_op,
}
use nccl_tests.Profiler.Counting.{
  v5, v6, start, stop, start_event, run, Action, burst_reports_first,
}
use nccl_tests.Profiler.Variant.{strip_func}

-- A second channel's event and a network event inside a burst.
abbrev burst : List Action
burst =
    start v6 (descr_p2p 4)
    ∷ start v5 (descr_proxy_op (pos 9))
    ∷ stop task
    ∷ stop proxy
    ∷ stop task
    ∷ []

burst_reports_first_example :
    let t = run (start v6 (descr_p2p 2) ∷ burst) events_init in
    let first = (start_event v6 (descr_p2p 2) events_init).0 in
    (t.task_count ≡ 0)
    × (t.task_ready ≡ true)
    × (t.task_type ≡ first.task_type)
    × (t.task_info ≡ first.task_info)
burst_reports_first_example =
    burst_reports_first v6 (descr_p2p 2) burst events_init refl refl refl refl (omega arith) refl

variant_stripped : strip_func (codes "AllReduce_RING_LL") (codes "AllReduce") ≡ codes "RING_LL"
unfolding strip_func
variant_stripped = refl

-- A second event begins and two events stop, their steps mixed.
abbrev mixed : List Micro
mixed = begin_start profile_coll unset ∷ begin_stop ∷ begin_stop ∷ go_on 1 ∷ go_on 0 ∷ go_on 0 ∷ []

overlapped_burst_example :
    let o =
      overlap (begin_start profile_p2p (p2p 2) ∷ go_on 0 ∷ go_on 0 ∷ []) (alone events_init) in
    (((overlap mixed o).events.task_type ≡ profile_p2p)
      × ((overlap mixed o).events.task_info ≡ p2p 2))
    × ((overlap mixed o).events.task_count ≡ 0
        → (overlap mixed o).pending ≡ []
        → (overlap mixed o).events.task_ready ≡ true)
unfolding micro
overlapped_burst_example = overlapped_burst profile_p2p (p2p 2) events_init mixed refl refl

-- A stop that comes before the first event has written its type does not count down.
too_early :
    (overlap
      (begin_start profile_p2p (p2p 2)
        ∷ begin_start profile_p2p (p2p 2)
        ∷ begin_stop
        ∷ go_on 0
        ∷ go_on 0
        ∷ [])
      (alone events_init)).events.task_count
    ≡ 2
unfolding micro
too_early = refl
