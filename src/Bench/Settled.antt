-- ===== src/Bench/Settled.antt =====
-- Without a graph, and without waits in a group, the groups of `BenchTime` of src/common.cu leave the order in which
-- its calls reach a stream as it is.
use nccl_tests.Prelude.{
  ℕ, zero, suc, ◌+◌, ◌*◌, ◌≡◌, refl, sym, ap, ◌∙◌, Bool, true, false, not, ◌&&◌, List, [], ◌∷◌,
  ◌++◌, append-nil, ltb, leb, ◌==◌, if◌then◌else◌, arith,
}
use nccl_tests.Launch.{
  Step, synchronize, barrier, check_data, all_reduce, run_coll, init_data, create_op, destroy_op,
  create_event, destroy_event, record_event, elapsed_time, begin_capture, for_each, when, int_is,
  blocks, start_coll, coll_on, complete_coll,
}
use nccl_tests.Bench.{
  Config, init_events, paired_events, event_count, event_index, record_events, start_event,
  stop_event, coll, complete, graphs, on_gpus, warm_up, iteration, benchmark, read_events,
  data_checks, bench_time,
}
use nccl_tests.Bench.Rounds.{call, when_work}
use nccl_tests.Bench.Streams.{timeline}
use nccl_tests.Bench.Groups.{
  stream, Passes, Held, Settled, Passes-Settled, Passes-nothing, Passes-append, Settled-append,
  Held-append, Passes-when, Settled-when, Held-when, Passes-loop, Settled-loop, Held-loop,
  Passes-step, Settled-group, Held-group, Settled-nothing,
}

module _ (c : Config) (g : ℕ) where
  call-Held : (iter i : ℕ) → Held g (run_coll i iter ∷ [])
  call-Held iter i = record {
    later = λ d p r.
        ap (λ x. stream g (suc d) (p ++ x) r)
          (sym (append-nil (when_work (i == g) (call iter ∷ []))));
  }

  call-Settled : (iter i : ℕ) → Settled g (run_coll i iter ∷ [])
  call-Settled iter i = record {
    in_order = λ r.
        ap (λ x. x ++ stream g 0 [] r) (sym (append-nil (when_work (i == g) (call iter ∷ []))));
  }

  create-Held : (i : ℕ) → Held g (create_op i ∷ [])
  create-Held i = record { later = λ d p r. ap (λ x. stream g (suc d) x r) (sym (append-nil p)) }

  destroy-Held : (i : ℕ) → Held g (destroy_op i ∷ [])
  destroy-Held i = record { later = λ d p r. ap (λ x. stream g (suc d) x r) (sym (append-nil p)) }

  coll_on-Held : (iter i : ℕ) → Held g (coll_on c.premul iter i)
  coll_on-Held iter i =
      Held-append g (Held-when g c.premul (λ h. create-Held i))
        (Held-append g (call-Held iter i) (Held-when g c.premul (λ h. destroy-Held i)))

  coll_on-Settled : (iter i : ℕ) → Settled g (coll_on c.premul iter i)
  coll_on-Settled iter i =
      Settled-append g
        (Settled-when g c.premul
          (λ h. Passes-Settled g (Passes-step g (create_op i) (λ d p r. refl))))
        (Settled-append g (call-Settled iter i) (
          Settled-when g c.premul
            (λ h. Passes-Settled g (Passes-step g (destroy_op i) (λ d p r. refl)))))

  coll-Settled : (iter : ℕ) → Settled g (coll c iter)
  unfolding start_coll
  coll-Settled iter =
      Settled-group g (ltb 1 c.n_gpus) (Passes-nothing g)
        (λ h. Held-loop g (coll_on c.premul iter) (coll_on-Held iter) 0 c.n_gpus)
        (λ h. Settled-loop g (coll_on c.premul iter) (coll_on-Settled iter) 0 c.n_gpus)
        (when (blocks c.blocking_coll) (synchronize ∷ [])
          ++ when (int_is c.blocking_coll 1) (barrier ∷ []))
        (Passes-Settled g (
          Passes-append g
            (Passes-when g (blocks c.blocking_coll) (Passes-step g synchronize (λ d p r. refl)))
            (Passes-when g (int_is c.blocking_coll 1) (Passes-step g barrier (λ d p r. refl)))))

  -- A call that does not block is held back in a group.
  coll-Held : (iter : ℕ) → blocks c.blocking_coll ≡ false → Held g (coll c iter)
  unfolding start_coll
  coll-Held iter e =
      Held-group g (ltb 1 c.n_gpus)
        (Held-loop g (coll_on c.premul iter) (coll_on-Held iter) 0 c.n_gpus)
        (when (blocks c.blocking_coll) (synchronize ∷ [])
          ++ when (int_is c.blocking_coll 1) (barrier ∷ []))
        (Held-append g (Held-when g (blocks c.blocking_coll) (λ h. absurd (ground arith)))
          (Held-when g (int_is c.blocking_coll 1) (λ h. absurd (ground arith))))

  record-Passes : (k stop : ℕ) → Passes g (record_events c c.iters k stop)
  record-Passes k stop =
      Passes-loop g (λ i. record_event i (i * event_count c c.iters + event_index c k stop) ∷ [])
        (λ i.
          Passes-step g (record_event i (i * event_count c c.iters + event_index c k stop))
            (λ d p r. refl))
        0 c.n_gpus

  complete-Settled : Settled g (complete c)
  unfolding complete_coll
  complete-Settled = either (blocks c.blocking_coll && leb c.agg_iters 1)
    where
      either : (b : Bool) → Settled g (if b then [] else synchronize ∷ [])
      either true = Settled-nothing g
      either false = Passes-Settled g (Passes-step g synchronize (λ d p r. refl))

  read-Passes : Passes g (read_events c)
  read-Passes = Passes-when g c.per_iter_timing (
      Passes-append g
        (Passes-when g (blocks c.blocking_coll && leb c.agg_iters 1)
          (Passes-step g synchronize (λ d p r. refl)))
        (Passes-append g
          (Passes-loop g
            (λ i.
              for_each
                (λ j.
                  elapsed_time i (i * event_count c c.iters + start_event c j)
                    (i * event_count c c.iters + stop_event c j)
                  ∷ [])
                0 c.iters)
            (λ i.
              Passes-loop g
                (λ j.
                  elapsed_time i (i * event_count c c.iters + start_event c j)
                    (i * event_count c c.iters + stop_event c j)
                  ∷ [])
                (λ j. Passes-step g (elapsed_time i _ _) (λ d p r. refl)) 0 c.iters)
            0 c.n_gpus)
          (Passes-loop g
            (λ i.
              for_each (λ j. destroy_event (i * event_count c c.iters + j) ∷ []) 0
                (event_count c c.iters))
            (λ i.
              Passes-loop g (λ j. destroy_event (i * event_count c c.iters + j) ∷ [])
                (λ j. Passes-step g (destroy_event _) (λ d p r. refl)) 0 (event_count c c.iters))
            0 c.n_gpus)))

  init-Passes : Passes g (init_events c c.iters)
  init-Passes =
      Passes-loop g
        (λ i.
          for_each (λ j. create_event (i * event_count c c.iters + j) ∷ []) 0
            (event_count c c.iters))
        (λ i.
          Passes-loop g (λ j. create_event (i * event_count c c.iters + j) ∷ [])
            (λ j. Passes-step g (create_event _) (λ d p r. refl)) 0 (event_count c c.iters))
        0 c.n_gpus

  module _ (no_graph : graphs c ≡ false)
      (alone : (blocks c.blocking_coll && ltb 1 c.agg_iters) ≡ false) where
    without_graph : (l : List Step) → Settled g (when (graphs c) l)
    without_graph l = Settled-when g (graphs c) (λ h. absurd (ground arith))

    iteration-Settled : (iter : ℕ) → Settled g (iteration c iter)
    iteration-Settled iter =
        Settled-group g (ltb 1 c.agg_iters) (Passes-when g c.per_iter_timing (record-Passes iter 0))
          (λ h.
            Held-loop g (λ aiter. coll c (iter * c.agg_iters + aiter))
              (λ aiter. coll-Held (iter * c.agg_iters + aiter) (ground arith)) 0 c.agg_iters)
          (λ h.
            Settled-loop g (λ aiter. coll c (iter * c.agg_iters + aiter))
              (λ aiter. coll-Settled (iter * c.agg_iters + aiter)) 0 c.agg_iters)
          (when (paired_events c) (
            synchronize
            ∷ (when c.per_iter_timing (record_events c c.iters iter 1) ++ barrier ∷ [])))
          (Settled-when g (paired_events c) (λ h. Passes-Settled g (
            Passes-append g (Passes-step g synchronize (λ d p r. refl)) (
              Passes-append g (Passes-when g c.per_iter_timing (record-Passes iter 1))
                (Passes-step g barrier (λ d p r. refl))))))

    warm_up-Settled : Settled g (warm_up c)
    warm_up-Settled =
        Settled-append g
          (Passes-Settled g
            (Passes-when g (leb 1 c.datacheck) (Passes-step g (init_data 99) (λ d p r. refl))))
          (Settled-append g (Settled-loop g (coll c) coll-Settled 0 c.warmup_iters) (
            Settled-append g complete-Settled (
              Settled-append g (Passes-Settled g (Passes-step g barrier (λ d p r. refl)))
                (without_graph (on_gpus c begin_capture)))))

    benchmark-Settled : Settled g (benchmark c)
    benchmark-Settled =
        Settled-append g (Passes-Settled g (Passes-when g c.per_iter_timing init-Passes)) (
          Settled-append g (Settled-loop g (iteration c) iteration-Settled 0 c.iters) (
            Settled-append g
              (Passes-Settled g (
                Passes-when g (c.per_iter_timing && not (paired_events c))
                  (record-Passes c.iters 0)))
              (Settled-append g (without_graph _) complete-Settled)))

    data_checks-Settled : (rep : ℕ) (wrong : ℕ → ℕ) (n : ℕ) → Settled g (data_checks c rep wrong n)
    data_checks-Settled rep wrong zero = Settled-nothing g
    data_checks-Settled rep wrong (suc n) =
        Settled-append g (Passes-Settled g (Passes-step g (init_data rep) (λ d p r. refl))) (
          Settled-append g (without_graph _) (
            Settled-append g (coll-Settled 0) (
              Settled-append g (without_graph _) (
                Settled-append g complete-Settled (
                  Settled-append g (without_graph _) (
                    Settled-append g (Passes-Settled g (Passes-step g check_data (λ d p r. refl))) (
                      Settled-append g (Passes-Settled g (Passes-step g all_reduce (λ d p r. refl)))
                        (more (wrong n == 0) (data_checks-Settled rep wrong n)))))))))
      where
        more : (b : Bool) {l : List Step} → Settled g l → Settled g (if b then l else [])
        more true h = h
        more false h = Settled-nothing g

    pub bench_time-Settled : (rep : ℕ) (wrong : ℕ → ℕ) → Settled g (bench_time c rep wrong)
    unfolding bench_time
    bench_time-Settled rep wrong = Settled-append g warm_up-Settled (
        Settled-append g benchmark-Settled (
          Settled-append g (Passes-Settled g read-Passes) (
            Settled-append g (Passes-Settled g (Passes-step g all_reduce (λ d p r. refl))) (
              Settled-append g (without_graph _) (
                Settled-append g (Passes-Settled g (Passes-step g barrier (λ d p r. refl)))
                  (data_checks-Settled rep wrong c.datacheck))))))

    -- The stream is given its work in the order in which it is called for.
    pub stream-timeline :
        (rep : ℕ) (wrong : ℕ → ℕ)
        → stream g 0 [] (bench_time c rep wrong) ≡ timeline g (bench_time c rep wrong)
    stream-timeline rep wrong =
        let settled = bench_time-Settled rep wrong in
        ap (stream g 0 []) (sym (append-nil (bench_time c rep wrong)))
        ∙ settled.in_order []
        ∙ append-nil (timeline g (bench_time c rep wrong))
