-- ===== src/Bench/Timeline.antt =====
-- What `BenchTime` of src/common.cu gives the stream of a GPU, in order.
use nccl_tests.Prelude.{
  ℕ, zero, suc, ◌+◌, ◌*◌, ◌<◌, ◌≡◌, refl, sym, ap, ◌∙◌, Bool, true, false, not, ◌&&◌, List, [], ◌∷◌,
  ◌++◌, append-nil, append_assoc, ltb, leb, ◌==◌, if◌then◌else◌, arith, Bool-cases, inl, inr,
}
use nccl_tests.Launch.{
  Step, group_start, group_end, synchronize, create_event, init_data, begin_capture, record_event,
  barrier, for_each, when, int_is, blocks, complete_coll,
}
use nccl_tests.Bench.Rounds.{
  Work, call, event, wait, when_work, calls, rounds, all_rounds, round_end, start_at, stop_at,
}
use nccl_tests.Bench.{
  Config, init_events, paired_events, event_count, event_index, record_events, coll, complete,
  graphs, on_gpus, warm_up, iteration, run_graphs, benchmark,
}
use nccl_tests.Bench.Streams.{
  for_each_own, timeline-start_coll, when_idle, timeline, timeline-append, timeline-when,
  for_each_idle, when_work_own,
}

-- The events of a GPU, in the order of their records.
module _ (c : Config) (g : ℕ) (g_is_gpu : g < c.n_gpus) where
  abbrev waits : Bool
  waits = int_is c.blocking_coll 1

  abbrev base : ℕ
  base = g * event_count c c.iters

  timeline-record_events :
      (k stop : ℕ)
      → timeline g (record_events c c.iters k stop) ≡ event (base + event_index c k stop) ∷ []
  timeline-record_events k stop =
      let e : (i : ℕ) → Work = λ i. event (i * event_count c c.iters + event_index c k stop) in
      for_each_own g (λ i. record_event i (i * event_count c c.iters + event_index c k stop) ∷ [])
        (e g ∷ []) (λ i. append-nil (when_work (i == g) (e i ∷ [])) ∙ when_work_own e g i) 0
        c.n_gpus (omega arith) (omega arith)

  timeline-coll : (k : ℕ) → timeline g (coll c k) ≡ call k ∷ when_work waits (wait ∷ [])
  timeline-coll k = timeline-start_coll g c.n_gpus g_is_gpu c.premul c.blocking_coll k

  timeline-colls :
      (f : ℕ → ℕ) (k : ℕ)
      → ((a : ℕ) → f a ≡ k + a)
      → (i m n : ℕ) → k + i ≡ m
      → timeline g (for_each (λ a. coll c (f a)) i n) ≡ calls waits m n
  timeline-colls f k e i m zero h = refl
  timeline-colls f k e i m (suc n) h =
      let later = for_each (λ a. coll c (f a)) (suc i) n in
      timeline-append g (coll c (f i)) later
      ∙ ap (λ x. x ++ timeline g later) (timeline-coll (f i))
      ∙ ap (λ x. call x ∷ (when_work waits (wait ∷ []) ++ timeline g later)) (e i ∙ h)
      ∙ ap (λ x. call m ∷ (when_work waits (wait ∷ []) ++ x))
          (timeline-colls f k e (suc i) (suc m) n (omega arith))

  start_event_at :
      (k : ℕ)
      → event (base + event_index c k 0)
        ≡ event (start_at (paired_events c) waits base c.agg_iters k)
  start_event_at k = elim (Bool-cases (paired_events c)) [
    | inl e ↦ ground arith
    | inr e ↦ ground arith
  ]

  module _ (timed : c.per_iter_timing ≡ true) where
    when_timed : (l : List Step) → when c.per_iter_timing l ≡ l
    when_timed l = ap (λ b. when b l) timed

    timeline-last :
        (k : ℕ)
        → timeline g (
            when (paired_events c) (
              synchronize ∷ (when c.per_iter_timing (record_events c c.iters k 1) ++ barrier ∷ [])))
          ≡ round_end (paired_events c) waits base c.agg_iters k
    timeline-last k =
        let p = paired_events c in
        let recorded : List Work = event (base + event_index c k 1) ∷ wait ∷ [] in
        let expected : List Work = event (stop_at p waits base c.agg_iters k) ∷ wait ∷ [] in
        let works : timeline g
              (synchronize ∷ (when c.per_iter_timing (record_events c c.iters k 1) ++ barrier ∷ []))
            ≡ recorded =
          simp (
            when_timed (record_events c c.iters k 1),
            timeline-append,
            timeline-record_events k 1,
          ) in
        timeline-when g p
          (synchronize ∷ (when c.per_iter_timing (record_events c c.iters k 1) ++ barrier ∷ []))
        ∙ ap (when_work p) works
        ∙ elim (Bool-cases p) [
          | inl e ↦
              let same : event (base + event_index c k 1)
                  ≡ event (stop_at p waits base c.agg_iters k) =
                ground arith in
              ap (λ x. when_work p (x ∷ wait ∷ [])) same
          | inr e ↦ ap (λ b. when_work b recorded) e ∙ sym (ap (λ b. when_work b expected) e)
        ]

    timeline-iteration :
        (k : ℕ)
        → timeline g (iteration c k)
          ≡ event (start_at (paired_events c) waits base c.agg_iters k)
            ∷ (calls waits (k * c.agg_iters) c.agg_iters
                ++ round_end (paired_events c) waits base c.agg_iters k)
    timeline-iteration k = simp (
      timeline-append,
      when_timed (record_events c c.iters k 0),
      timeline-record_events k 0,
      start_event_at k,
      timeline-colls (λ a. k * c.agg_iters + a) (k * c.agg_iters) (λ a. refl) 0 (k * c.agg_iters)
          c.agg_iters (omega arith),
      timeline-last k,
      when_idle g c.n_gpus g_is_gpu (ltb 1 c.agg_iters) (group_start ∷ []) refl,
      when_idle g c.n_gpus g_is_gpu (ltb 1 c.agg_iters) (group_end ∷ []) refl,
    )

    timeline-iterations :
        (k n : ℕ)
        → timeline g (for_each (iteration c) k n)
          ≡ rounds (paired_events c) waits base c.agg_iters k n
    timeline-iterations k zero = refl
    timeline-iterations k (suc n) =
        timeline-append g (iteration c k) (for_each (iteration c) (suc k) n)
        ∙ ap (λ x. x ++ timeline g (for_each (iteration c) (suc k) n)) (timeline-iteration k)
        ∙ ap
            (λ x.
              event (start_at (paired_events c) waits base c.agg_iters k)
                ∷ (calls waits (k * c.agg_iters) c.agg_iters
                    ++ round_end (paired_events c) waits base c.agg_iters k)
              ++ x)
            (timeline-iterations (suc k) n)
        ∙ simp append_assoc

    timeline-complete : timeline g (complete c) ≡ []
    unfolding complete_coll
    timeline-complete = elim (Bool-cases (blocks c.blocking_coll && leb c.agg_iters 1)) [
      | inl e ↦ ap (λ b. timeline g (if b then [] else synchronize ∷ [])) e
      | inr e ↦ ap (λ b. timeline g (if b then [] else synchronize ∷ [])) e
    ]

    timeline-capture : timeline g (when (graphs c) (on_gpus c begin_capture)) ≡ []
    timeline-capture =
        when_idle g c.n_gpus g_is_gpu (graphs c) (on_gpus c begin_capture)
          (for_each_idle g (λ i. begin_capture i ∷ []) (λ i. refl) 0 c.n_gpus)

    timeline-init_events : timeline g (when c.per_iter_timing (init_events c c.iters)) ≡ []
    timeline-init_events = when_idle g c.n_gpus g_is_gpu c.per_iter_timing (init_events c c.iters) (
        for_each_idle g
          (λ i.
            for_each (λ j. create_event (i * event_count c c.iters + j) ∷ []) 0
              (event_count c c.iters))
          (λ i.
            for_each_idle g (λ j. create_event (i * event_count c c.iters + j) ∷ []) (λ j. refl) 0
              (event_count c c.iters))
          0 c.n_gpus)

    pub timeline-warm_up : timeline g (warm_up c) ≡ calls waits 0 c.warmup_iters ++ wait ∷ []
    timeline-warm_up = simp (
      timeline-append,
      when_idle g c.n_gpus g_is_gpu (leb 1 c.datacheck) (init_data 99 ∷ []) refl,
      timeline-colls (λ a. a) 0 (λ a. omega arith) 0 0 c.warmup_iters (omega arith),
      timeline-complete,
      timeline-capture,
    )

    timeline-last_events :
        timeline g
          (when (c.per_iter_timing && not (paired_events c)) (record_events c c.iters c.iters 0))
        ≡ when_work (not (paired_events c)) (event (base + c.iters) ∷ [])
    timeline-last_events = elim (Bool-cases (paired_events c)) [
      | inl e ↦
          ap (λ b. timeline g (when b (record_events c c.iters c.iters 0))) (both e)
          ∙ sym (ap (λ b. when_work (not b) (event (base + c.iters) ∷ [])) e)
      | inr e ↦
          ap (λ b. timeline g (when b (record_events c c.iters c.iters 0))) (neither e)
          ∙ timeline-record_events c.iters 0
          ∙ last_event e
          ∙ sym (ap (λ b. when_work (not b) (event (base + c.iters) ∷ [])) e)
    ]
      where
        both : paired_events c ≡ true → (c.per_iter_timing && not (paired_events c)) ≡ false
        both e = ground arith

        neither : paired_events c ≡ false → (c.per_iter_timing && not (paired_events c)) ≡ true
        neither e = ground arith

        last_event :
            paired_events c ≡ false
            → event (base + event_index c c.iters 0) ∷ [] ≡ event (base + c.iters) ∷ []
        last_event e = ground arith

    pub timeline-benchmark :
        (tail : List Step)
        → timeline g (benchmark c ++ tail)
          ≡ all_rounds waits base c.agg_iters c.iters
              (timeline g (run_graphs c) ++ timeline g tail)
              (paired_events c)
              0
              c.iters
    timeline-benchmark tail = simp (
      timeline-append,
      timeline-init_events,
      timeline-iterations 0 c.iters,
      timeline-last_events,
      timeline-complete,
      append_assoc,
    )
