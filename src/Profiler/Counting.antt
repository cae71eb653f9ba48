-- ===== src/Profiler/Counting.antt =====
-- The counters of the profiler plugin of src/util.cu over any sequence of calls of its handlers.
use nccl_tests.Prelude.{
  ℕ, zero, suc, ◌+◌, ◌^◌, ◌<◌, Bool, true, false, Option, List, [], ◌∷◌, ◌==◌, if◌then◌else◌, ◌≡◌,
  refl, ◌≢◌, arith, length, sym, ◌∙◌,
}
use nccl_tests.Profiler.{
  EventType, no_type, profile_group, profile_coll, profile_p2p, profile_proxy_op, profile_ce_coll,
  Events, Handle, group, task, proxy, Descr, descr_coll, descr_p2p, descr_ce_coll, start_event_v5,
  start_event_v6, start_event_v7, stop_event, events_init,
}

-- The plugin is exported at three versions of the interface.
pub data Version : Type 0 where
  v5 v6 v7 : Version

abbrev pub start_event : Version → Descr → Events → Events × Option Handle
start_event v5 = start_event_v5
start_event v6 = start_event_v6
start_event v7 = start_event_v7

-- Whether an event is counted on the task object.
abbrev pub opens_task : Version → Descr → Bool
opens_task v5 (descr_ce_coll s) = false
opens_task v (descr_coll f a p k b n w) = true
opens_task v (descr_p2p n) = true
opens_task v (descr_ce_coll s) = true
opens_task v _ = false

-- What NCCL calls, from any thread, one after the other.
pub data Action : Type 0 where
  start : Version → Descr → Action
  stop : Handle → Action

abbrev pub act : Action → Events → Events
act (start v d) s = (start_event v d s).0
act (stop h) s = stop_event h s

abbrev pub run : List Action → Events → Events
run [] s = s
run (a ∷ acts) s = run acts (act a s)

abbrev pub is_task_type : EventType → Bool
is_task_type profile_coll = true
is_task_type profile_p2p = true
is_task_type profile_ce_coll = true
is_task_type _ = false

abbrev pub is_group_type : EventType → Bool
is_group_type no_type = true
is_group_type profile_group = true
is_group_type _ = false

abbrev pub is_proxy_type : EventType → Bool
is_proxy_type no_type = true
is_proxy_type profile_proxy_op = true
is_proxy_type _ = false

-- The type in front of each object is one of its own, so that a stop reaches its own object.
pub record IsTyped (s : Events) : Type 0 where
  pub of_task : is_task_type s.task_type ≡ true
  pub of_group : is_group_type s.group_type ≡ true
  pub of_proxy : is_proxy_type s.proxy_type ≡ true

-- A burst that goes on with `n` task events open: they all end, and none is open only at the end.
abbrev pub closes_burst : ℕ → List Action → Bool
closes_burst n [] = n == 0
closes_burst zero (a ∷ acts) = false
closes_burst (suc n) (start v d ∷ acts) =
    closes_burst (if opens_task v d then suc (suc n) else suc n) acts
closes_burst (suc n) (stop task ∷ acts) = closes_burst n acts
closes_burst (suc n) (stop h ∷ acts) = closes_burst (suc n) acts

-- What a burst is about to leave behind.
pub record Ends (s t : Events) : Type 0 where
  pub count : t.task_count ≡ 0
  pub type_kept : t.task_type ≡ s.task_type
  pub info_kept : t.task_info ≡ s.task_info
  pub ready : t.task_ready ≡ true

-- A step inside a burst: the task's type and union stay, and the counter follows the depth.
pub record Inside (s t : Events) (m : ℕ) : Type 0 where
  pub typed : IsTyped t
  pub count : t.task_count ≡ m
  pub type_kept : t.task_type ≡ s.task_type
  pub info_kept : t.task_info ≡ s.task_info
  pub ready_at_zero : m ≡ 0 → t.task_ready ≡ true

start-Inside :
    (v : Version) (d : Descr) (s : Events) (n : ℕ)
    → IsTyped s
    → s.task_count ≡ suc n
    → n + 2 < 2 ^ 32
    → Inside s (start_event v d s).0 (if opens_task v d then suc (suc n) else suc n)
unfolding start_event_v5 start_event_v6 start_event_v7
start-Inside v5 d s n i e b = ground arith
start-Inside v6 d s n i e b = ground arith
start-Inside v7 d s n i e b = ground arith

stop-Inside :
    (s : Events) (n : ℕ)
    → IsTyped s
    → s.task_count ≡ suc n
    → n + 1 < 2 ^ 32
    → Inside s (stop_event task s) n
unfolding stop_event
stop-Inside s n i e b = ground arith

stop_other-Inside :
    (h : Handle) (s : Events) (n : ℕ)
    → h ≢ task
    → IsTyped s
    → s.task_count ≡ suc n
    → Inside s (stop_event h s) (suc n)
unfolding stop_event
stop_other-Inside group s n ne i e = ground arith
stop_other-Inside task s n ne i e = absurd (ne refl)
stop_other-Inside proxy s n ne i e = ground arith

follow : {s t u : Events} {m : ℕ} → Inside s t m → Ends t u → Ends s u
follow i e = ground arith

burst-Ends :
    (acts : List Action) (s : Events) (n : ℕ)
    → IsTyped s
    → s.task_count ≡ n
    → n + length acts + 1 < 2 ^ 32
    → (n ≡ 0 → s.task_ready ≡ true)
    → closes_burst n acts ≡ true
    → Ends s (run acts s)
burst-Ends [] s n i e b r h = ground arith
burst-Ends (a ∷ acts) s zero i e b r h = cc
burst-Ends (start v d ∷ acts) s (suc n) i e b r h =
    let m : ℕ = if opens_task v d then suc (suc n) else suc n in
    let j = start-Inside v d s n i e (omega arith) in
    follow j
      (burst-Ends acts (act (start v d) s) m j.typed j.count (ground arith) j.ready_at_zero h)
burst-Ends (stop group ∷ acts) s (suc n) i e b r h =
    let j = stop_other-Inside group s n (λ x. cc) i e in
    follow j
      (burst-Ends acts (act (stop group) s) (suc n) j.typed j.count (omega arith) j.ready_at_zero h)
burst-Ends (stop task ∷ acts) s (suc n) i e b r h =
    let j = stop-Inside s n i e (omega arith) in
    follow j (burst-Ends acts (act (stop task) s) n j.typed j.count (omega arith) j.ready_at_zero h)
burst-Ends (stop proxy ∷ acts) s (suc n) i e b r h =
    let j = stop_other-Inside proxy s n (λ x. cc) i e in
    follow j
      (burst-Ends acts (act (stop proxy) s) (suc n) j.typed j.count (omega arith) j.ready_at_zero h)

-- What the first event of a burst leaves on the task object.
record Opened (v : Version) (d : Descr) (s : Events) : Type 0 where
  typed : IsTyped (start_event v d s).0
  count : (start_event v d s).0.task_count ≡ 1
  alike :
      (t : Events)
      → t.task_count ≡ 0
      → ((start_event v d t).0.task_info ≡ (start_event v d s).0.task_info)
        × ((start_event v d t).0.task_type ≡ (start_event v d s).0.task_type)

opened :
    (v : Version) (d : Descr) (s : Events)
    → opens_task v d ≡ true
    → s.task_count ≡ 0
    → is_group_type s.group_type ≡ true
    → is_proxy_type s.proxy_type ≡ true
    → Opened v d s
unfolding start_event_v5 start_event_v6 start_event_v7
opened v5 d s o z g p = record {
  typed = ground arith;
  count = ground arith;
  alike = λ t e. ground arith;
}
opened v6 d s o z g p = record {
  typed = ground arith;
  count = ground arith;
  alike = λ t e. ground arith;
}
opened v7 d s o z g p = record {
  typed = ground arith;
  count = ground arith;
  alike = λ t e. ground arith;
}

-- With no task event open and the types of the group and the proxy at rest or their own: over any
-- sequence of fewer than 2^32 - 1 calls of the handlers for start and stop events of any kind,
-- each call finished before the next begins, a burst of task events whose last open one ends at
-- the end brings the counter back to 0, makes the task ready, and leaves the type and the
-- description of its first event.
pub burst_reports_first :
    (v : Version) (d : Descr) (acts : List Action) (s : Events)
    → opens_task v d ≡ true
    → s.task_count ≡ 0
    → is_group_type s.group_type ≡ true
    → is_proxy_type s.proxy_type ≡ true
    → length acts + 2 < 2 ^ 32
    → closes_burst 1 acts ≡ true
    → let t = run (start v d ∷ acts) s in
      let first = (start_event v d events_init).0 in
      (t.task_count ≡ 0)
      × (t.task_ready ≡ true)
      × (t.task_type ≡ first.task_type)
      × (t.task_info ≡ first.task_info)
burst_reports_first v d acts s o z g p b h =
    let f = opened v d s o z g p in
    let e =
      burst-Ends acts (start_event v d s).0 1 f.typed f.count (omega arith)
        (λ x. absurd (omega arith)) h in
    let (info, type) = f.alike events_init refl in
    (e.count, e.ready, e.type_kept ∙ sym type, e.info_kept ∙ sym info)
