-- ===== src/Profiler/Overlap.antt =====
-- The handlers of task events in src/util.cu taken apart where another thread can come in between: a handler that
-- starts an event counts it and, if it is the first of a burst, then writes the type and then the description;
-- one that stops an event reads the type, then counts down, and the last one then sets the task ready.
use nccl_tests.Prelude.{
  ℕ, zero, suc, ◌-◌, ◌<◌, ◌^◌, ◌≡◌, refl, sym, ap, ◌∙◌, subst, ◌⊎◌, inl, inr, Bool, true, false,
  ◌&&◌, ◌||◌, not, List, [], ◌∷◌, ltb, ◌==◌, if◌then◌else◌, arith, Bool-cases,
}
use nccl_tests.Profiler.{Events, EventType, TaskInfo, add_one, sub_one, start_task}
use nccl_tests.Profiler.Counting.{is_task_type}

-- What a handler that has begun is still to do.
pub data Pending : Type 0 where
  write_type : EventType → TaskInfo → Pending
  write_info : TaskInfo → Pending
  count_down make_ready : Pending

pub record Overlap : Type 0 where
  pub events : Events
  pub pending : List Pending

-- A handler begins, or one that has begun takes its next step.
pub data Micro : Type 0 where
  begin_start : EventType → TaskInfo → Micro
  begin_stop : Micro
  go_on : ℕ → Micro

-- The steps of the handlers. Only types of task events are ever written to the task, so that any other type that
-- a stop reads is the 0 of static storage, for which it does nothing.
abbrev pub begun : Micro → Overlap → Overlap
begun (begin_start type info) o = record {
  events = record o.events { task_count = add_one o.events.task_count };
  pending = if o.events.task_count == 0 then write_type type info ∷ o.pending else o.pending;
}
begun begin_stop o = record {
  events = o.events;
  pending = if is_task_type o.events.task_type then count_down ∷ o.pending else o.pending;
}
begun (go_on k) o = o

abbrev pub perform : Pending → Events → (rest : List Pending) → Overlap
perform (write_type type info) e rest = record {
  events = record e { task_type = type };
  pending = write_info info ∷ rest;
}
perform (write_info info) e rest = record { events = record e { task_info = info }; pending = rest }
perform count_down e rest = record {
  events = record e { task_count = sub_one e.task_count };
  pending = if e.task_count == 1 then make_ready ∷ rest else rest;
}
perform make_ready e rest = record { events = record e { task_ready = true }; pending = rest }

-- Those that were passed over, put back in front of the others.
abbrev pub put_back : List Pending → List Pending → List Pending
put_back [] l = l
put_back (p ∷ front) l = put_back front (p ∷ l)

-- One of those that have begun goes on, `k` of them passed over.
abbrev pub take_step : ℕ → (front l : List Pending) → Events → Overlap
take_step k front [] e = record { events = e; pending = put_back front [] }
take_step zero front (p ∷ l) e = perform p e (put_back front l)
take_step (suc k) front (p ∷ l) e = take_step k (p ∷ front) l e

unfoldable pub micro : Micro → Overlap → Overlap
micro (go_on k) o = take_step k [] o.pending o.events
micro a o = begun a o

abbrev pub overlap : List Micro → Overlap → Overlap
overlap [] o = o
overlap (a ∷ l) o = overlap l (micro a o)

abbrev pub alone : Events → Overlap
alone e = record { events = e; pending = [] }

-- A handler that is not interrupted is the one step of Profiler.
start_task_lem :
    (type : EventType) (info : TaskInfo) (e : Events)
    → overlap (begin_start type info ∷ go_on 0 ∷ go_on 0 ∷ []) (alone e)
      ≡ alone (start_task type info e)
unfolding micro
start_task_lem type info e = elim (Bool-cases (e.task_count == 0)) [
  | inl h ↦ rw h refl
  | inr h ↦ rw h refl
]

-- Until the burst is over no event starts one: the counter is above 0, and below its limit, when one begins.
abbrev pub goes_on : List Micro → Overlap → Bool
goes_on [] o = true
goes_on (begin_start type info ∷ l) o =
    ltb 0 o.events.task_count
    && ltb o.events.task_count (2 ^ 32 - 1)
    && goes_on l (micro (begin_start type info) o)
goes_on (a ∷ l) o = goes_on l (micro a o)

abbrev is_write : Pending → Bool
is_write (write_type type info) = true
is_write (write_info info) = true
is_write p = false

abbrev is_ready : Pending → Bool
is_ready make_ready = true
is_ready p = false

abbrev no_writes : List Pending → Bool
no_writes [] = true
no_writes (p ∷ l) = not (is_write p) && no_writes l

abbrev has_ready : List Pending → Bool
has_ready [] = false
has_ready (p ∷ l) = is_ready p || has_ready l

put_back_writes :
    (f l : List Pending) → no_writes f ≡ true → no_writes l ≡ true → no_writes (put_back f l) ≡ true
put_back_writes [] l h k = k
put_back_writes (p ∷ f) l h k = put_back_writes f (p ∷ l) (ground arith) (ground arith)

put_back_ready :
    (f l : List Pending) → (has_ready f || has_ready l) ≡ true → has_ready (put_back f l) ≡ true
put_back_ready [] l h = h
put_back_ready (p ∷ f) l h = put_back_ready f (p ∷ l) (ground arith)

-- The description stays, and whoever brings the counter to 0 sees to it that the task becomes ready.
record Kept (type : EventType) (info : TaskInfo) (o : Overlap) : Type 0 where
  type_kept : o.events.task_type ≡ type
  info_kept : o.events.task_info ≡ info
  written : no_writes o.pending ≡ true
  bounded : o.events.task_count < 2 ^ 32
  ready : o.events.task_count ≡ 0 → (o.events.task_ready ≡ true) ⊎ (has_ready o.pending ≡ true)

take_step-Kept :
    (type : EventType) (info : TaskInfo) (k : ℕ) (front l : List Pending) (e : Events)
    → e.task_type ≡ type
    → e.task_info ≡ info
    → e.task_count < 2 ^ 32
    → no_writes front ≡ true
    → no_writes l ≡ true
    → (e.task_count ≡ 0 → (e.task_ready ≡ true) ⊎ ((has_ready front || has_ready l) ≡ true))
    → Kept type info (take_step k front l e)
take_step-Kept type info k front [] e t i b f w r = record {
  type_kept = t;
  info_kept = i;
  written = put_back_writes front [] f refl;
  bounded = b;
  ready = λ z. elim (r z) [ inl h ↦ inl h | inr h ↦ inr (put_back_ready front [] h) ];
}
take_step-Kept type info zero front (write_type u v ∷ l) e t i b f w r = absurd (ground arith)
take_step-Kept type info zero front (write_info v ∷ l) e t i b f w r = absurd (ground arith)
take_step-Kept type info zero front (count_down ∷ l) e t i b f w r =
    let rest = put_back_writes front l f (ground arith) in
    record {
      type_kept = t;
      info_kept = i;
      written = ground arith;
      bounded = omega arith;
      ready = λ z. inr (ground arith);
    }
take_step-Kept type info zero front (make_ready ∷ l) e t i b f w r = record {
  type_kept = t;
  info_kept = i;
  written = put_back_writes front l f (ground arith);
  bounded = b;
  ready = λ z. inl refl;
}
take_step-Kept type info (suc k) front (p ∷ l) e t i b f w r =
    take_step-Kept type info k (p ∷ front) l e t i b (ground arith) (ground arith)
      (λ z. elim (r z) [ inl h ↦ inl h | inr h ↦ inr (ground arith) ])

overlap-Kept :
    (type : EventType) (info : TaskInfo) (l : List Micro) (o : Overlap)
    → Kept type info o
    → goes_on l o ≡ true
    → Kept type info (overlap l o)
unfolding micro
overlap-Kept type info [] o h g = h
overlap-Kept type info (begin_start u v ∷ l) o h g =
    let above : (o.events.task_count == 0) ≡ false = ground arith in
    let narrow : o.events.task_count < 2 ^ 32 - 1 = ground arith in
    let positive : 0 < o.events.task_count = ground arith in
    overlap-Kept type info l (micro (begin_start u v) o)
      (record {
        type_kept = h.type_kept;
        info_kept = h.info_kept;
        written = rw above h.written;
        bounded = omega arith;
        ready = λ z. absurd (omega arith);
      })
      (ground arith)
overlap-Kept type info (begin_stop ∷ l) o h g =
    overlap-Kept type info l (micro begin_stop o)
      (record {
        type_kept = h.type_kept;
        info_kept = h.info_kept;
        written = stopped (is_task_type o.events.task_type) o.pending h.written;
        bounded = h.bounded;
        ready = λ z. elim (h.ready z) [
          | inl r ↦ inl r
          | inr r ↦ inr (still (is_task_type o.events.task_type) o.pending r)
        ];
      })
      g
  where
    stopped :
        (b : Bool) (p : List Pending)
        → no_writes p ≡ true
        → no_writes (if b then count_down ∷ p else p) ≡ true
    stopped true p h = h
    stopped false p h = h

    still :
        (b : Bool) (p : List Pending)
        → has_ready p ≡ true
        → has_ready (if b then count_down ∷ p else p) ≡ true
    still true p h = h
    still false p h = h
overlap-Kept type info (go_on k ∷ l) o h g =
    overlap-Kept type info l (micro (go_on k) o)
      (take_step-Kept type info k [] o.pending o.events h.type_kept h.info_kept h.bounded refl
        h.written h.ready)
      g

-- With no task event counted, let a handler start one and write its type and description; then let
-- any handlers that start and stop task events run at the same time, their atomic steps mixed in
-- any way, as long as none starts an event while the counter is 0 or at its largest value: the
-- type and the description stay those of the first event, and once the counter is 0 and no handler
-- has anything left to do, the task is ready.
pub overlapped_burst :
    (type : EventType) (info : TaskInfo) (e : Events) (l : List Micro)
    → e.task_count ≡ 0
    → let o = overlap (begin_start type info ∷ go_on 0 ∷ go_on 0 ∷ []) (alone e) in
      goes_on l o ≡ true
      → (((overlap l o).events.task_type ≡ type) × ((overlap l o).events.task_info ≡ info))
        × ((overlap l o).events.task_count ≡ 0
            → (overlap l o).pending ≡ []
            → (overlap l o).events.task_ready ≡ true)
overlapped_burst type info e l h g =
    let o = overlap (begin_start type info ∷ go_on 0 ∷ go_on 0 ∷ []) (alone e) in
    let first : Kept type info (alone (start_task type info e)) = record {
      type_kept = ground arith;
      info_kept = ground arith;
      written = refl;
      bounded = ground arith;
      ready = λ z. absurd (ground arith);
    } in
    let k =
      overlap-Kept type info l o (subst (Kept type info) (sym (start_task_lem type info e)) first)
        g in
    (
      (k.type_kept, k.info_kept),
      λ z p. elim (k.ready z) [ inl r ↦ r | inr r ↦ absurd (differs (sym (ap has_ready p) ∙ r)) ],
    )
  where
    differs : false ≡ true → ⊥
    differs d = ground arith
