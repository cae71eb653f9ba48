-- ===== src/Profiler.antt =====
-- The profiler plugin of src/util.cu: the three event objects, the handlers that NCCL calls at the
-- start and the end of an event, and what a result line reads of them. A call of a handler is one
-- step, so a sequence of them has one call finished before the next begins. In the source several threads
-- may be in a handler at once, and the fields beside a counter are written behind it: Overlap takes the
-- handlers of task events apart.
pub mod Counting
pub mod Overlap
mod Tests
pub mod Variant
use nccl_tests.Prelude.{
  ℕ, ◌+◌, ◌-◌, ◌%◌, ◌^◌, ℤ, pos, negsuc, Bool, true, false, ◌&&◌, Option, none, some, List, [], ◌∷◌,
  codes, ◌==◌, if◌then◌else◌,
}
use nccl_tests.Profiler.Variant.{strip_func}

-- The event types of nccl_profiler.h that the plugin knows, and those that it ignores.
pub data EventType : Type 0 where
  no_type profile_group profile_coll profile_p2p profile_proxy_op profile_ce_coll : EventType
  profile_other : EventType

-- The union of `taskEvent`.
pub data TaskInfo : Type 0 where
  unset : TaskInfo
  coll :
      (implementation algo proto kernel_variant : List ℕ) (n_channels : ℤ) (n_warps : ℕ) → TaskInfo
  p2p : (n_channels : ℕ) → TaskInfo
  ce : (sync_strategy : List ℕ) → TaskInfo

-- `group`, `task` and `proxy`. A count is the bit pattern of an `atomic<int>`.
pub record Events : Type 0 where
  pub group_type : EventType
  pub group_count : ℕ
  pub task_type : EventType
  pub task_count : ℕ
  pub task_ready : Bool
  pub task_info : TaskInfo
  pub proxy_type : EventType
  pub proxy_count : ℕ
  pub proxy_ready : Bool
  pub chunk_size : ℤ

-- Static storage begins as zeros.
abbrev pub events_init : Events
events_init = record {
  group_type = no_type;
  group_count = 0;
  task_type = no_type;
  task_count = 0;
  task_ready = false;
  task_info = unset;
  proxy_type = no_type;
  proxy_count = 0;
  proxy_ready = false;
  chunk_size = pos 0;
}

-- What `*eHandle` is set to; `none` where a handler leaves it alone.
pub data Handle : Type 0 where
  group task proxy : Handle

-- `fetch_add(1)` and `fetch_sub(1)` on 32 bits.
abbrev pub add_one : ℕ → ℕ
add_one n = (n + 1) % 2 ^ 32

abbrev pub sub_one : ℕ → ℕ
sub_one n = (n + (2 ^ 32 - 1)) % 2 ^ 32

abbrev pub not_available : List ℕ
not_available = codes "N/A"

abbrev pub or_na : Option (List ℕ) → List ℕ
or_na none = not_available
or_na (some s) = s

-- The three functions that open an event on `task` share their shape: the first event of a burst
-- writes the type and the union.
abbrev pub start_task : EventType → TaskInfo → Events → Events
start_task type info s =
    if s.task_count == 0
    then record s { task_count = add_one s.task_count; task_type = type; task_info = info }
    else record s { task_count = add_one s.task_count }

-- `ncclProfilerStartCollEvent`.
unfoldable pub start_coll_event :
    EventType
    → (implementation : List ℕ) (algo proto kernel_variant : Option (List ℕ))
    → (n_channels n_warps : ℕ) → Events
    → Events × Option Handle
start_coll_event type implementation algo proto kernel_variant n_channels n_warps s = (
  start_task type
      (coll implementation (or_na algo) (or_na proto) (or_na kernel_variant)
        (if n_channels == 0 then negsuc 0 else pos n_channels) n_warps)
      s,
  some task,
)

-- `ncclProfilerStartP2pEvent`.
unfoldable pub start_p2p_event : EventType → ℕ → Events → Events × Option Handle
start_p2p_event type n_channels s = (start_task type (p2p n_channels) s, some task)

-- `ncclProfilerStartCeEvent`.
unfoldable pub start_ce_event : EventType → Option (List ℕ) → Events → Events × Option Handle
start_ce_event type sync_strategy s = (start_task type (ce (or_na sync_strategy)) s, some task)

-- `ncclProfilerStartProxyEvent`.
unfoldable pub start_proxy_event : EventType → ℤ → Events → Events × Option Handle
start_proxy_event type chunk s = (
  (if s.proxy_count == 0
      then record s { proxy_count = add_one s.proxy_count; proxy_type = type; chunk_size = chunk }
      else record s { proxy_count = add_one s.proxy_count }),
  some proxy,
)

-- An event descriptor: its type with the fields that the plugin reads of it.
pub data Descr : Type 0 where
  descr_group : Descr
  descr_coll :
      (func algo proto kernel_variant : Option (List ℕ)) (is_sym_coll : Bool)
      → (n_channels n_warps : ℕ) → Descr
  descr_p2p : (n_channels : ℕ) → Descr
  descr_proxy_op : (chunk : ℤ) → Descr
  descr_ce_coll : (sync_strategy : Option (List ℕ)) → Descr
  descr_other : Descr

-- `ncclProfilerStartEventCommon`.
unfoldable pub start_event_common : Descr → Events → Events × Option Handle
unfolding start_p2p_event start_proxy_event
start_event_common descr_group s =
    (record s { group_type = profile_group; group_count = add_one s.group_count }, some group)
start_event_common (descr_p2p n) s = start_p2p_event profile_p2p n s
start_event_common (descr_proxy_op chunk) s = start_proxy_event profile_proxy_op chunk s
start_event_common _ s = (s, none)

-- `ncclProfilerStartEvent_v5`; version 5 has no copy-engine events, so they take the common path.
unfoldable pub start_event_v5 : Descr → Events → Events × Option Handle
unfolding start_coll_event start_event_common
start_event_v5 (descr_coll func algo proto variant sym n w) s =
    start_coll_event profile_coll (codes "GEN") algo proto none n w s
start_event_v5 d s = start_event_common d s

-- `ncclProfilerStartEvent_v6`.
unfoldable pub start_event_v6 : Descr → Events → Events × Option Handle
unfolding start_coll_event start_ce_event start_event_common
start_event_v6 (descr_ce_coll strategy) s = start_ce_event profile_ce_coll strategy s
start_event_v6 (descr_coll func algo proto variant sym n w) s =
    start_coll_event profile_coll (codes "GEN") algo proto none n w s
start_event_v6 d s = start_event_common d s

abbrev pub variant_of : Option (List ℕ) → Option (List ℕ) → Bool → Option (List ℕ)
variant_of (some func) (some variant) true = some (strip_func variant func)
variant_of none (some variant) true = some variant
variant_of _ _ _ = none

-- `ncclProfilerStartEvent_v7`.
unfoldable pub start_event_v7 : Descr → Events → Events × Option Handle
unfolding start_coll_event start_ce_event start_event_common
start_event_v7 (descr_coll func algo proto variant sym n w) s =
    start_coll_event profile_coll (if sym then codes "SYM" else codes "GEN")
      (if sym then some not_available else algo) (if sym then some not_available else proto)
      (variant_of func variant sym) n w s
start_event_v7 (descr_ce_coll strategy) s = start_ce_event profile_ce_coll strategy s
start_event_v7 d s = start_event_common d s

abbrev pub type_of : Handle → Events → EventType
type_of group s = s.group_type
type_of task s = s.task_type
type_of proxy s = s.proxy_type

-- The `switch` of `ncclProfilerStopEvent` on the type that stands at the front of the object. A
-- type goes with its object, so the casts are to the object's own type.
abbrev pub stop_at : EventType → Events → Events
stop_at profile_group s = record s { group_count = sub_one s.group_count }
stop_at profile_proxy_op s =
    if s.proxy_count == 1
    then record s { proxy_count = sub_one s.proxy_count; proxy_ready = true }
    else record s { proxy_count = sub_one s.proxy_count }
stop_at no_type s = s
stop_at profile_other s = s
stop_at _ s =
    if s.task_count == 1
    then record s { task_count = sub_one s.task_count; task_ready = true }
    else record s { task_count = sub_one s.task_count }

unfoldable pub stop_event : Handle → Events → Events
stop_event h s = stop_at (type_of h s) s

-- What `writeBenchmarkLineTerminator` reads of the events. A number below zero is not available.
pub record Tuning : Type 0 where
  pub implementation : List ℕ
  pub algo : List ℕ
  pub proto : List ℕ
  pub kernel_variant : List ℕ
  pub sync_strategy : List ℕ
  pub n_channels : ℤ
  pub n_warps : ℤ
  pub net_chunk_size : Option ℤ

abbrev pub no_tuning : Option ℤ → Tuning
no_tuning chunk = record {
  implementation = not_available;
  algo = not_available;
  proto = not_available;
  kernel_variant = not_available;
  sync_strategy = not_available;
  n_channels = negsuc 0;
  n_warps = negsuc 0;
  net_chunk_size = chunk;
}

-- The branches on `task.type`; each reads the arm of the union that goes with the type.
abbrev pub task_tuning : EventType → TaskInfo → Option ℤ → Tuning
task_tuning profile_coll (coll i a p k n w) chunk = record (no_tuning chunk) {
  implementation = i;
  algo = a;
  proto = p;
  kernel_variant = k;
  n_channels = n;
  n_warps = pos w;
}
task_tuning profile_p2p (p2p n) chunk = record (no_tuning chunk) {
  implementation = codes "P2P";
  n_channels = pos n;
}
task_tuning profile_ce_coll (ce strategy) chunk = record (no_tuning chunk) {
  implementation = codes "CE";
  sync_strategy = strategy;
}
task_tuning _ _ chunk = no_tuning chunk

unfoldable pub read_tuning : Events → Tuning
read_tuning s =
    let chunk : Option ℤ = if s.proxy_ready then some s.chunk_size else none in
    if s.task_ready then task_tuning s.task_type s.task_info chunk else no_tuning chunk

-- The two stores at the end of `writeBenchmarkLineTerminator`.
unfoldable pub reset_ready : Events → Events
reset_ready s = record s { task_ready = false; proxy_ready = false }
