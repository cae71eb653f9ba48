-- ===== src/Gin/Sweep/Ranks.antt =====
-- The two ranks of `gin_perf_run` in src/device_api/gin/utils/common.cc side by side.
use nccl_tests.Prelude.{
  ℕ, ◌≡◌, refl, sym, ap, ◌∙◌, Bool, true, false, ◌&&◌, not, Option, some, List, [], ◌∷◌, ◌++◌,
  if◌then◌else◌, arith, append_assoc,
}
use nccl_tests.Gin.Options.{Args}
use nccl_tests.Gin.Options.Laws.{IsValid}
use nccl_tests.Gin.Options.{int_le}
use nccl_tests.Gin.Sweep.{
  Step, BenchmarkType, ping, ping_pong, throughput, mpi_init, mpi_allgather, mpi_bcast, mpi_barrier,
  mpi_reduce, mpi_finalize, comm_init, dev_comm_create, dev_comm_destroy, comm_destroy,
  stream_synchronize, stream_destroy, record_start, record_stop, elapsed_time, run, round_steps,
  gin_perf_run, local_device, prologue, epilogue,
}
use nccl_tests.Gin.Sweep.Sizes.{concat_map, IsSweep-unique, sweep-IsSweep}

-- The calls that wait for the other rank.
abbrev pub is_collective : Step → Bool
is_collective mpi_init = true
is_collective mpi_allgather = true
is_collective mpi_bcast = true
is_collective mpi_barrier = true
is_collective mpi_reduce = true
is_collective comm_init = true
is_collective dev_comm_create = true
is_collective dev_comm_destroy = true
is_collective comm_destroy = true
is_collective mpi_finalize = true
is_collective s = false

abbrev pub collectives : List Step → List Step
collectives [] = []
collectives (s ∷ l) = if is_collective s then s ∷ collectives l else collectives l

collectives-append : (l m : List Step) → collectives (l ++ m) ≡ collectives l ++ collectives m
collectives-append [] m = refl
collectives-append (s ∷ l) m = ground (arith, collectives-append l m)

-- Both ranks wait for each other at the same calls in a round.
round-collectives :
    (args : Args) (bench : BenchmarkType) (size : ℕ)
    → collectives (round_steps args bench true size)
      ≡ collectives (round_steps args bench false size)
unfolding round_steps
round-collectives args bench size =
    go bench args.gin_bidirectional (int_le args.warmup_iters 0) refl refl
  where
    go :
        (bench : BenchmarkType) (both cold : Bool)
        → args.gin_bidirectional ≡ both
        → int_le args.warmup_iters 0 ≡ cold
        → collectives (round_steps args bench true size)
          ≡ collectives (round_steps args bench false size)
    go ping true true b c = rw (b, c) refl
    go ping true false b c = rw (b, c) refl
    go ping false true b c = rw (b, c) refl
    go ping false false b c = rw (b, c) refl
    go ping_pong true true b c = rw (b, c) refl
    go ping_pong true false b c = rw (b, c) refl
    go ping_pong false true b c = rw (b, c) refl
    go ping_pong false false b c = rw (b, c) refl
    go throughput true true b c = rw (b, c) refl
    go throughput true false b c = rw (b, c) refl
    go throughput false true b c = rw (b, c) refl
    go throughput false false b c = rw (b, c) refl

rounds-collectives :
    (args : Args) (bench : BenchmarkType) (sizes : List ℕ)
    → collectives (concat_map (round_steps args bench true) sizes)
      ≡ collectives (concat_map (round_steps args bench false) sizes)
rounds-collectives args bench [] = refl
rounds-collectives args bench (size ∷ sizes) =
    collectives-append (round_steps args bench true size) _
    ∙ rw (round-collectives args bench size, rounds-collectives args bench sizes) refl
    ∙ sym (collectives-append (round_steps args bench false size) _)

-- A rank keeps to the streams: no barrier, reduction, time or end while work is queued that the host has
-- not waited for. `true` is work queued.
abbrev pub keeps_order : Bool → List Step → Bool
keeps_order queued [] = not queued
keeps_order queued (run elems iters ∷ l) = keeps_order true l
keeps_order queued (record_start ∷ l) = keeps_order true l
keeps_order queued (record_stop ∷ l) = keeps_order true l
keeps_order queued (stream_synchronize ∷ l) = keeps_order false l
keeps_order queued (mpi_barrier ∷ l) = not queued && keeps_order false l
keeps_order queued (mpi_reduce ∷ l) = not queued && keeps_order false l
keeps_order queued (elapsed_time ∷ l) = not queued && keeps_order false l
keeps_order queued (stream_destroy ∷ l) = not queued && keeps_order false l
keeps_order queued (s ∷ l) = keeps_order queued l

round-keeps_order :
    (args : Args) (bench : BenchmarkType) (rank0 : Bool) (size : ℕ) (l : List Step)
    → keeps_order false (round_steps args bench rank0 size ++ l) ≡ keeps_order false l
unfolding round_steps
round-keeps_order args bench rank0 size l =
    go bench rank0 args.gin_bidirectional (int_le args.warmup_iters 0) refl refl
  where
    go :
        (bench : BenchmarkType) (rank0 both cold : Bool)
        → args.gin_bidirectional ≡ both
        → int_le args.warmup_iters 0 ≡ cold
        → keeps_order false (round_steps args bench rank0 size ++ l) ≡ keeps_order false l
    go ping true true true b c = rw (b, c) refl
    go ping true true false b c = rw (b, c) refl
    go ping true false true b c = rw (b, c) refl
    go ping true false false b c = rw (b, c) refl
    go ping false true true b c = rw (b, c) refl
    go ping false true false b c = rw (b, c) refl
    go ping false false true b c = rw (b, c) refl
    go ping false false false b c = rw (b, c) refl
    go ping_pong true true true b c = rw c refl
    go ping_pong true true false b c = rw c refl
    go ping_pong true false true b c = rw c refl
    go ping_pong true false false b c = rw c refl
    go ping_pong false true true b c = rw (b, c) refl
    go ping_pong false true false b c = rw (b, c) refl
    go ping_pong false false true b c = rw (b, c) refl
    go ping_pong false false false b c = rw (b, c) refl
    go throughput true true true b c = rw (b, c) refl
    go throughput true true false b c = rw (b, c) refl
    go throughput true false true b c = rw (b, c) refl
    go throughput true false false b c = rw (b, c) refl
    go throughput false true true b c = rw (b, c) refl
    go throughput false true false b c = rw (b, c) refl
    go throughput false false true b c = rw (b, c) refl
    go throughput false false false b c = rw (b, c) refl

rounds-keeps_order :
    (args : Args) (bench : BenchmarkType) (rank0 : Bool) (sizes : List ℕ) (l : List Step)
    → keeps_order false (concat_map (round_steps args bench rank0) sizes ++ l) ≡ keeps_order false l
rounds-keeps_order args bench rank0 [] l = refl
rounds-keeps_order args bench rank0 (size ∷ sizes) l =
    ap (keeps_order false) (append_assoc (round_steps args bench rank0 size) _ l)
    ∙ round-keeps_order args bench rank0 size _
    ∙ rounds-keeps_order args bench rank0 sizes l

-- The loop's rounds are all that can differ.
around-collectives :
    (args : Args) (dev0 dev1 : ℕ) (r0 r1 : List Step)
    → collectives r0 ≡ collectives r1
    → collectives (prologue args true dev0 ++ r0 ++ epilogue args true)
      ≡ collectives (prologue args false dev1 ++ r1 ++ epilogue args false)
around-collectives args dev0 dev1 r0 r1 h = go args.gin_bidirectional refl
  where
    go :
        (both : Bool)
        → args.gin_bidirectional ≡ both
        → collectives (prologue args true dev0 ++ r0 ++ epilogue args true)
          ≡ collectives (prologue args false dev1 ++ r1 ++ epilogue args false)
    go true b = rw (b, collectives-append r0, collectives-append r1, h) refl
    go false b = rw (b, collectives-append r0, collectives-append r1, h) refl

around-keeps_order :
    (args : Args) (rank0 : Bool) (dev : ℕ) (r : List Step)
    → ((l : List Step) → keeps_order false (r ++ l) ≡ keeps_order false l)
    → keeps_order false (prologue args rank0 dev ++ r ++ epilogue args rank0) ≡ true
around-keeps_order args rank0 dev r h = go rank0 args.gin_bidirectional refl
  where
    go :
        (rank0 both : Bool)
        → args.gin_bidirectional ≡ both
        → keeps_order false (prologue args rank0 dev ++ r ++ epilogue args rank0) ≡ true
    go true both b = rw h refl
    go false true b = rw (b, h) refl
    go false false b = rw (b, h) refl

-- Two ranks that run to the end together.
pub record Together (r0 r1 : Option (List Step)) : Type 0 where
  pub steps0 : List Step
  pub steps1 : List Step
  pub ends0 : r0 ≡ some steps0
  pub ends1 : r1 ≡ some steps1
  pub same_collectives : collectives steps0 ≡ collectives steps1
  pub order0 : keeps_order false steps0 ≡ true
  pub order1 : keeps_order false steps1 ≡ true

-- With arguments that are fit for a run, both ranks of a benchmark end their loops, and they make the same
-- collective calls in the same order, so that neither waits for a call that the other does not make;
-- neither enters a barrier or a reduction, or reads a time, while the stream holds work it has not
-- waited for.
pub gin_perf_run-Together :
    (args : Args) (bench : BenchmarkType) (host0 host1 : ℕ)
    → IsValid args
    → Together
        (gin_perf_run args bench (host0 ∷ host1 ∷ []) 0)
        (gin_perf_run args bench (host0 ∷ host1 ∷ []) 1)
unfolding gin_perf_run
gin_perf_run-Together args bench host0 host1 v =
    let (sizes, e0, s0) = sweep-IsSweep (round_steps args bench true) args v in
    let (sizes1, e1', s1) = sweep-IsSweep (round_steps args bench false) args v in
    let e1 =
      e1'
      ∙ ap (λ l. some (concat_map (round_steps args bench false) l)) (sym (IsSweep-unique s0 s1)) in
    record {
      steps0 =
          prologue args true (local_device (host0 ∷ host1 ∷ []) 0 0)
          ++ concat_map (round_steps args bench true) sizes
          ++ epilogue args true;
      steps1 =
          prologue args false (local_device (host0 ∷ host1 ∷ []) 1 1)
          ++ concat_map (round_steps args bench false) sizes
          ++ epilogue args false;
      ends0 = rw e0 refl;
      ends1 = rw e1 refl;
      same_collectives =
          around-collectives args (local_device (host0 ∷ host1 ∷ []) 0 0)
            (local_device (host0 ∷ host1 ∷ []) 1 1) (concat_map (round_steps args bench true) sizes)
            _ (rounds-collectives args bench sizes);
      order0 =
          around-keeps_order args true (local_device (host0 ∷ host1 ∷ []) 0 0)
            (concat_map (round_steps args bench true) sizes)
            (rounds-keeps_order args bench true sizes);
      order1 =
          around-keeps_order args false (local_device (host0 ∷ host1 ∷ []) 1 1)
            (concat_map (round_steps args bench false) sizes)
            (rounds-keeps_order args bench false sizes);
    }
