-- ===== src/Report/Session/Complete.antt =====
-- The report of src/util.cu is a complete JSON document, however the run of src/common.cu ends.
use nccl_tests.Prelude.{
  ℕ, suc, ℤ, Bool, true, false, Option, none, some, List, [], ◌∷◌, ◌++◌, codes, if◌then◌else◌,
  length, ◌==◌, ◌≡◌, refl, sym, ap, subst, arith, append_assoc,
}
use nccl_tests.Json.State.{
  JsonState, object_empty, object_some, list_some, Writer, M, ◌>>◌, json_curr_state, top,
}
use nccl_tests.Json.Writer.{Call, start_object, perform_all, finish_all}
use nccl_tests.Json.Machine.{Stack, steps, prefixed}
use nccl_tests.Json.Document.{Values, none_yet, IsPartial, finished}
use nccl_tests.Json.Document.Valid.{AllWriteJson, begun_by}
use nccl_tests.Json.Finish.{fresh, finish_all-Closed, bind_some, advance}
use nccl_tests.Json.Runs.{Runs, Passes, ◌then◌, Runs-Accepts, Runs-prefix}
use nccl_tests.Report.Runs.{
  AtLine, first_line, later_line, line_preamble-Passes, line_body-Passes, line_terminator-Passes,
  per_iter_report-Passes, output_init-Passes, device_report_config-Passes,
  device_report_devices-Passes, result_header-Passes, result_footer-Passes, write_errors-Passes,
}
use nccl_tests.Report.Session.{
  Bench, bench_per_iter, bench_calls, Line, line_calls, lines_calls, Session, results_calls,
  session_calls, json_output_finalize, end_time_in, assert_none, json_release,
}
use nccl_tests.Report.Lines.{IterReport}
use nccl_tests.Json.Print.{Double}

bench_per_iter-Passes :
    (out_of_place : Bool) (p : Option (ℤ × IterReport × List Double × Option (List (List Double))))
    (st : Stack)
    → Passes (bench_per_iter out_of_place p) (object_some ∷ st) (object_some ∷ st)
bench_per_iter-Passes out_of_place none st = record { run = refl }
bench_per_iter-Passes out_of_place (some (skipped, r, times, all_processes)) st =
    per_iter_report-Passes out_of_place skipped r times all_processes st

bench_calls-Passes :
    (report_cputime out_of_place : Bool) (b : Bench) (st : Stack)
    → Passes (bench_calls report_cputime out_of_place b) (object_some ∷ st) (object_some ∷ st)
bench_calls-Passes report_cputime out_of_place b st =
    line_body-Passes b.time_usec b.alg_bw b.bus_bw b.n_wrong report_cputime out_of_place st
    then bench_per_iter-Passes out_of_place b.per_iter st

line_calls-Passes :
    (report_cputime tuning : Bool) (l : Line) {s : JsonState} (st : Stack)
    → AtLine s
    → Passes (line_calls report_cputime tuning l) (s ∷ st) (list_some ∷ st)
line_calls-Passes report_cputime tuning l st a =
    line_preamble-Passes l.n_bytes l.n_elem l.type_name l.op_name l.root st a
    then (bench_calls-Passes report_cputime true l.out_of_place (list_some ∷ st)
        then (bench_calls-Passes report_cputime false l.in_place (list_some ∷ st)
            then line_terminator-Passes tuning l.task l.iters [] (list_some ∷ st)))

-- The lines, and then what follows them, from the list of results.
lines_then :
    (report_cputime tuning : Bool) (ls : List Line) {ds : List Call} {s : JsonState} {st b : Stack}
    → AtLine s
    → ((r : JsonState) → AtLine r → Passes ds (r ∷ st) b)
    → Passes (lines_calls report_cputime tuning ls ++ ds) (s ∷ st) b
lines_then report_cputime tuning [] {s = s} a rest = rest s a
lines_then report_cputime tuning (l ∷ ls) {ds} {st = st} a rest = rw append_assoc (
    line_calls-Passes report_cputime tuning l st a
    then lines_then report_cputime tuning ls later_line rest)

results_calls-Passes :
    (s : Session) → Passes (results_calls s) (object_some ∷ []) (object_some ∷ [])
results_calls-Passes s =
    result_header-Passes
    then lines_then s.report_cputime s.tuning s.lines first_line (λ r a.
      result_footer-Passes s.errors s.bw s.no_errors s.unchecked s.fast a
      then write_errors-Passes s.last_error)

-- Where the calls of a run leave the stack: in the top-level object, or, if a device is missing, in
-- the object of the configuration.
abbrev pub last_stack : Bool → Stack
last_stack true = object_some ∷ []
last_stack false = object_some ∷ object_some ∷ []

rest_calls-Passes :
    (found : Bool) (ds : List Call)
    → Passes ds (object_some ∷ object_some ∷ []) (object_some ∷ [])
    → Passes (if found then ds else []) (object_some ∷ object_some ∷ []) (last_stack found)
rest_calls-Passes true ds p = p
rest_calls-Passes false ds p = record { run = refl }

pub session_calls-Passes :
    (s : Session) → Passes (session_calls s) (object_empty ∷ []) (last_stack s.found)
session_calls-Passes s =
    output_init-Passes s.start_time s.argv s.envp s.nccl_version
    then (device_report_config-Passes s.config
        then rest_calls-Passes s.found _
            (device_report_devices-Passes s.ranks then results_calls-Passes s))

-- The end time is written where only the top-level object is open.
end_time_calls : Stack → List ℕ → List Call
end_time_calls st end_time = if length st == 1 then end_time_in (top st) end_time else []

not_one : (k : ℕ) → (suc (suc k) == 1) ≡ false
not_one k = ground arith

abbrev EndTime : (n : ℕ) (st : Stack) (end_time : List ℕ) → Type 0
EndTime n st end_time =
    (u : List ℕ) × (st' : Stack) × (steps (end_time_calls st end_time) st ≡ some (u, st'))
    × (begun_by (end_time_calls st end_time) st n ≡ n)
    × AllWriteJson (end_time_calls st end_time)

EndTime-accepted : (n : ℕ) (st : Stack) (end_time : List ℕ) → EndTime n st end_time
unfolding end_time_calls
EndTime-accepted n [] end_time = (_, _, refl, refl, tt)
EndTime-accepted n (object_empty ∷ []) end_time = (_, _, refl, refl, (tt, (tt, tt)))
EndTime-accepted n (object_some ∷ []) end_time = (_, _, refl, refl, (tt, (tt, tt)))
EndTime-accepted n (s ∷ []) end_time = (_, _, refl, refl, tt)
EndTime-accepted n (s ∷ r ∷ st) end_time = rw (not_one (length st)) (_, _, refl, refl, tt)

-- What `jsonOutputFinalize` ends with: nothing open, no stack, and `n` complete JSON documents.
pub record Finalized (n : ℕ) (r : Option Writer) : Type 0 where
  pub last : Writer
  pub returns : r ≡ some last
  pub empty : last.states ≡ []
  pub freed : last.state_cap ≡ 0
  pub complete : Values n last.out

assert-none : (st : Stack) (w : Writer) → st ≡ [] → assert_none (top st) w ≡ some w
assert-none [] w e = refl
assert-none (s ∷ st) w e = cc

pub finalize-Finalized :
    {n : ℕ} (w : Writer) (end_time : List ℕ)
    → ((m : ℕ) → w.realloc_ok m ≡ true)
    → IsPartial n w.states w.out
    → Finalized n (json_output_finalize true end_time w)
unfolding json_output_finalize end_time_calls
finalize-Finalized {n} w end_time h p =
    let (u, st', e, k, all) = EndTime-accepted n w.states end_time in
    let a = advance (end_time_calls w.states end_time) w h all p e in
    let closing = λ (v : Writer). perform_all (end_time_calls v.states end_time) in
    let checked : M = λ w'. assert_none (json_curr_state w') w' in
    let c =
      finish_all-Closed a.result
        (rw a.states_is (subst (λ m. IsPartial m st' a.result.out) k a.partial)) in
    record {
      last = record (c.last) { states = []; state_cap = 0 };
      returns =
          bind_some (closing w >> finish_all >> checked) json_release w
            (bind_some (closing w >> finish_all) checked w
              (bind_some (closing w) finish_all w a.returns c.returns)
              (assert-none c.last.states c.last c.empty))
            refl;
      empty = refl;
      freed = refl;
      complete = c.complete;
    }

-- However a run ends, after all its calls or cut off by an error behind any of them, the report is
-- complete JSON: with memory to be had and no infinite number among its values, no assertion of the
-- writer fails, and `jsonOutputFinalize` leaves exactly one JSON document in the file and no stack.
pub session-Finalized :
    (s : Session) (cs ds : List Call) (end_time : List ℕ) (ok : ℕ → Bool)
    → ((n : ℕ) → ok n ≡ true)
    → cs ++ ds ≡ session_calls s
    → AllWriteJson cs
    → (w : Writer) × (perform_all (start_object ∷ cs) (fresh ok) ≡ some w)
      × Finalized 1 (json_output_finalize true end_time w)
session-Finalized s cs ds end_time ok h split all =
    let run : Runs (cs ++ ds) (object_empty ∷ []) (last_stack s.found) =
      subst (λ l. Runs l (object_empty ∷ []) (last_stack s.found)) (sym split)
        (session_calls-Passes s).run in
    let (m, cut) = Runs-prefix cs ds (object_empty ∷ []) (last_stack s.found) run in
    let (u, e, k) = Runs-Accepts cs (object_empty ∷ []) m 1 cut in
    let a =
      advance (start_object ∷ cs) (fresh ok) h (tt, all) (finished none_yet)
        (ap (prefixed (codes "{")) e) in
    let p : IsPartial 1 a.result.states a.result.out =
      rw a.states_is (subst (λ j. IsPartial j m a.result.out) k a.partial) in
    (a.result, a.returns, finalize-Finalized a.result end_time a.allocates p)
