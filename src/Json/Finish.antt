-- ===== src/Json/Finish.antt =====
-- The loop that closes the report of src/util.cu, `while(state_n > 0) jsonFinishCurrent();`.
use nccl_tests.Prelude.{
  ℕ, List, [], ◌∷◌, ◌++◌, ◌≡◌, Option, none, some, refl, Bool, true, length, ◌∙◌, ap, subst, sym,
}
use nccl_tests.Json.State.{JsonState, Writer, M, ◌>>◌}
use nccl_tests.Json.Writer.{
  Call, perform_all, finish_current, finish_all_on, finish_all, json_finish_current,
}
use nccl_tests.Json.Machine.{Stack, steps, close_current}
use nccl_tests.Json.Machine.Refines.{
  Allocates, after, perform_all-refines, finish_current-refines, seen,
}
use nccl_tests.Json.Document.{
  Values, none_yet, IsPartial, finished, after_key, object_begun, in_object, list_begun, in_list,
}
use nccl_tests.Json.Document.Valid.{steps-IsPartial, step-IsPartial, AllWriteJson, begun_by, Holds}

-- Closing a part that is open gives the text and the stack below it.
pub data Closes (n : ℕ) (t : List ℕ) (s : JsonState) (st : Stack) : Type 0 where
  closes :
      (u : List ℕ)
      → close_current (s ∷ st) ≡ some (u, st)
      → IsPartial n st (t ++ u)
      → Closes n t s st

pub Closes-top :
    {n : ℕ} {s : JsonState} {st : Stack} {t : List ℕ} → IsPartial n (s ∷ st) t → Closes n t s st
Closes-top p = go p (step-IsPartial finish_current tt p)
  where
    go :
        {n : ℕ} {s : JsonState} {st : Stack} {t : List ℕ}
        → IsPartial n (s ∷ st) t
        → Holds (λ u st'. IsPartial n st' (t ++ u)) (close_current (s ∷ st))
        → Closes n t s st
    go (after_key sl) q = closes _ refl q
    go (object_begun sl e) q = closes _ refl q
    go (in_object sl ms e) q = closes _ refl q
    go (list_begun sl e) q = closes _ refl q
    go (in_list sl es e) q = closes _ refl q

-- What the loop ends with: nothing open, and `n` complete values.
pub record Closed (n : ℕ) (w : Writer) (r : Option Writer) : Type 0 where
  pub last : Writer
  pub returns : r ≡ some last
  pub empty : last.states ≡ []
  pub complete : Values n last.out

Values-of : {n : ℕ} {t : List ℕ} → IsPartial n [] t → Values n t
Values-of (finished d) = d

-- One round: the writer after it has one part fewer open.
round :
    {n : ℕ} {s : JsonState} {st : Stack} (w : Writer)
    → w.states ≡ s ∷ st
    → Closes n w.out s st
    → (w' : Writer) × (json_finish_current w ≡ some w') × (w'.states ≡ st) × IsPartial n st w'.out
round {n} {s} {st} w e (closes u c p) =
    let sn = seen (json_finish_current w) (
      finish_current-refines w
      ∙ ap (λ q. after w.out w.realloc_ok (close_current q)) e
      ∙ ap (after w.out w.realloc_ok) c) in
    (sn.result, sn.returns, sn.states_is, subst (IsPartial n st) (sym sn.out_is) p)

nothing_open :
    (w : Writer) (st : Stack) → st ≡ [] → elim st [ [] ↦ some w | s ∷ st' ↦ none ] ≡ some w
nothing_open w [] e = refl
nothing_open w (s ∷ st) e = cc

something_open :
    (r r' : Option Writer) (l st : Stack) {s : JsonState}
    → l ≡ s ∷ st
    → elim l [ [] ↦ r | s' ∷ st' ↦ r' ] ≡ r'
something_open r r' [] st e = cc
something_open r r' (x ∷ l) st e = refl

pub bind_some :
    (m k : M) (w : Writer) {w' : Writer} {r : Option Writer}
    → m w ≡ some w'
    → k w' ≡ r
    → (m >> k) w ≡ r
bind_some m k w {w'} e f = ap (λ o. elim o [ none ↦ none | some v ↦ k v ]) e ∙ f

finish_all_on-Closed :
    {n : ℕ} (st : Stack) (w : Writer)
    → w.states ≡ st
    → IsPartial n st w.out
    → Closed n w (finish_all_on (length st) w)
unfolding finish_all_on
finish_all_on-Closed [] w e p = record {
  last = w;
  returns = nothing_open w w.states e;
  empty = e;
  complete = Values-of p;
}
finish_all_on-Closed {n} (s ∷ st) w e p =
    let (w', r, e', p') = round w e (Closes-top p) in
    let c = finish_all_on-Closed st w' e' p' in
    record {
      last = c.last;
      returns = something_open _ _ w.states st e ∙ bind_some json_finish_current _ w r c.returns;
      empty = c.empty;
      complete = c.complete;
    }

-- From any text that is a beginning of JSON, the closing loop ends without a failed assertion, with
-- nothing open, and the text is then complete JSON values, as many as were begun.
pub finish_all-Closed :
    {n : ℕ} (w : Writer) → IsPartial n w.states w.out → Closed n w (finish_all w)
unfolding finish_all
finish_all-Closed w p = finish_all_on-Closed w.states w refl p

-- A writer before the report: no stack, nothing written.
abbrev pub fresh : (ℕ → Bool) → Writer
fresh ok = record { states = []; state_cap = 0; out = []; realloc_ok = ok }

-- What accepted calls do to a writer whose text is a beginning of JSON.
pub record Advanced (cs : List Call) (n : ℕ) (w : Writer) (st : Stack) : Type 0 where
  pub result : Writer
  pub returns : perform_all cs w ≡ some result
  pub states_is : result.states ≡ st
  pub partial : IsPartial (begun_by cs w.states n) st result.out
  pub allocates : Allocates result

pub advance :
    (cs : List Call) {n : ℕ} (w : Writer) {u : List ℕ} {st : Stack}
    → Allocates w
    → AllWriteJson cs
    → IsPartial n w.states w.out
    → steps cs w.states ≡ some (u, st)
    → Advanced cs n w st
advance cs {n} w {u} {st} h all p e =
    let k : ℕ = begun_by cs w.states n in
    let sn =
      seen (perform_all cs w) (perform_all-refines cs w h ∙ ap (after w.out w.realloc_ok) e) in
    let q : IsPartial k st (w.out ++ u) =
      subst (Holds (λ v st'. IsPartial k st' (w.out ++ v))) e (steps-IsPartial cs all p) in
    record {
      result = sn.result;
      returns = sn.returns;
      states_is = sn.states_is;
      partial = subst (IsPartial k st) (sym sn.out_is) q;
      allocates = λ m. ap (λ f. f m) sn.realloc_is ∙ h m;
    }

-- A report made of any calls that the machine accepts, closed by the loop, is complete JSON: with
-- memory to be had and no infinite number, no assertion fails, and the file then holds complete JSON
-- documents, as many as the calls began.
pub report-Values :
    (ok : ℕ → Bool) (cs : List Call) {u : List ℕ} {st : Stack}
    → ((n : ℕ) → ok n ≡ true)
    → AllWriteJson cs
    → steps cs [] ≡ some (u, st)
    → (w : Writer) × (perform_all cs (fresh ok) ≡ some w)
      × Closed (begun_by cs [] 0) w (finish_all w)
report-Values ok cs h all e =
    let a = advance cs (fresh ok) h all (finished none_yet) e in
    (a.result, a.returns, finish_all-Closed a.result (rw a.states_is a.partial))
