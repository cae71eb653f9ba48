-- ===== src/Json/Machine/Refines.antt =====
-- The writer of src/util.cu does what the machine says.
use nccl_tests.Prelude.{
  ℕ, ◌*◌, ◌%◌, ◌^◌, max, Bool, true, Option, none, some, List, [], ◌∷◌, ◌++◌, codes, ◌≡◌, refl,
  append_assoc, append-nil, ◌∙◌, ap, arith, ◌≢◌,
}
use nccl_tests.Json.State.{
  JsonState, json_none, key, object_empty, object_some, list_empty, list_some, Writer,
  json_push_state, M, ◌>>◌, emit,
}
use nccl_tests.Json.Writer.{
  quoted_text, Call, call_key, start_object, finish_object, start_list, finish_list, null,
  finish_current, str, bool, int, size_t, double, perform, perform_all, json_key, json_val_helper,
  json_start_object, json_start_list, json_null, json_str, json_bool, json_int, json_size_t,
  json_double, json_finish_object, json_finish_list, json_finish_current,
}
use nccl_tests.Json.Machine.{
  step, steps, prefixed, Stack, scalar, opening, open_key, close_object, close_list, close_current,
}

-- `realloc` never fails.
abbrev pub Allocates : Writer → Type 0
Allocates w = (n : ℕ) → w.realloc_ok n ≡ true

-- The state of a writer as the machine sees it.
abbrev pub view : Option Writer → Option (List ℕ × Stack × (ℕ → Bool))
view none = none
view (some w) = some (w.out, w.states, w.realloc_ok)

abbrev pub after :
    List ℕ → (ℕ → Bool) → Option (List ℕ × Stack) → Option (List ℕ × Stack × (ℕ → Bool))
after out ok none = none
after out ok (some (t, st)) = some (out ++ t, st, ok)

abbrev writer : Stack → ℕ → List ℕ → (ℕ → Bool) → Writer
writer st cap out ok = record { states = st; state_cap = cap; out = out; realloc_ok = ok }

module _ (cap : ℕ) (ok : ℕ → Bool) where
  view-push :
      (s : JsonState) (st : Stack) (out : List ℕ)
      → s ≢ json_none
      → ((n : ℕ) → ok n ≡ true)
      → view (json_push_state s (writer st cap out ok)) ≡ some (out, s ∷ st, ok)
  unfolding json_push_state
  view-push json_none st out ne h = absurd (ne refl)
  view-push key st out ne h = ground (arith, h (4 * max 16 (cap * 2 % 2 ^ 64) % 2 ^ 64))
  view-push s st out ne h = ground (arith, h (4 * max 16 (cap * 2 % 2 ^ 64) % 2 ^ 64))

  view-scalar :
      (t : List ℕ) (st : Stack) (out : List ℕ)
      → view ((json_val_helper >> emit t) (writer st cap out ok)) ≡ after out ok (scalar t st)
  unfolding json_val_helper
  view-scalar t (list_some ∷ st) out = rw append_assoc
  view-scalar t [] out = refl
  view-scalar t (s ∷ st) out = refl

  module _ (h : (n : ℕ) → ok n ≡ true) where
    view-opening :
        (t : List ℕ) (s : JsonState) (st : Stack) (out : List ℕ)
        → s ≢ json_none
        → view ((json_val_helper >> emit t >> json_push_state s) (writer st cap out ok))
          ≡ after out ok (opening t s st)
    unfolding json_val_helper
    view-opening t s (list_some ∷ st) out ne = view-push s _ _ ne h ∙ rw append_assoc
    view-opening t s [] out ne = view-push s _ _ ne h
    view-opening t s (object_empty ∷ st) out ne = refl
    view-opening t s (object_some ∷ st) out ne = refl
    view-opening t s (r ∷ st) out ne = view-push s _ _ ne h

    view-key :
        (n : List ℕ) (st : Stack) (out : List ℕ)
        → view (json_key n (writer st cap out ok)) ≡ after out ok (open_key n st)
    unfolding json_key
    view-key n [] out = refl
    view-key n (object_empty ∷ st) out = view-push key _ _ (λ e. cc) h
    view-key n (object_some ∷ st) out =
        view-push key (object_some ∷ st) ((out ++ codes ",") ++ (quoted_text n ++ codes ":"))
          (λ e. cc) h
        ∙ rw append_assoc
    view-key n (s ∷ st) out = refl

  view-close_object :
      (st : Stack) (out : List ℕ)
      → view (json_finish_object (writer st cap out ok)) ≡ after out ok (close_object st)
  unfolding json_finish_object
  view-close_object [] out = refl
  view-close_object (key ∷ st) out = refl
  view-close_object (s ∷ st) out = refl

  view-close_list :
      (st : Stack) (out : List ℕ)
      → view (json_finish_list (writer st cap out ok)) ≡ after out ok (close_list st)
  unfolding json_finish_list
  view-close_list [] out = refl
  view-close_list (key ∷ st) out = refl
  view-close_list (s ∷ st) out = refl

  view-close_current :
      (st : Stack) (out : List ℕ)
      → view (json_finish_current (writer st cap out ok)) ≡ after out ok (close_current st)
  unfolding json_finish_current
  view-close_current [] out = refl
  view-close_current (key ∷ st) out = refl
  view-close_current (s ∷ st) out = refl

  view-perform :
      ((n : ℕ) → ok n ≡ true)
      → (c : Call) (st : Stack) (out : List ℕ)
      → view (perform c (writer st cap out ok)) ≡ after out ok (step c st)
  unfolding perform json_start_object json_start_list json_null json_str json_bool json_int
      json_size_t json_double
  view-perform h (call_key n) st out = view-key h n st out
  view-perform h start_object st out = view-opening h _ object_empty st out (λ e. cc)
  view-perform h finish_object st out = view-close_object st out
  view-perform h start_list st out = view-opening h _ list_empty st out (λ e. cc)
  view-perform h finish_list st out = view-close_list st out
  view-perform h finish_current st out = view-close_current st out
  view-perform h null st out = view-scalar _ st out
  view-perform h (str none) st out = view-scalar _ st out
  view-perform h (str (some s)) st out = view-scalar _ st out
  view-perform h (bool b) st out = view-scalar _ st out
  view-perform h (int z) st out = view-scalar _ st out
  view-perform h (size_t n) st out = view-scalar _ st out
  view-perform h (double d) st out = view-scalar _ st out

-- With memory to be had, each writing function does what the machine says of its call: it fails an
-- assertion exactly where the machine refuses, and otherwise appends the machine's text and leaves
-- the machine's stack.
pub perform-refines :
    (c : Call) (w : Writer)
    → Allocates w
    → view (perform c w) ≡ after w.out w.realloc_ok (step c w.states)
perform-refines c w h = view-perform w.state_cap w.realloc_ok h c w.states w.out

after-prefixed :
    (out t : List ℕ) (ok : ℕ → Bool) (m : Option (List ℕ × Stack))
    → after (out ++ t) ok m ≡ after out ok (prefixed t m)
after-prefixed out t ok none = refl
after-prefixed out t ok (some (u, st)) = rw append_assoc

next :
    (k : M) (n : Stack → Option (List ℕ × Stack)) (out : List ℕ) (ok : ℕ → Bool)
    → ((w : Writer) → w.realloc_ok ≡ ok → view (k w) ≡ after w.out ok (n w.states))
    → (r : Option Writer) (m : Option (List ℕ × Stack)) → view r ≡ after out ok m
    → view (elim r [ none ↦ none | some w ↦ k w ])
      ≡ after out ok (elim m [ none ↦ none | some (t, st) ↦ prefixed t (n st) ])
next k n out ok rec none none e = refl
next k n out ok rec none (some (t, st)) e = cc
next k n out ok rec (some w) none e = cc
next k n out ok rec (some w) (some (t, st)) e =
    let eo : w.out ≡ out ++ t = cc e in
    let es : w.states ≡ st = cc e in
    rec w (cc e)
    ∙ ap (λ o. after o ok (n w.states)) eo
    ∙ after-prefixed out t ok (n w.states)
    ∙ ap (λ s. after out ok (prefixed t (n s))) es

perform_all-after :
    (cs : List Call) (w : Writer) (ok : ℕ → Bool)
    → ((n : ℕ) → ok n ≡ true)
    → w.realloc_ok ≡ ok
    → view (perform_all cs w) ≡ after w.out ok (steps cs w.states)
unfolding perform_all
perform_all-after [] w ok h e = rw (append-nil, e)
perform_all-after (c ∷ cs) w ok h e =
    next (perform_all cs) (steps cs) w.out ok (λ w' e'. perform_all-after cs w' ok h e')
      (perform c w) (step c w.states)
      (perform-refines c w (λ n. ap (λ f. f n) e ∙ h n)
        ∙ ap (λ o. after w.out o (step c w.states)) e)

-- The same for any sequence of calls: with memory to be had, it fails an assertion exactly where the
-- machine refuses, and otherwise appends the machine's text and leaves the machine's stack.
pub perform_all-refines :
    (cs : List Call) (w : Writer)
    → Allocates w
    → view (perform_all cs w) ≡ after w.out w.realloc_ok (steps cs w.states)
perform_all-refines cs w h = perform_all-after cs w w.realloc_ok h refl

-- Closing the innermost part needs no memory.
pub finish_current-refines :
    (w : Writer) → view (json_finish_current w) ≡ after w.out w.realloc_ok (close_current w.states)
finish_current-refines w = view-close_current w.state_cap w.realloc_ok w.states w.out

-- What is seen of a writer determines all of it but the capacity of the stack.
pub record Seen (r : Option Writer) (out : List ℕ) (st : Stack) (ok : ℕ → Bool) : Type 0 where
  pub result : Writer
  pub returns : r ≡ some result
  pub out_is : result.out ≡ out
  pub states_is : result.states ≡ st
  pub realloc_is : result.realloc_ok ≡ ok

pub seen :
    (r : Option Writer) {out : List ℕ} {st : Stack} {ok : ℕ → Bool}
    → view r ≡ some (out, st, ok)
    → Seen r out st ok
seen none e = cc
seen (some w) e = record {
  result = w;
  returns = refl;
  out_is = cc e;
  states_is = cc e;
  realloc_is = cc e;
}
