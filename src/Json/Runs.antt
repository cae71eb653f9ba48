-- ===== src/Json/Runs.antt =====
-- Sequences of calls of the writer of src/util.cu that go through, and how they are put together.
use nccl_tests.Prelude.{
  ℕ, List, [], ◌∷◌, ◌++◌, ◌≡◌, refl, ◌∙◌, ap, sym, Option, none, some, arith, subst,
}
use nccl_tests.Json.State.{JsonState, key, object_some, list_empty, list_some}
use nccl_tests.Json.Writer.{Call, call_key, start_list, finish_list}
use nccl_tests.Json.Machine.{Stack, step, steps, prefixed}
use nccl_tests.Json.Document.Valid.{begun, begun_by}

abbrev pub NotEmpty : Stack → Type 0
NotEmpty [] = ⊥
NotEmpty (s ∷ st) = Unit

-- `Runs cs a b`: made in order at the stack `a`, the calls `cs` are all accepted and lead to `b`, and
-- each of them is made inside a document that is open.
abbrev pub Runs : List Call → Stack → Stack → Type 0
Runs [] a b = a ≡ b
Runs (c ∷ cs) a b = NotEmpty a × elim (step c a) [ none ↦ ⊥ | some (t, a') ↦ Runs cs a' b ]

abbrev From : List Call → Stack → Option (List ℕ × Stack) → Type 0
From cs b m = elim m [ none ↦ ⊥ | some (t, a) ↦ Runs cs a b ]

From-append :
    (cs ds : List Call) (b c : Stack)
    → ((a : Stack) → Runs cs a b → Runs (cs ++ ds) a c)
    → (m : Option (List ℕ × Stack)) → From cs b m
    → From (cs ++ ds) c m
From-append cs ds b c rec none r = r
From-append cs ds b c rec (some (t, a)) r = rec a r

-- One run after another.
pub Runs-append :
    (cs ds : List Call) (a b c : Stack) → Runs cs a b → Runs ds b c → Runs (cs ++ ds) a c
Runs-append [] ds a b c r q = subst (λ x. Runs ds x c) (sym r) q
Runs-append (k ∷ cs) ds a b c r q =
    (r.0, From-append cs ds b c (λ x p. Runs-append cs ds x b c p q) (step k a) r.1)

begun-NotEmpty : (c : Call) (st : Stack) (n : ℕ) → NotEmpty st → begun c st n ≡ n
begun-NotEmpty c [] n h = absurd h
begun-NotEmpty (call_key k) (s ∷ st) n h = refl
begun-NotEmpty c (s ∷ st) n h = refl

abbrev Accepts : List Call → Stack → Stack → ℕ → Type 0
Accepts cs a b n = (t : List ℕ) × (steps cs a ≡ some (t, b)) × (begun_by cs a n ≡ n)

Accepts-step :
    (cs : List Call) (b : Stack) (n k : ℕ)
    → k ≡ n
    → ((a : Stack) → Runs cs a b → Accepts cs a b n)
    → (m : Option (List ℕ × Stack)) → From cs b m
    → (t : List ℕ) × (elim m [ none ↦ none | some (v, a) ↦ prefixed v (steps cs a) ] ≡ some (t, b))
      × (elim m [ none ↦ k | some (v, a) ↦ begun_by cs a k ] ≡ n)
Accepts-step cs b n k e rec none r = absurd r
Accepts-step cs b n k e rec (some (v, a)) r =
    let (t, p, q) = rec a r in (v ++ t, ap (prefixed v) p, ap (λ x. begun_by cs a x) e ∙ q)

-- A run is accepted by the machine, and begins no document of its own.
pub Runs-Accepts :
    (cs : List Call) (a b : Stack) (n : ℕ)
    → Runs cs a b
    → (t : List ℕ) × (steps cs a ≡ some (t, b)) × (begun_by cs a n ≡ n)
Runs-Accepts [] a b n r = ([], ap (λ x. some ([], x)) r, refl)
Runs-Accepts (c ∷ cs) a b n r =
    Accepts-step cs b n (begun c a n) (begun-NotEmpty c a n r.0) (λ x p. Runs-Accepts cs x b n p)
      (step c a) r.1

-- The calls write one value, wherever a value may stand inside a document.
pub record WritesValue (cs : List Call) : Type 0 where
  pub in_list : (st : Stack) → Runs cs (list_some ∷ st) (list_some ∷ st)
  pub begins_list : (st : Stack) → Runs cs (list_empty ∷ st) (list_some ∷ st)
  pub at_key : (s : JsonState) (st : Stack) → Runs cs (key ∷ s ∷ st) (s ∷ st)

-- The calls write any number of values of a list.
pub data WritesValues : List Call → Type 0 where
  no_more : WritesValues []
  value : {cs ds : List Call} → WritesValue cs → WritesValues ds → WritesValues (cs ++ ds)

values_in_list :
    {cs : List Call} → WritesValues cs → (st : Stack) → Runs cs (list_some ∷ st) (list_some ∷ st)
values_in_list no_more st = refl
values_in_list (value {cs = cs} {ds = ds} v vs) st =
    Runs-append cs ds _ _ _ (v.in_list st) (values_in_list vs st)

-- A list of any number of values is a value.
pub list-WritesValue :
    {cs : List Call} → WritesValues cs → WritesValue (start_list ∷ cs ++ finish_list ∷ [])
list-WritesValue no_more = record {
  in_list = λ st. ground arith;
  begins_list = λ st. ground arith;
  at_key = λ s st. ground arith;
}
list-WritesValue (value {cs = cs} {ds = ds} v vs) = record {
  in_list = λ st. (tt, body _);
  begins_list = λ st. (tt, body _);
  at_key = λ s st. (tt, body _);
}
  where
    body : (st : Stack) → Runs ((cs ++ ds) ++ finish_list ∷ []) (list_empty ∷ st) st
    body st =
        Runs-append (cs ++ ds) (finish_list ∷ []) (list_empty ∷ st) (list_some ∷ st) st
          (Runs-append cs ds _ _ _ (v.begins_list st) (values_in_list vs st)) (tt, refl)

-- A run as a record, so that its calls and its stacks can be read off its type.
pub record Passes (cs : List Call) (a b : Stack) : Type 0 where
  pub run : Runs cs a b

-- `p` and then `q`.
infixr 30 ◌then◌
pub ◌then◌ :
    {cs ds : List Call} {a b c : Stack} → Passes cs a b → Passes ds b c → Passes (cs ++ ds) a c
◌then◌ {cs} {ds} {a} {b} {c} p q = record { run = Runs-append cs ds a b c p.run q.run }

-- A key whose value is written by several calls, in an object.
pub keyed :
    {name : List ℕ} {cs : List Call} {st : Stack}
    → WritesValue cs
    → Passes (call_key name ∷ cs) (object_some ∷ st) (object_some ∷ st)
keyed {st = st} v = record { run = (tt, v.at_key object_some st) }

From-prefix :
    (cs ds : List Call) (b : Stack)
    → ((a : Stack) → Runs (cs ++ ds) a b → (m : Stack) × Runs cs a m)
    → (m : Option (List ℕ × Stack)) → From (cs ++ ds) b m
    → (x : Stack) × From cs x m
From-prefix cs ds b rec none r = absurd r
From-prefix cs ds b rec (some (t, a)) r = rec a r

-- A run may be cut off after any of its calls.
pub Runs-prefix :
    (cs ds : List Call) (a b : Stack) → Runs (cs ++ ds) a b → (m : Stack) × Runs cs a m
Runs-prefix [] ds a b r = (a, refl)
Runs-prefix (c ∷ cs) ds a b r =
    let (m, q) = From-prefix cs ds b (λ x p. Runs-prefix cs ds x b p) (step c a) r.1 in
    (m, (r.0, q))
