-- ===== src/Json/Document/Valid.antt =====
-- The text of the machine is always a beginning of JSON.
use nccl_tests.Prelude.{
  ℕ, suc, List, [], ◌∷◌, ◌++◌, Option, none, some, append_assoc, append-nil, refl, arith, subst,
}
use nccl_tests.Json.Sanitize.Quoting.{sanitize_json-text, nil, plain}
use nccl_tests.Json.Print.{Double, nan, infinite, finite}
use nccl_tests.Json.Print.Grammar.{
  decimal-SignedNumber, decimal_int-SignedNumber, decimal_double-SignedNumber,
}
use nccl_tests.Json.State.{object_empty, list_empty, JsonState}
use nccl_tests.Json.Writer.{
  quoted_text, double_text, Call, call_key, start_object, finish_object, start_list, finish_list,
  null, finish_current, str, bool, int, size_t, double,
}
use nccl_tests.Json.Machine.{
  Stack, slot, scalar, opening, open_key, close_object, close_list, close_current, step, steps,
  prefixed, string_text,
}
use nccl_tests.Json.Document.{
  Value, string, number, null_value, empty_object, object, empty_array, array, member, more_members,
  element, more_elements, and_then, Slot, at_top, first_element, next_element, first_member,
  next_member, IsPartial, finished, after_key, object_begun, in_object, list_begun, in_list,
}

-- What a machine's step gives, where it gives something, satisfies `P`.
abbrev pub Holds : (List ℕ → Stack → Type 0) → Option (List ℕ × Stack) → Type 0
Holds P none = Unit
Holds P (some (t, st)) = P t st

-- The number of the document that a value at this stack belongs to, if `n` are begun.
abbrev pub bump : Stack → ℕ → ℕ
bump [] n = suc n
bump (s ∷ st) n = n

fill : {n : ℕ} {st : Stack} {t v : List ℕ} → Slot n st t → Value v → IsPartial n st (t ++ v)
fill (at_top d) v = finished (and_then d v refl)
fill (first_element sl e) v = in_list sl (element v) (rw e (simp append_assoc))
fill (next_element sl es e) v = in_list sl (more_elements es v refl) (rw e (simp append_assoc))
fill (first_member sl q e) v = in_object sl (member q v refl) (rw e (simp append_assoc))
fill (next_member sl ms q e) v = in_object sl (more_members ms q v refl) (rw e (simp append_assoc))

slot-Slot :
    {n : ℕ} {st : Stack} {t : List ℕ}
    → IsPartial n st t
    → Holds (λ sep st'. Slot (bump st n) st' (t ++ sep)) (slot st)
slot-Slot (finished d) = rw append-nil (at_top d)
slot-Slot (after_key sl) = rw append-nil sl
slot-Slot (object_begun sl e) = tt
slot-Slot (in_object sl ms e) = tt
slot-Slot (list_begun sl e) = first_element sl (rw append-nil e)
slot-Slot (in_list sl es e) = next_element sl es (rw e (simp append_assoc))

close_object-IsPartial :
    {n : ℕ} {st : Stack} {t : List ℕ}
    → IsPartial n st t
    → Holds (λ u st'. IsPartial n st' (t ++ u)) (close_object st)
close_object-IsPartial (finished d) = tt
close_object-IsPartial (after_key sl) = tt
close_object-IsPartial (object_begun {n = n} {st = st} sl e) =
    rw (e, append_assoc) (fill sl empty_object)
close_object-IsPartial (in_object {n = n} {st = st} sl ms e) =
    subst (IsPartial n st) (rw e (simp append_assoc)) (fill sl (object ms refl))
close_object-IsPartial (list_begun sl e) = tt
close_object-IsPartial (in_list sl es e) = tt

close_list-IsPartial :
    {n : ℕ} {st : Stack} {t : List ℕ}
    → IsPartial n st t
    → Holds (λ u st'. IsPartial n st' (t ++ u)) (close_list st)
close_list-IsPartial (finished d) = tt
close_list-IsPartial (after_key sl) = tt
close_list-IsPartial (object_begun sl e) = tt
close_list-IsPartial (in_object sl ms e) = tt
close_list-IsPartial (list_begun {n = n} {st = st} sl e) =
    rw (e, append_assoc) (fill sl empty_array)
close_list-IsPartial (in_list {n = n} {st = st} sl es e) =
    subst (IsPartial n st) (rw e (simp append_assoc)) (fill sl (array es refl))

close_current-IsPartial :
    {n : ℕ} {st : Stack} {t : List ℕ}
    → IsPartial n st t
    → Holds (λ u st'. IsPartial n st' (t ++ u)) (close_current st)
close_current-IsPartial (finished d) = tt
close_current-IsPartial (after_key sl) = fill sl null_value
close_current-IsPartial (object_begun sl e) = close_object-IsPartial (object_begun sl e)
close_current-IsPartial (in_object sl ms e) = close_object-IsPartial (in_object sl ms e)
close_current-IsPartial (list_begun sl e) = close_list-IsPartial (list_begun sl e)
close_current-IsPartial (in_list sl es e) = close_list-IsPartial (in_list sl es e)

open_key-IsPartial :
    (name : List ℕ) {n : ℕ} {st : Stack} {t : List ℕ}
    → IsPartial n st t
    → Holds (λ u st'. IsPartial n st' (t ++ u)) (open_key name st)
unfolding quoted_text
open_key-IsPartial name (finished d) = tt
open_key-IsPartial name (after_key sl) = tt
open_key-IsPartial name (object_begun sl e) =
    after_key (first_member sl (sanitize_json-text 2048 name).1 (rw e (simp append_assoc)))
open_key-IsPartial name (in_object sl ms e) =
    after_key (next_member sl ms (sanitize_json-text 2048 name).1 (rw e (simp append_assoc)))
open_key-IsPartial name (list_begun sl e) = tt
open_key-IsPartial name (in_list sl es e) = tt

-- What may be written once a slot is reached.
at_slot :
    (P : List ℕ → Stack → Type 0) (f : List ℕ × Stack → List ℕ × Stack)
    (m : Option (List ℕ × Stack))
    → Holds (λ sep st. P (f (sep, st)).0 (f (sep, st)).1) m
    → Holds P (elim m [ none ↦ none | some (sep, st) ↦ some (f (sep, st)) ])
at_slot P f none h = tt
at_slot P f (some (sep, st)) h = h

weaken :
    (P Q : List ℕ → Stack → Type 0) (m : Option (List ℕ × Stack))
    → ((u : List ℕ) (st : Stack) → P u st → Q u st)
    → Holds P m
    → Holds Q m
weaken P Q none f h = tt
weaken P Q (some (u, st)) f h = f u st h

module _ {n : ℕ} {st : Stack} {t : List ℕ} (p : IsPartial n st t) where
  scalar-IsPartial :
      (v : List ℕ) → Value v → Holds (λ u st'. IsPartial (bump st n) st' (t ++ u)) (scalar v st)
  scalar-IsPartial v val =
      at_slot _ (λ r. (r.0 ++ v, r.1)) (slot st)
        (weaken _ _ (slot st)
          (λ sep st' sl. subst (IsPartial (bump st n) st') (append_assoc t sep v) (fill sl val))
          (slot-Slot p))

  opening-IsPartial :
      (v : List ℕ) (s : JsonState)
      → ((m : ℕ) (st' : Stack) (pre : List ℕ) → Slot m st' pre → IsPartial m (s ∷ st') (pre ++ v))
      → Holds (λ u st'. IsPartial (bump st n) st' (t ++ u)) (opening v s st)
  opening-IsPartial v s start =
      at_slot _ (λ r. (r.0 ++ v, s ∷ r.1)) (slot st)
        (weaken _ _ (slot st)
          (λ sep st' sl.
            subst (IsPartial (bump st n) (s ∷ st')) (append_assoc t sep v) (start _ st' _ sl))
          (slot-Slot p))

-- A number that is no infinity.
abbrev pub IsPrintable : Double → Type 0
IsPrintable (infinite negative) = ⊥
IsPrintable d = Unit

abbrev pub WritesJson : Call → Type 0
WritesJson (double d) = IsPrintable d
WritesJson c = Unit

quoted_text-Value : (s : List ℕ) → Value (quoted_text s)
unfolding quoted_text
quoted_text-Value s = string (sanitize_json-text 2048 s).1

-- What `jsonDouble` prints for a NaN or any finite double is one JSON value.
pub double_text-Value : (d : Double) → IsPrintable d → Value (double_text d)
unfolding double_text
double_text-Value nan h = string (
    plain (omega arith) (omega arith) (omega arith) (
      plain (omega arith) (omega arith) (omega arith)
        (plain (omega arith) (omega arith) (omega arith) nil)))
double_text-Value (infinite b) h = absurd h
double_text-Value (finite b m) h = number (decimal_double-SignedNumber b m)

-- The documents begun once a call is made at this stack.
abbrev pub begun : Call → Stack → ℕ → ℕ
begun (call_key name) st n = n
begun finish_object st n = n
begun finish_list st n = n
begun finish_current st n = n
begun c st n = bump st n

string_text-Value : (s : Option (List ℕ)) → Value (string_text s)
string_text-Value none = null_value
string_text-Value (some s) = quoted_text-Value s

-- Every step of the machine goes from a beginning of JSON to a beginning of JSON.
pub step-IsPartial :
    (c : Call) {n : ℕ} {st : Stack} {t : List ℕ}
    → WritesJson c
    → IsPartial n st t
    → Holds (λ u st'. IsPartial (begun c st n) st' (t ++ u)) (step c st)
step-IsPartial (call_key name) h p = open_key-IsPartial name p
step-IsPartial start_object h p =
    opening-IsPartial p _ object_empty (λ m st' pre sl. object_begun sl refl)
step-IsPartial finish_object h p = close_object-IsPartial p
step-IsPartial start_list h p =
    opening-IsPartial p _ list_empty (λ m st' pre sl. list_begun sl refl)
step-IsPartial finish_list h p = close_list-IsPartial p
step-IsPartial null h p = scalar-IsPartial p _ null_value
step-IsPartial finish_current h p = close_current-IsPartial p
step-IsPartial (str s) h p = scalar-IsPartial p _ (string_text-Value s)
step-IsPartial (bool b) h p = scalar-IsPartial p _ (quoted_text-Value _)
step-IsPartial (int z) h p = scalar-IsPartial p _ (number (decimal_int-SignedNumber z))
step-IsPartial (size_t n) h p = scalar-IsPartial p _ (number (decimal-SignedNumber n))
step-IsPartial (double d) h p = scalar-IsPartial p _ (double_text-Value d h)

abbrev pub AllWriteJson : List Call → Type 0
AllWriteJson [] = Unit
AllWriteJson (c ∷ cs) = WritesJson c × AllWriteJson cs

-- The documents begun by a sequence of calls.
abbrev pub begun_by : List Call → Stack → ℕ → ℕ
begun_by [] st n = n
begun_by (c ∷ cs) st n = elim (step c st) [
  | none ↦ begun c st n
  | some (u, st') ↦ begun_by cs st' (begun c st n)
]

prefixed-IsPartial :
    (n : ℕ) (t v : List ℕ) (r : Option (List ℕ × Stack))
    → Holds (λ u st. IsPartial n st ((t ++ v) ++ u)) r
    → Holds (λ u st. IsPartial n st (t ++ u)) (prefixed v r)
prefixed-IsPartial n t v none q = tt
prefixed-IsPartial n t v (some (u, st)) q = rw append_assoc at q

-- A step, and then the calls `cs`.
before_steps :
    (cs : List Call) (k : ℕ) (t : List ℕ)
    → ((v : List ℕ) (st : Stack)
        → IsPartial k st (t ++ v)
        → Holds (λ u st'. IsPartial (begun_by cs st k) st' ((t ++ v) ++ u)) (steps cs st))
    → (m : Option (List ℕ × Stack)) → Holds (λ u st'. IsPartial k st' (t ++ u)) m
    → Holds
        (λ u st'. IsPartial (elim m [ none ↦ k | some (v, st) ↦ begun_by cs st k ]) st' (t ++ u))
        (elim m [ none ↦ none | some (v, st) ↦ prefixed v (steps cs st) ])
before_steps cs k t rec none q = tt
before_steps cs k t rec (some (v, st)) q = prefixed-IsPartial _ t v (steps cs st) (rec v st q)

-- Steps that the machine accepts go from a beginning of JSON to a beginning of JSON.
pub steps-IsPartial :
    (cs : List Call) {n : ℕ} {st : Stack} {t : List ℕ}
    → AllWriteJson cs
    → IsPartial n st t
    → Holds (λ u st'. IsPartial (begun_by cs st n) st' (t ++ u)) (steps cs st)
steps-IsPartial [] h p = rw append-nil p
steps-IsPartial (c ∷ cs) {n} {st} {t} h p =
    before_steps cs (begun c st n) t (λ v st2 q. steps-IsPartial cs h.1 q) (step c st)
      (step-IsPartial c h.0 p)
