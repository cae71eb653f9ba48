-- ===== src/Json/Machine.antt =====
-- What a caller of the writer of src/util.cu may rely on, with the stack's storage left out: which
-- calls are accepted in which stack of open parts, the text that each writes, and the stack after it.
pub mod Refines
use nccl_tests.Prelude.{
  ℕ, Bool, true, false, Option, none, some, List, [], ◌∷◌, ◌++◌, codes, if◌then◌else◌,
}
use nccl_tests.Json.Print.{decimal, decimal_int}
use nccl_tests.Json.State.{
  JsonState, json_none, key, object_empty, object_some, list_empty, list_some,
}
use nccl_tests.Json.Writer.{
  quoted_text, double_text, Call, call_key, start_object, finish_object, start_list, finish_list,
  null, finish_current, str, bool, int, size_t, double,
}

abbrev pub Stack : Type 0
Stack = List JsonState

-- Where a value may begin: the separator that goes before it, and the stack that it stands in.
abbrev pub slot : Stack → Option (List ℕ × Stack)
slot [] = some ([], [])
slot (key ∷ st) = some ([], st)
slot (list_empty ∷ st) = some ([], list_some ∷ st)
slot (list_some ∷ st) = some (codes ",", list_some ∷ st)
slot (object_empty ∷ st) = none
slot (object_some ∷ st) = none
slot (json_none ∷ st) = some ([], json_none ∷ st)

abbrev pub scalar : List ℕ → Stack → Option (List ℕ × Stack)
scalar text st = elim (slot st) [ none ↦ none | some (sep, st') ↦ some (sep ++ text, st') ]

abbrev pub opening : List ℕ → JsonState → Stack → Option (List ℕ × Stack)
opening text s st = elim (slot st) [ none ↦ none | some (sep, st') ↦ some (sep ++ text, s ∷ st') ]

abbrev pub open_key : List ℕ → Stack → Option (List ℕ × Stack)
open_key name (object_empty ∷ st) = some (quoted_text name ++ codes ":", key ∷ object_some ∷ st)
open_key name (object_some ∷ st) =
    some (codes "," ++ (quoted_text name ++ codes ":"), key ∷ object_some ∷ st)
open_key name _ = none

abbrev pub close_object : Stack → Option (List ℕ × Stack)
close_object (object_empty ∷ st) = some (codes "}", st)
close_object (object_some ∷ st) = some (codes "}", st)
close_object _ = none

abbrev pub close_list : Stack → Option (List ℕ × Stack)
close_list (list_empty ∷ st) = some (codes "]", st)
close_list (list_some ∷ st) = some (codes "]", st)
close_list _ = none

abbrev pub close_current : Stack → Option (List ℕ × Stack)
close_current (key ∷ st) = some (codes "null", st)
close_current (list_empty ∷ st) = some (codes "]", st)
close_current (list_some ∷ st) = some (codes "]", st)
close_current st = close_object st

abbrev pub string_text : Option (List ℕ) → List ℕ
string_text none = codes "null"
string_text (some s) = quoted_text s

abbrev pub step : Call → Stack → Option (List ℕ × Stack)
step (call_key name) st = open_key name st
step start_object st = opening (codes "{") object_empty st
step finish_object st = close_object st
step start_list st = opening (codes "[") list_empty st
step finish_list st = close_list st
step null st = scalar (codes "null") st
step finish_current st = close_current st
step (str s) st = scalar (string_text s) st
step (bool b) st = scalar (quoted_text (if b then codes "true" else codes "false")) st
step (int z) st = scalar (decimal_int z) st
step (size_t n) st = scalar (decimal n) st
step (double d) st = scalar (double_text d) st

-- More text in front.
abbrev pub prefixed : List ℕ → Option (List ℕ × Stack) → Option (List ℕ × Stack)
prefixed t none = none
prefixed t (some (u, st)) = some (t ++ u, st)

-- Calls in order, and the whole text that they write.
abbrev pub steps : List Call → Stack → Option (List ℕ × Stack)
steps [] st = some ([], st)
steps (c ∷ cs) st = elim (step c st) [ none ↦ none | some (t, st') ↦ prefixed t (steps cs st') ]
