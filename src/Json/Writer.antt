-- ===== src/Json/Writer.antt =====
-- The writing functions of src/util.cu, one for each, over the writer's statics.
use nccl_tests.Prelude.{
  ℕ, ℤ, Bool, Option, none, some, List, [], ◌∷◌, ◌++◌, codes, if◌then◌else◌, length, zero, suc,
}
use nccl_tests.Json.Sanitize.{sanitize_json}
use nccl_tests.Json.Print.{Double, nan, decimal, decimal_int, decimal_double}
use nccl_tests.Json.State.{
  JsonState, json_none, key, object_empty, object_some, list_empty, list_some, M, ◌>>◌, pure, fail,
  emit, json_push_state, json_curr_state, json_replace_state, json_pop_state,
}

-- `char tmp[2048]; sanitizeJson(tmp, sizeof(tmp), s)`: the text that `"\"%s\""` then prints.
unfoldable pub quoted_text : List ℕ → List ℕ
quoted_text s = 0x22 ∷ (sanitize_json 2048 s).0 ++ 0x22 ∷ []

-- The `switch` of `jsonKey`.
abbrev pub key_in : JsonState → M
key_in object_empty = json_replace_state object_some
key_in object_some = emit (codes ",")
key_in _ = fail

-- `jsonKey`.
unfoldable pub json_key : List ℕ → M
unfolding json_push_state json_replace_state quoted_text
json_key name w =
    (key_in (json_curr_state w) >> emit (quoted_text name ++ codes ":") >> json_push_state key) w

-- The `switch` of `jsonValHelper`.
abbrev pub val_in : JsonState → M
val_in list_empty = json_replace_state list_some
val_in list_some = emit (codes ",")
val_in key = λ w. some (json_pop_state w).1
val_in json_none = pure
val_in _ = fail

-- `jsonValHelper`.
unfoldable pub json_val_helper : M
unfolding json_replace_state json_pop_state
json_val_helper w = val_in (json_curr_state w) w

-- `jsonStartObject`.
unfoldable pub json_start_object : M
unfolding json_val_helper json_push_state
json_start_object = json_val_helper >> emit (codes "{") >> json_push_state object_empty

-- The state that a closing function pops, checked by its `switch`.
abbrev pub expect_object : JsonState → M
expect_object object_empty = pure
expect_object object_some = pure
expect_object _ = fail

abbrev pub expect_list : JsonState → M
expect_list list_empty = pure
expect_list list_some = pure
expect_list _ = fail

-- `jsonFinishObject`.
unfoldable pub json_finish_object : M
unfolding json_pop_state
json_finish_object w = let (s, w') = json_pop_state w in (expect_object s >> emit (codes "}")) w'

-- `jsonStartList`.
unfoldable pub json_start_list : M
unfolding json_val_helper json_push_state
json_start_list = json_val_helper >> emit (codes "[") >> json_push_state list_empty

-- `jsonFinishList`.
unfoldable pub json_finish_list : M
unfolding json_pop_state
json_finish_list w = let (s, w') = json_pop_state w in (expect_list s >> emit (codes "]")) w'

-- `jsonNull`.
unfoldable pub json_null : M
unfolding json_val_helper
json_null = json_val_helper >> emit (codes "null")

-- `jsonFinishCurrent`.
abbrev pub finish_in : JsonState → M
finish_in key = json_null
finish_in object_empty = json_finish_object
finish_in object_some = json_finish_object
finish_in list_empty = json_finish_list
finish_in list_some = json_finish_list
finish_in json_none = fail

unfoldable pub json_finish_current : M
unfolding json_null json_finish_object json_finish_list
json_finish_current w = finish_in (json_curr_state w) w

-- `jsonStr`; a null pointer is `none`.
unfoldable pub json_str : Option (List ℕ) → M
unfolding json_null json_val_helper quoted_text
json_str none = json_null
json_str (some s) = json_val_helper >> emit (quoted_text s)

-- `jsonBool`.
unfoldable pub json_bool : Bool → M
unfolding json_str
json_bool val = json_str (some (if val then codes "true" else codes "false"))

-- `jsonInt`.
unfoldable pub json_int : ℤ → M
unfolding json_val_helper decimal_int
json_int val = json_val_helper >> emit (decimal_int val)

-- `jsonSize_t`.
unfoldable pub json_size_t : ℕ → M
unfolding json_val_helper decimal
json_size_t val = json_val_helper >> emit (decimal val)

-- `jsonDouble`; only a NaN differs from itself.
unfoldable pub double_text : Double → List ℕ
unfolding decimal_double
double_text nan = codes "\"nan\""
double_text val = decimal_double val

unfoldable pub json_double : Double → M
unfolding json_val_helper double_text
json_double val = json_val_helper >> emit (double_text val)

-- The calls of the writer that the rest of the program makes.
pub data Call : Type 0 where
  call_key : List ℕ → Call
  start_object finish_object start_list finish_list null finish_current : Call
  str : Option (List ℕ) → Call
  bool : Bool → Call
  int : ℤ → Call
  size_t : ℕ → Call
  double : Double → Call

unfoldable pub perform : Call → M
perform (call_key name) = json_key name
perform start_object = json_start_object
perform finish_object = json_finish_object
perform start_list = json_start_list
perform finish_list = json_finish_list
perform null = json_null
perform finish_current = json_finish_current
perform (str s) = json_str s
perform (bool b) = json_bool b
perform (int z) = json_int z
perform (size_t n) = json_size_t n
perform (double d) = json_double d

-- Calls made in order; a failed assertion stops the program.
unfoldable pub perform_all : List Call → M
perform_all [] = pure
perform_all (c ∷ cs) = perform c >> perform_all cs

-- `while(state_n > 0) jsonFinishCurrent();` of `jsonOutputFinalize`, on `fuel` rounds.
unfoldable pub finish_all_on : ℕ → M
finish_all_on zero w = elim (w.states) [ [] ↦ some w | s ∷ st ↦ none ]
finish_all_on (suc fuel) w = elim (w.states) [
  | [] ↦ some w
  | s ∷ st ↦ (json_finish_current >> finish_all_on fuel) w
]

-- Each round pops one state, so the depth of the stack is enough fuel.
unfoldable pub finish_all : M
unfolding finish_all_on
finish_all w = finish_all_on (length w.states) w
