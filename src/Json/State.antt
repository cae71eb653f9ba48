-- ===== src/Json/State.antt =====
-- The writer's statics of src/util.cu: the stack of states and the bytes written to the file.
use nccl_tests.Prelude.{
  ℕ, ◌+◌, ◌*◌, ◌%◌, ◌^◌, max, Bool, Option, none, some, List, [], ◌∷◌, ◌++◌, length, leb,
  if◌then◌else◌,
}

-- `json_state_t`.
pub data JsonState : Type 0 where
  json_none key object_empty object_some list_empty list_some : JsonState

-- `states` with its top first, so that `state_n` is its length; `state_cap`; what `fprintf` has
-- written to `json_report_fp`. `realloc_ok n` is whether `realloc` grants `n` bytes.
pub record Writer : Type 0 where
  pub states : List JsonState
  pub state_cap : ℕ
  pub out : List ℕ
  pub realloc_ok : ℕ → Bool

-- A failed assertion aborts the program: `none`.
abbrev pub M : Type 0
M = Writer → Option Writer

infixl 5 ◌>>◌
abbrev pub ◌>>◌ : M → M → M
◌>>◌ m k w = elim (m w) [ none ↦ none | some w' ↦ k w' ]

abbrev pub pure : M
pure w = some w

abbrev pub fail : M
fail w = none

-- `fprintf(json_report_fp, ...)`.
abbrev pub emit : List ℕ → M
emit bytes w = some (record w { out = w.out ++ bytes })

-- `jsonPushState`. The stack is full when `state_cap <= state_n+1`; `sizeof(json_state_t)` is 4.
unfoldable pub json_push_state : JsonState → M
json_push_state json_none w = none
json_push_state state w =
    let grown = record w {
      states = state ∷ w.states;
      state_cap = max 16 (w.state_cap * 2 % 2 ^ 64);
    } in
    if leb w.state_cap (length w.states + 1)
    then (if w.realloc_ok (4 * grown.state_cap % 2 ^ 64) then some grown else none)
    else some (record w { states = state ∷ w.states })

abbrev pub top : List JsonState → JsonState
top [] = json_none
top (s ∷ st) = s

abbrev pub pop : List JsonState → List JsonState
pop [] = []
pop (s ∷ st) = st

-- `jsonCurrState`.
abbrev pub json_curr_state : Writer → JsonState
json_curr_state w = top w.states

-- `jsonReplaceState`.
abbrev pub replace_top : JsonState → List JsonState → Option (List JsonState)
replace_top json_none st = none
replace_top state [] = none
replace_top state (s ∷ st) = some (state ∷ st)

unfoldable pub json_replace_state : JsonState → M
json_replace_state state w = elim (replace_top state w.states) [
  | none ↦ none
  | some st ↦ some (record w { states = st })
]

-- `jsonPopState`: the state that it returns, and the writer after it.
unfoldable pub json_pop_state : Writer → JsonState × Writer
json_pop_state w = (top w.states, record w { states = pop w.states })
