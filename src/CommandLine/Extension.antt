-- ===== src/CommandLine/Extension.antt =====
-- The kind of an output file: `getExtension` and `classifyOutputFile` of src/common.cu.
pub mod Spec
use nccl_tests.Prelude.{
  ℕ, zero, suc, ◌+◌, Bool, true, false, ◌&&◌, not, Option, none, some, List, [], ◌∷◌, ltb, leb,
  ◌==◌, if◌then◌else◌, codes,
}

-- An `int` position, where `none` is -1.
abbrev pub above : Option ℕ → Option ℕ → Bool
above none slash = false
above (some d) none = true
above (some d) (some s) = ltb s d

-- The loop of `getExtension` from `pos` on: `last_dot`, `last_slash` and the position of the NUL.
unfoldable pub scan : (pos : ℕ) (last_dot last_slash : Option ℕ) → List ℕ → Option ℕ × Option ℕ × ℕ
scan pos last_dot last_slash [] = (last_dot, last_slash, pos)
scan pos last_dot last_slash (x ∷ path) =
    let dot = scan (suc pos) (some pos) last_slash path in
    let slash = scan (suc pos) last_dot (some pos) path in
    let other = scan (suc pos) last_dot last_slash path in
    if x == 0x2e then dot else if x == 0x2f then slash else other

-- `path + n`.
abbrev pub advance : ℕ → List ℕ → List ℕ
advance zero path = path
advance (suc n) [] = []
advance (suc n) (x ∷ path) = advance n path

abbrev pub extension_at : (path : List ℕ) → Option ℕ × Option ℕ × ℕ → Option (List ℕ)
extension_at path (none, last_slash, pos) = none
extension_at path (some d, last_slash, pos) =
    if above (some d) last_slash && not (suc d == pos) then some (advance (suc d) path) else none

-- `getExtension`; a null path is `none`.
unfoldable pub get_extension : Option (List ℕ) → Option (List ℕ)
unfolding scan
get_extension none = none
get_extension (some path) = extension_at path (scan 0 none none path)

pub data OutputFileType : Type 0 where
  json_file_output unspecified_file_output : OutputFileType

-- `tolower` in the C locale.
abbrev pub to_lower : ℕ → ℕ
to_lower x = if leb 0x41 x && leb x 0x5a then x + 32 else x

-- `strcasecmp(a, b) == 0`, which is what `ncclTestStrcasecmp` of os/linux.cc calls.
unfoldable pub same_text : List ℕ → List ℕ → Bool
same_text [] [] = true
same_text [] (y ∷ b) = false
same_text (x ∷ a) [] = false
same_text (x ∷ a) (y ∷ b) = to_lower x == to_lower y && same_text a b

-- `classifyOutputFile`.
unfoldable pub classify_output_file : Option (List ℕ) → OutputFileType
unfolding get_extension same_text
classify_output_file filename = elim (get_extension filename) [
  | none ↦ unspecified_file_output
  | some extension ↦
      if same_text extension (codes "json") then json_file_output else unspecified_file_output
]
