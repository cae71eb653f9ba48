-- ===== src/Json/Document.antt =====
-- The JSON grammar (RFC 8259), and what the text written so far looks like at each stack of the writer
-- of src/util.cu.
pub mod Valid
use nccl_tests.Prelude.{ℕ, zero, suc, List, [], ◌∷◌, ◌++◌, ◌≡◌, codes, Option, none, some}
use nccl_tests.Json.Sanitize.Quoting.{Quotes}
use nccl_tests.Json.Print.Grammar.{SignedNumber}
use nccl_tests.Json.State.{key, object_empty, object_some, list_empty, list_some}
use nccl_tests.Json.Machine.{Stack}

-- Text between quotation marks.
abbrev pub in_quotes : List ℕ → List ℕ
in_quotes t = 0x22 ∷ t ++ 0x22 ∷ []

mutual
  pub data Value : List ℕ → Type 0 where
    string : {t s : List ℕ} → Quotes t s → Value (in_quotes t)
    number : {t : List ℕ} → SignedNumber t → Value t
    null_value : Value (codes "null")
    true_value : Value (codes "true")
    false_value : Value (codes "false")
    empty_object : Value (codes "{}")
    object : {t ms : List ℕ} → Members ms → t ≡ codes "{" ++ ms ++ codes "}" → Value t
    empty_array : Value (codes "[]")
    array : {t es : List ℕ} → Elements es → t ≡ codes "[" ++ es ++ codes "]" → Value t

  -- One or more members, with commas between them.
  pub data Members : List ℕ → Type 0 where
    member :
        {t s v m : List ℕ} → Quotes t s → Value v → m ≡ in_quotes t ++ codes ":" ++ v → Members m
    more_members :
        {ms t s v m : List ℕ}
        → Members ms
        → Quotes t s
        → Value v
        → m ≡ ms ++ codes "," ++ in_quotes t ++ codes ":" ++ v
        → Members m

  -- One or more values, with commas between them.
  pub data Elements : List ℕ → Type 0 where
    element : {v : List ℕ} → Value v → Elements v
    more_elements :
        {es v e : List ℕ} → Elements es → Value v → e ≡ es ++ codes "," ++ v → Elements e

-- `Values n t`: the text `t` is `n` complete values one after the other.
pub data Values : ℕ → List ℕ → Type 0 where
  none_yet : Values zero []
  and_then : {n : ℕ} {d v t : List ℕ} → Values n d → Value v → t ≡ d ++ v → Values (suc n) t

-- `Slot n st t`: the text `t` ends where a value belongs, inside the open parts `st` of the `n`th
-- document.
pub data Slot : ℕ → Stack → List ℕ → Type 0 where
  at_top : {n : ℕ} {t : List ℕ} → Values n t → Slot (suc n) [] t
  first_element :
      {n : ℕ} {st : Stack} {pre t : List ℕ}
      → Slot n st pre
      → t ≡ pre ++ codes "["
      → Slot n (list_some ∷ st) t
  next_element :
      {n : ℕ} {st : Stack} {pre es t : List ℕ}
      → Slot n st pre
      → Elements es
      → t ≡ pre ++ codes "[" ++ es ++ codes ","
      → Slot n (list_some ∷ st) t
  first_member :
      {n : ℕ} {st : Stack} {pre k s t : List ℕ}
      → Slot n st pre
      → Quotes k s
      → t ≡ pre ++ codes "{" ++ in_quotes k ++ codes ":"
      → Slot n (object_some ∷ st) t
  next_member :
      {n : ℕ} {st : Stack} {pre ms k s t : List ℕ}
      → Slot n st pre
      → Members ms
      → Quotes k s
      → t ≡ pre ++ codes "{" ++ ms ++ codes "," ++ in_quotes k ++ codes ":"
      → Slot n (object_some ∷ st) t

-- `IsPartial n st t`: the text `t` is `n` JSON documents, the last of them only as far as its parts
-- `st` that are still open.
pub data IsPartial : ℕ → Stack → List ℕ → Type 0 where
  finished : {n : ℕ} {t : List ℕ} → Values n t → IsPartial n [] t
  after_key :
      {n : ℕ} {st : Stack} {t : List ℕ}
      → Slot n (object_some ∷ st) t
      → IsPartial n (key ∷ object_some ∷ st) t
  object_begun :
      {n : ℕ} {st : Stack} {pre t : List ℕ}
      → Slot n st pre
      → t ≡ pre ++ codes "{"
      → IsPartial n (object_empty ∷ st) t
  in_object :
      {n : ℕ} {st : Stack} {pre ms t : List ℕ}
      → Slot n st pre
      → Members ms
      → t ≡ pre ++ codes "{" ++ ms
      → IsPartial n (object_some ∷ st) t
  list_begun :
      {n : ℕ} {st : Stack} {pre t : List ℕ}
      → Slot n st pre
      → t ≡ pre ++ codes "["
      → IsPartial n (list_empty ∷ st) t
  in_list :
      {n : ℕ} {st : Stack} {pre es t : List ℕ}
      → Slot n st pre
      → Elements es
      → t ≡ pre ++ codes "[" ++ es
      → IsPartial n (list_some ∷ st) t
