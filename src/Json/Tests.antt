-- ===== src/Json/Tests.antt =====
-- The JSON writer of src/util.cu on concrete inputs.
use nccl_tests.Prelude.{ℕ, ◌≡◌, refl, Bool, true, some, List, [], ◌∷◌, codes, pos}
use nccl_tests.Json.Sanitize.{sanitize_json}
use nccl_tests.Json.Sanitize.Quoting.{IsSanitized, sanitize_json-Quotes}
use nccl_tests.Json.Print.{finite, decimal_int, decimal_double, decimal_from, decimal, fixed_digits}
use nccl_tests.Json.State.{Writer, object_some, list_some}
use nccl_tests.Json.Writer.{
  Call, call_key, start_object, start_list, null, int, quoted_text, perform_all, finish_all,
}
use nccl_tests.Json.Machine.{steps}
use nccl_tests.Json.Machine.Refines.{view, after, perform_all-refines}
use nccl_tests.Json.Document.Valid.{begun_by}
use nccl_tests.Json.Finish.{fresh, Closed, report-Values}

abbrev always : ℕ → Bool
always n = true

-- A quotation mark, a letter and a tab.
abbrev raw_text : List ℕ
raw_text = 0x22 ∷ 0x61 ∷ 9 ∷ []

abbrev script : List Call
script = start_object ∷ call_key (codes "n") ∷ start_list ∷ int (pos 7) ∷ null ∷ []

raw_text-sanitized : sanitize_json 64 raw_text ≡ (0x5c ∷ 0x22 ∷ 0x61 ∷ 0x5c ∷ 0x74 ∷ [], true)
unfolding sanitize_json
raw_text-sanitized = refl

sanitize_json-Quotes_example : IsSanitized raw_text (sanitize_json 64 raw_text)
sanitize_json-Quotes_example = sanitize_json-Quotes 64 raw_text

decimal_double-text : decimal_double (finite true 2500000) ≡ codes "-2.500000"
unfolding decimal_double decimal decimal_from fixed_digits
decimal_double-text = refl

steps-script : steps script [] ≡ some (codes "{\"n\":[7,null", list_some ∷ object_some ∷ [])
unfolding quoted_text sanitize_json decimal_int decimal decimal_from
steps-script = refl

perform_all-refines_example :
    view (perform_all script (fresh always)) ≡ after [] always (steps script [])
perform_all-refines_example = perform_all-refines script (fresh always) (λ n. refl)

report-Values_example :
    (w : Writer) × (perform_all script (fresh always) ≡ some w)
    × Closed (begun_by script [] 0) w (finish_all w)
report-Values_example =
    report-Values always script (λ n. refl) (tt, (tt, (tt, (tt, (tt, tt))))) steps-script
