-- ===== src/Json/Sanitize.antt =====
-- `sanitizeJson` of src/util.cu: quoting a C string into a buffer of `lim` bytes.
pub mod Quoting
pub mod Bounds
use nccl_tests.Prelude.{
  ℕ, ◌+◌, Bool, true, false, ◌||◌, List, [], ◌∷◌, ◌++◌, leb, ltb, ◌==◌, if◌then◌else◌,
}

-- The characters that the `switch` quotes: `"`, `\`, `/`, tab and newline.
abbrev pub is_quoted : ℕ → Bool
is_quoted x = x == 0x22 || x == 0x5c || x == 0x2f || x == 9 || x == 10

-- What follows the backslash.
abbrev pub quote_letter : ℕ → ℕ
quote_letter x = if x == 10 then 0x6e else if x == 9 then 0x74 else x

-- `*in >= 0x7F || *in <= 0x1F`. A byte over 0x7F is rejected by the first test if `char` is
-- unsigned, and is negative and rejected by the second if it is signed.
abbrev pub is_unprintable : ℕ → Bool
is_unprintable x = leb 0x7f x || leb x 0x1f

-- The loop from `out[c]` on. The list is what it writes from there, and the NUL goes behind it;
-- the flag is the function's result.
unfoldable pub sanitize_from : (lim c : ℕ) → List ℕ → List ℕ × Bool
sanitize_from lim c [] = ([], true)
sanitize_from lim c (x ∷ xs) =
    let plain = sanitize_from lim (c + 1) xs in
    let quoted = sanitize_from lim (c + 2) xs in
    if leb lim (c + 1)
    then ([], false)
    else if is_quoted x
    then (if ltb lim (c + 2) then ([], false) else (0x5c ∷ quote_letter x ∷ quoted.0, quoted.1))
    else if is_unprintable x
    then ([], false)
    else (x ∷ plain.0, plain.1)

-- The bytes copied to `out`, before the NUL, and whether all of `in` was copied.
unfoldable pub sanitize_json : ℕ → List ℕ → List ℕ × Bool
unfolding sanitize_from
sanitize_json lim s = sanitize_from lim 0 s
