-- ===== src/Json/Sanitize/Quoting.antt =====
-- What the output of `sanitizeJson` of src/util.cu denotes.
use nccl_tests.Prelude.{
  ℕ, ◌+◌, ◌≤◌, ◌≡◌, refl, ap, ◌≢◌, Bool, true, false, ◌||◌, Option, none, some, List, [], ◌∷◌, ◌++◌,
  ◌==◌, leb, if◌then◌else◌, Bool-cases, inl, inr, arith, ◌<◌,
}
use nccl_tests.Json.Sanitize.{is_quoted, quote_letter, is_unprintable, sanitize_from, sanitize_json}

-- What a letter behind a backslash stands for in JSON (RFC 8259, `\u` left out).
abbrev pub unescape : ℕ → Option ℕ
unescape e =
    if e == 0x22 || e == 0x5c || e == 0x2f
    then some e
    else if e == 0x62
    then some 8
    else if e == 0x66
    then some 12
    else if e == 0x6e
    then some 10
    else if e == 0x72
    then some 13
    else if e == 0x74
    then some 9
    else none

-- `Quotes t s`: between quotation marks, the text `t` is a JSON string that denotes `s`.
pub data Quotes : List ℕ → List ℕ → Type 0 where
  nil : Quotes [] []
  plain :
      {x : ℕ} {t s : List ℕ} → 0x20 ≤ x → x ≢ 0x22 → x ≢ 0x5c → Quotes t s → Quotes (x ∷ t) (x ∷ s)
  escape :
      {e x : ℕ} {t s : List ℕ} → unescape e ≡ some x → Quotes t s → Quotes (0x5c ∷ e ∷ t) (x ∷ s)

unescape-quote_letter : (x : ℕ) → is_quoted x ≡ true → unescape (quote_letter x) ≡ some x
unescape-quote_letter x h = ground arith

-- One turn of the loop as four cases.
pub data Turn (lim c x : ℕ) (xs : List ℕ) (r : List ℕ × Bool) : Type 0 where
  full : r ≡ ([], false) → lim ≤ c + 1 → Turn lim c x xs r
  bad :
      r ≡ ([], false)
      → is_unprintable x ≡ true
      → c + 1 < lim
      → is_quoted x ≡ false
      → Turn lim c x xs r
  quoted :
      is_quoted x ≡ true
      → c + 1 < lim
      → r ≡ (
        0x5c ∷ quote_letter x ∷ (sanitize_from lim (c + 2) xs).0,
        (sanitize_from lim (c + 2) xs).1,
      )
      → Turn lim c x xs r
  copied :
      0x20 ≤ x
      → x < 0x7f
      → is_quoted x ≡ false
      → c + 1 < lim
      → r ≡ (x ∷ (sanitize_from lim (c + 1) xs).0, (sanitize_from lim (c + 1) xs).1)
      → Turn lim c x xs r

pub turn : (lim c x : ℕ) (xs : List ℕ) → Turn lim c x xs (sanitize_from lim c (x ∷ xs))
unfolding sanitize_from
turn lim c x xs = elim (Bool-cases (leb lim (c + 1))) [
  | inl e ↦ full (rw e) (ground arith)
  | inr e ↦ elim (Bool-cases (is_quoted x)) [
    | inl q ↦ quoted q (ground arith) (ground arith)
    | inr q ↦ elim (Bool-cases (is_unprintable x)) [
      | inl u ↦ bad (rw (e, q, u)) u (ground arith) q
      | inr u ↦ copied (ground arith) (ground arith) q (ground arith) (ground arith)
    ]
  ]
]

-- A prefix of `s` is quoted, and all of it if the loop returns true.
abbrev pub IsSanitized : List ℕ → List ℕ × Bool → Type 0
IsSanitized s r =
    (done : List ℕ) × (rest : List ℕ) × (done ++ rest ≡ s)
    × Quotes r.0 done
    × (r.1 ≡ true → rest ≡ [])

sanitize_from-IsSanitized : (lim c : ℕ) (s : List ℕ) → IsSanitized s (sanitize_from lim c s)
unfolding sanitize_from
sanitize_from-IsSanitized lim c [] = ([], [], refl, nil, λ e. refl)
sanitize_from-IsSanitized lim c (x ∷ xs) =
    extend (turn lim c x xs) (sanitize_from-IsSanitized lim (c + 1) xs)
      (sanitize_from-IsSanitized lim (c + 2) xs)
  where
    extend :
        {r : List ℕ × Bool}
        → Turn lim c x xs r
        → IsSanitized xs (sanitize_from lim (c + 1) xs)
        → IsSanitized xs (sanitize_from lim (c + 2) xs)
        → IsSanitized (x ∷ xs) r
    extend (full e h) one two = rw e ([], x ∷ xs, refl, nil, λ f. cc)
    extend (bad e u h q) one two = rw e ([], x ∷ xs, refl, nil, λ f. cc)
    extend (quoted q h e) one (done, rest, split, qs, all) =
        rw e (x ∷ done, rest, ap (λ l. x ∷ l) split, escape (unescape-quote_letter x q) qs, all)
    extend (copied lo hi q h e) (done, rest, split, qs, all) two =
        rw e (x ∷ done, rest, ap (λ l. x ∷ l) split, plain lo (ground arith) (ground arith) qs, all)

-- Whatever the input and the size of the buffer, what `sanitizeJson` leaves in the buffer is JSON
-- string text that denotes a prefix of the input, and the whole input if the function returns true.
pub sanitize_json-Quotes : (lim : ℕ) (s : List ℕ) → IsSanitized s (sanitize_json lim s)
unfolding sanitize_json
sanitize_json-Quotes lim s = sanitize_from-IsSanitized lim 0 s

pub sanitize_json-text : (lim : ℕ) (s : List ℕ) → (d : List ℕ) × Quotes (sanitize_json lim s).0 d
sanitize_json-text lim s =
    let (done, rest, split, qs, all) = sanitize_json-Quotes lim s in (done, qs)
