-- ===== src/Json/Sanitize/Bounds.antt =====
-- How far `sanitizeJson` of src/util.cu writes into its buffer, and when it copies everything.
use nccl_tests.Prelude.{
  ℕ, ◌+◌, ◌≤◌, ◌≡◌, refl, ◌≢◌, Bool, true, false, ◌||◌, not, ◌&&◌, List, [], ◌∷◌, ◌++◌, leb, ltb,
  if◌then◌else◌, arith, ◌<◌, length, zero, suc, replicate,
}
use nccl_tests.Json.Sanitize.{is_quoted, is_unprintable, sanitize_from, sanitize_json}

-- The bytes that a string takes once it is quoted.
abbrev pub quoted_length : List ℕ → ℕ
quoted_length [] = 0
quoted_length (x ∷ xs) = (if is_quoted x then 2 else 1) + quoted_length xs

-- No character of the string makes the loop give up.
abbrev pub is_clean : List ℕ → Bool
is_clean [] = true
is_clean (x ∷ xs) = (is_quoted x || not (is_unprintable x)) && is_clean xs

test-false : (b : Bool) → b ≢ true → b ≡ false
test-false b h = ground arith

sanitize_from-le : (lim c : ℕ) (s : List ℕ) → c ≤ lim → c + length (sanitize_from lim c s).0 ≤ lim
unfolding sanitize_from
sanitize_from-le lim c [] h = omega arith
sanitize_from-le lim c (x ∷ xs) h =
    ground (arith, sanitize_from-le lim (c + 1) xs, sanitize_from-le lim (c + 2) xs)

-- The bytes copied never pass the buffer, so the NUL goes to `out[lim]` at the furthest.
pub sanitize_json-le : (lim : ℕ) (s : List ℕ) → length (sanitize_json lim s).0 ≤ lim
unfolding sanitize_json
sanitize_json-le lim s = omega (arith, sanitize_from-le lim 0 s (omega arith))

sanitize_from-fits :
    (lim c : ℕ) (s : List ℕ)
    → c + quoted_length s < lim
    → is_clean s ≡ true
    → ((sanitize_from lim c s).1 ≡ true) × (length (sanitize_from lim c s).0 ≡ quoted_length s)
unfolding sanitize_from
sanitize_from-fits lim c [] h k = (refl, refl)
sanitize_from-fits lim c (x ∷ xs) h k =
    ground (arith, sanitize_from-fits lim (c + 1) xs, sanitize_from-fits lim (c + 2) xs)

-- A string of printable or quotable characters whose quoted text and NUL fit the buffer is copied
-- whole, and takes exactly the bytes of its quoted text.
pub sanitize_json-fits :
    (lim : ℕ) (s : List ℕ)
    → quoted_length s < lim
    → is_clean s ≡ true
    → ((sanitize_json lim s).1 ≡ true) × (length (sanitize_json lim s).0 ≡ quoted_length s)
unfolding sanitize_json
sanitize_json-fits lim s h k = sanitize_from-fits lim 0 s (omega arith) k

sanitize_from-overflow :
    (k lim c x q : ℕ)
    → lim ≡ c + k + 2
    → 0x20 ≤ x
    → x < 0x7f
    → is_quoted x ≡ false
    → is_quoted q ≡ true
    → (length (sanitize_from lim c (replicate k x ++ q ∷ [])).0 ≡ k + 2)
      × ((sanitize_from lim c (replicate k x ++ q ∷ [])).1 ≡ true)
unfolding sanitize_from
sanitize_from-overflow zero lim c x q l lo hi p e =
    rw (e, test-false (leb lim (c + 1)) (ground arith), test-false (ltb lim (c + 2)) (ground arith))
      (omega arith, refl)
sanitize_from-overflow (suc k) lim c x q l lo hi p e =
    rw
      (test-false (leb lim (c + 1)) (ground arith), p, test-false (is_unprintable x) (ground arith))
      (ground (arith, sanitize_from-overflow k lim (c + 1) x q (omega arith) lo hi p e))

-- The NUL overflows the buffer: in a buffer of `k + 2` bytes, `k` plain characters and one that is
-- quoted are copied whole and fill all `k + 2` bytes, so the NUL goes to `out[lim]`.
pub sanitize_json-overflow :
    (k x q : ℕ)
    → 0x20 ≤ x
    → x < 0x7f
    → is_quoted x ≡ false
    → is_quoted q ≡ true
    → (length (sanitize_json (k + 2) (replicate k x ++ q ∷ [])).0 ≡ k + 2)
      × ((sanitize_json (k + 2) (replicate k x ++ q ∷ [])).1 ≡ true)
unfolding sanitize_json
sanitize_json-overflow k x q lo hi p e =
    sanitize_from-overflow k (k + 2) 0 x q (omega arith) lo hi p e
