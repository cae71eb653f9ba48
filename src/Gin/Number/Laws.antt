-- ===== src/Gin/Number/Laws.antt =====
-- What `parse_size` and `parse_int_arg` of src/device_api/gin/utils/args.cc accept, and as what.
use nccl_tests.Prelude.{
  ℕ, zero, suc, ◌+◌, ◌-◌, ◌*◌, ◌/◌, ◌%◌, ◌^◌, ◌<◌, pos, Bool, true, false, some, List, [], ◌∷◌,
  ◌++◌, ltb, leb, ltb→lt, ◌≡◌, refl, arith, ◌∙◌, ap, Bool-cases, inl, inr, codes,
}
use nccl_tests.Json.Print.{decimal, decimal_from}
use nccl_tests.Json.Print.Grammar.{Natural, single, leading, decimal-Natural}
use nccl_tests.Gin.Number.{
  is_digit, read_digits, skip_spaces, read_sign, strtoll, size_suffix, scaled_size, parse_size,
}

-- The text behind a number does not begin with a digit.
abbrev pub Stops : List ℕ → Type 0
Stops [] = Unit
Stops (x ∷ s) = is_digit x ≡ false

read_digits-stop :
    (n : ℕ) (seen : Bool) (s : List ℕ) → Stops s → read_digits n seen s ≡ (n, seen, s)
unfolding read_digits
read_digits-stop n seen [] h = refl
read_digits-stop n seen (x ∷ s) h = rw h

read_digits-digit :
    (n d : ℕ) (seen : Bool) (s : List ℕ)
    → d < 10
    → read_digits n seen ((48 + d) ∷ s) ≡ read_digits (n * 10 + d) true s
unfolding read_digits
read_digits-digit n d seen s h =
    let e : 48 + d - 48 ≡ d = omega arith in
    let dg : is_digit (48 + d) ≡ true = ground arith in rw (dg, e)

-- Printed digits are read back. A printed text begins with a digit, so something is seen.
read_digits-decimal_from :
    (fuel n : ℕ) (seen : Bool) (acc : List ℕ)
    → n < fuel
    → read_digits 0 seen (decimal_from fuel n acc) ≡ read_digits n true acc
unfolding decimal_from
read_digits-decimal_from zero n seen acc h = absurd (omega arith)
read_digits-decimal_from (suc fuel) n seen acc h =
    let e : n / 10 * 10 + n % 10 ≡ n = omega arith in
    let small : (n < 10) → 0 * 10 + n % 10 ≡ n = λ l. omega arith in
    let rec =
      λ (l : n / 10 < fuel). read_digits-decimal_from fuel (n / 10) seen ((48 + n % 10) ∷ acc) l in
    let d1 = read_digits-digit 0 (n % 10) seen acc (omega arith) in
    let d2 = read_digits-digit (n / 10) (n % 10) true acc (omega arith) in
    elim (Bool-cases (ltb n 10)) [
      | inl l ↦ rw l (d1 ∙ ap (λ m. read_digits m true acc) (small (ltb→lt n 10 l)))
      | inr l ↦ rw l (rec (ground arith) ∙ d2 ∙ ap (λ m. read_digits m true acc) e)
    ]

decimal_from-append :
    (fuel n : ℕ) (acc s : List ℕ) → decimal_from fuel n acc ++ s ≡ decimal_from fuel n (acc ++ s)
unfolding decimal_from
decimal_from-append zero n acc s = refl
decimal_from-append (suc fuel) n acc s =
    ground (arith, decimal_from-append fuel (n / 10) ((48 + n % 10) ∷ acc) s)

read_digits-decimal :
    (n : ℕ) (s : List ℕ) → Stops s → read_digits 0 false (decimal n ++ s) ≡ (n, true, s)
unfolding decimal
read_digits-decimal n s h =
    ap (read_digits 0 false) (decimal_from-append (n + 1) n [] s)
    ∙ read_digits-decimal_from (n + 1) n false s (omega arith)
    ∙ read_digits-stop n true s h

-- The multiplier of a suffix.
pub data Suffix : List ℕ → ℕ → Type 0 where
  unscaled : Suffix [] 1
  kilo : Suffix (codes "K") (2 ^ 10)
  small_kilo : Suffix (codes "k") (2 ^ 10)
  mega : Suffix (codes "M") (2 ^ 20)
  small_mega : Suffix (codes "m") (2 ^ 20)
  giga : Suffix (codes "G") (2 ^ 30)
  small_giga : Suffix (codes "g") (2 ^ 30)

Suffix-Stops : {s : List ℕ} {m : ℕ} → Suffix s m → Stops s
Suffix-Stops unscaled = tt
Suffix-Stops kilo = refl
Suffix-Stops small_kilo = refl
Suffix-Stops mega = refl
Suffix-Stops small_mega = refl
Suffix-Stops giga = refl
Suffix-Stops small_giga = refl

front :
    (t s : List ℕ)
    → Natural t
    → (skip_spaces (t ++ s) ≡ t ++ s) × (read_sign (t ++ s) ≡ (false, t ++ s))
unfolding skip_spaces
front t s (single {x} d) = ground arith
front t s (leading {x} {xs} d l ds) = ground arith

strtoll-decimal :
    (n : ℕ) (s : List ℕ) → n < 2 ^ 63 → Stops s → strtoll (decimal n ++ s) ≡ some (pos n, s)
unfolding strtoll
strtoll-decimal n s b h =
    let (skip, sign) = front (decimal n) s (decimal-Natural n) in
    let fits : leb n (2 ^ 63 - 1) ≡ true = ground arith in
    rw (skip, sign, read_digits-decimal n s h, fits) refl

scaled :
    (n : ℕ) {s : List ℕ} {m : ℕ}
    → Suffix s m
    → n * m < 2 ^ 64
    → scaled_size n (size_suffix s) ≡ some (n * m)
scaled n unscaled b = ground arith
scaled n kilo b = ground arith
scaled n small_kilo b = ground arith
scaled n mega b = ground arith
scaled n small_mega b = ground arith
scaled n giga b = ground arith
scaled n small_giga b = ground arith

-- A size is read back as it is written: the decimal digits of `n` below 2^63 with any of the
-- suffixes, or none, give `n` times the suffix's multiplier, where that fits 64 bits.
pub parse_size-decimal :
    (n : ℕ) {s : List ℕ} {m : ℕ}
    → Suffix s m
    → n < 2 ^ 63
    → n * m < 2 ^ 64
    → parse_size (decimal n ++ s) ≡ some (n * m)
unfolding parse_size
parse_size-decimal n {s} x b o = rw (strtoll-decimal n s b (Suffix-Stops x)) (scaled n x o)
