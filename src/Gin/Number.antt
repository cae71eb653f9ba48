-- ===== src/Gin/Number.antt =====
-- Numbers on the command line: `parse_size` and `parse_int_arg` of src/device_api/gin/utils/args.cc.
-- `exit(EXIT_FAILURE)` is `none`.
pub mod Laws
use nccl_tests.Prelude.{
  ℕ, zero, suc, ◌+◌, ◌-◌, ◌*◌, ◌/◌, ◌%◌, ◌^◌, ℤ, pos, negsuc, is_neg, Bool, true, false, ◌&&◌, ◌||◌,
  Option, none, some, List, [], ◌∷◌, ltb, leb, ◌==◌, if◌then◌else◌,
}

abbrev pub is_digit : ℕ → Bool
is_digit x = leb 48 x && leb x 57

abbrev pub is_space : ℕ → Bool
is_space x = x == 32 || (leb 9 x && leb x 13)

-- The value of the digits in front, added to `n` tens, whether there was one, and what follows.
unfoldable pub read_digits : ℕ → Bool → List ℕ → ℕ × Bool × List ℕ
read_digits n seen [] = (n, seen, [])
read_digits n seen (x ∷ s) =
    let rest = read_digits (n * 10 + (x - 48)) true s in
    if is_digit x then rest else (n, seen, x ∷ s)

unfoldable pub skip_spaces : List ℕ → List ℕ
skip_spaces [] = []
skip_spaces (x ∷ s) = let rest = skip_spaces s in if is_space x then rest else x ∷ s

-- A sign, and what follows it.
abbrev pub read_sign : List ℕ → Bool × List ℕ
read_sign [] = (false, [])
read_sign (x ∷ s) =
    if x == 0x2d then (true, s) else if x == 0x2b then (false, s) else (false, x ∷ s)

abbrev pub signed : Bool → ℕ → ℤ
signed false n = pos n
signed true zero = pos 0
signed true (suc n) = negsuc n

-- `long long` and `long` have 64 bits; outside them `errno` is set.
abbrev pub fits_long : Bool → ℕ → Bool
fits_long negative n = leb n (if negative then 2 ^ 63 else 2 ^ 63 - 1)

-- `strtoll(str, &end, 10)` and `strtol`: the number and the text at `end`. Both functions below treat
-- `end == str` and a set `errno` alike: `none`.
unfoldable pub strtoll : List ℕ → Option (ℤ × List ℕ)
unfolding read_digits skip_spaces
strtoll s =
    let (negative, t) = read_sign (skip_spaces s) in
    let (n, seen, rest) = read_digits 0 false t in
    if seen && fits_long negative n then some (signed negative n, rest) else none

-- The multiplier that a letter at `end` stands for, and the text behind it.
abbrev pub size_suffix : List ℕ → ℕ × List ℕ
size_suffix [] = (1, [])
size_suffix (x ∷ s) =
    if x == 0x4b || x == 0x6b
    then (2 ^ 10, s)
    else if x == 0x4d || x == 0x6d
    then (2 ^ 20, s)
    else if x == 0x47 || x == 0x67
    then (2 ^ 30, s)
    else (1, x ∷ s)

abbrev pub is_end : List ℕ → Bool
is_end [] = true
is_end (x ∷ s) = false

-- The last three tests of `parse_size`, for the number `val`, which is not below zero.
abbrev pub scaled_size : ℕ → ℕ × List ℕ → Option ℕ
scaled_size val (mult, rest) =
    if is_end rest
    then (if not_zero val && ltb ((2 ^ 64 - 1) / mult) val
        then none
        else some (val * mult % 2 ^ 64))
    else none
  where
    not_zero : ℕ → Bool
    not_zero n = ltb 0 n

abbrev pub size_of : Option (ℤ × List ℕ) → Option ℕ
size_of none = none
size_of (some (negsuc n, rest)) = none
size_of (some (pos val, rest)) = scaled_size val (size_suffix rest)

-- `parse_size`.
unfoldable pub parse_size : List ℕ → Option ℕ
unfolding strtoll
parse_size s = size_of (strtoll s)

-- `(int)val`: the low 32 bits as a signed number.
abbrev pub low_bits : ℤ → ℕ
low_bits (pos n) = n % 2 ^ 32
low_bits (negsuc n) = 2 ^ 32 - 1 - n % 2 ^ 32

abbrev pub to_int : ℤ → ℤ
to_int z = let u = low_bits z in if ltb u (2 ^ 31) then pos u else negsuc (2 ^ 32 - 1 - u)

abbrev pub int_of : Option (ℤ × List ℕ) → Option ℤ
int_of none = none
int_of (some (val, [])) = some (to_int val)
int_of (some (val, x ∷ rest)) = none

-- `parse_int_arg`.
unfoldable pub parse_int_arg : List ℕ → Option ℤ
unfolding strtoll
parse_int_arg s = int_of (strtoll s)
