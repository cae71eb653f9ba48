-- ===== src/CommandLine/Numbers.antt =====
-- The numbers of the command line of src/common.cu: `strtol` as `main` calls it, with base 0, the
-- conversions of its result, and `parsesize`. What `sscanf` finds in a text is an argument of `parsesize`.
use nccl_tests.Prelude.{
  ℕ, ◌+◌, ◌-◌, ◌*◌, ◌/◌, ◌%◌, ◌^◌, min, ℤ, pos, negsuc, Bool, true, false, ◌&&◌, ◌||◌, Option, none,
  some, List, [], ◌∷◌, ltb, leb, ◌==◌, if◌then◌else◌,
}
use nccl_tests.Gin.Number.{skip_spaces, read_sign, signed, to_int}

-- The value of a digit or a letter; a character that is neither has one that no base allows.
abbrev pub digit_value : ℕ → ℕ
digit_value x =
    if leb 48 x && leb x 57
    then x - 48
    else if leb 97 x && leb x 122
    then x - 87
    else if leb 65 x && leb x 90
    then x - 55
    else 36

-- The digits in front, their value added to `n` times the base, and what follows.
unfoldable pub read_base : (base n : ℕ) → List ℕ → ℕ × List ℕ
read_base base n [] = (n, [])
read_base base n (x ∷ s) =
    let rest = read_base base (n * base + digit_value x) s in
    if ltb (digit_value x) base then rest else (n, x ∷ s)

-- Does a digit of the base stand in front?
abbrev pub begins_with : (base : ℕ) → List ℕ → Bool
begins_with base [] = false
begins_with base (x ∷ s) = ltb (digit_value x) base

-- The `x` behind a `0` belongs to the number if a hexadecimal digit follows it.
unfoldable pub read_number : List ℕ → ℕ × List ℕ
unfolding read_base
read_number [] = (0, [])
read_number (x ∷ []) = read_base 10 0 (x ∷ [])
read_number (x ∷ y ∷ s) =
    if x == 48
    then (if (y == 120 || y == 88) && begins_with 16 s
        then read_base 16 0 s
        else read_base 8 0 (x ∷ y ∷ s))
    else read_base 10 0 (x ∷ y ∷ s)

-- Outside 64 bits the nearest `long` stands for the number.
abbrev pub clamped : (negative : Bool) → ℕ → ℤ
clamped false n = pos (min n (2 ^ 63 - 1))
clamped true n = signed true (min n (2 ^ 63))

-- Without a digit the number is 0 and `endptr` is the text itself.
abbrev pub with_end : (s : List ℕ) → Bool × List ℕ → ℤ × List ℕ
with_end s (negative, t) =
    if begins_with 10 t
    then (clamped negative ((read_number t).0), (read_number t).1)
    else (pos 0, s)

-- `strtol(s, &endptr, 0)`, with the text at `endptr`.
unfoldable pub strtol : List ℕ → ℤ × List ℕ
unfolding read_number skip_spaces
strtol s = with_end s (read_sign (skip_spaces s))

-- `strtol(optarg, NULL, 0)`, as an `int`.
abbrev pub int_arg : List ℕ → ℤ
int_arg s = to_int ((strtol s).0)

-- The same as a `size_t`.
abbrev pub size_arg : List ℕ → ℕ
size_arg s = to_size ((strtol s).0)
  where
    to_size : ℤ → ℕ
    to_size (pos n) = n % 2 ^ 64
    to_size (negsuc n) = 2 ^ 64 - 1 - n % 2 ^ 64

-- A double. A finite one is `m * 2 ^ up / 2 ^ down`, or its negative.
pub data Double : Type 0 where
  nan : Double
  infinite : (negative : Bool) → Double
  finite : (negative : Bool) (m up down : ℕ) → Double

-- What `sscanf(value, "%lf %1s", &size, &size_lit)` returns, with what it stores.
pub data Scanned : Type 0 where
  nothing : Scanned
  number : Double → Scanned
  number_and_letter : Double → (letter : ℕ) → Scanned

-- `size * units` for `units = 2 ^ k`. A product too large for a double is an infinity; it is left finite
-- here, since no test below tells the two apart.
abbrev pub times_units : Double → (k : ℕ) → Double
times_units nan k = nan
times_units (infinite negative) k = infinite negative
times_units (finite negative m up down) k = finite negative m (up + k) down

-- The exponent of `units` for a letter.
abbrev pub units : (letter : ℕ) → Option ℕ
units letter =
    if letter == 71 || letter == 103
    then some 30
    else if letter == 77 || letter == 109
    then some 20
    else if letter == 75 || letter == 107
    then some 10
    else none

-- -1.0.
abbrev pub minus_one : Double
minus_one = finite true 1 0 0

abbrev pub scaled_by : Double → Option ℕ → Double
scaled_by d none = minus_one
scaled_by d (some k) = times_units d k

-- `parsesize`.
unfoldable pub parsesize : Scanned → Double
parsesize nothing = minus_one
parsesize (number d) = times_units d 0
parsesize (number_and_letter d letter) = scaled_by d (units letter)

-- What `main` makes of a size: an error, a number of bytes, or a conversion to `size_t` that C++ leaves
-- undefined.
pub data Size : Type 0 where
  invalid undefined : Size
  bytes : ℕ → Size

abbrev pub floor_size : ℕ → Size
floor_size n = if ltb n (2 ^ 64) then bytes n else undefined

-- `parsed < 0`, and `(size_t)parsed`.
abbrev pub to_size : Double → Size
to_size nan = undefined
to_size (infinite negative) = if negative then invalid else undefined
to_size (finite negative m up down) =
    if negative && ltb 0 m then invalid else floor_size (m * 2 ^ up / 2 ^ down)

unfoldable pub size_option : Scanned → Size
unfolding parsesize
size_option s = to_size (parsesize s)
