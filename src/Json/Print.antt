-- ===== src/Json/Print.antt =====
-- What `printf` writes for the numbers of a report: the conversions `%d`, `%zu` and `%lf` that the
-- writer of src/util.cu uses.
pub mod Grammar
use nccl_tests.Prelude.{
  ℕ, zero, suc, ◌+◌, ◌/◌, ◌%◌, ◌^◌, ℤ, pos, negsuc, Bool, true, false, List, [], ◌∷◌, ◌++◌, codes,
  ltb, if◌then◌else◌,
}

-- `n` in decimal, in front of `acc`. Each round divides by ten, so `n + 1` rounds are enough.
unfoldable pub decimal_from : ℕ → ℕ → List ℕ → List ℕ
decimal_from zero n acc = acc
decimal_from (suc fuel) n acc =
    let digit = (48 + n % 10) ∷ acc in
    let rest = decimal_from fuel (n / 10) digit in if ltb n 10 then digit else rest

-- `%zu`.
unfoldable pub decimal : ℕ → List ℕ
decimal n = decimal_from (n + 1) n []

-- `%d`.
unfoldable pub decimal_int : ℤ → List ℕ
decimal_int (pos n) = decimal n
decimal_int (negsuc n) = 0x2d ∷ decimal (n + 1)

-- The last `k` decimal digits of `n`, leading zeros kept.
unfoldable pub fixed_digits : ℕ → ℕ → List ℕ → List ℕ
fixed_digits zero n acc = acc
fixed_digits (suc k) n acc = fixed_digits k (n / 10) ((48 + n % 10) ∷ acc)

-- A `double` as `%lf` shows it: not a number, an infinity, or a sign and a count of millionths.
pub data Double : Type 0 where
  nan : Double
  infinite : (negative : Bool) → Double
  finite : (negative : Bool) (millionths : ℕ) → Double

abbrev pub sign : Bool → List ℕ
sign true = 0x2d ∷ []
sign false = []

abbrev pub million : ℕ
million = 10 ^ 6

-- `%lf`.
unfoldable pub decimal_double : Double → List ℕ
decimal_double nan = codes "nan"
decimal_double (infinite negative) = sign negative ++ codes "inf"
decimal_double (finite negative m) =
    sign negative ++ decimal (m / million) ++ 0x2e ∷ fixed_digits 6 m []
