-- ===== src/Json/Print/Grammar.antt =====
-- The printed numbers are JSON numbers (RFC 8259).
use nccl_tests.Prelude.{
  ℕ, zero, suc, ◌+◌, ◌/◌, ◌%◌, ◌<◌, ◌≤◌, ◌≡◌, refl, ◌⊎◌, inl, inr, ℤ, pos, negsuc, Bool, true,
  false, List, [], ◌∷◌, ◌++◌, ltb, arith, Bool-cases,
}
use nccl_tests.Json.Print.{
  decimal_from, decimal, decimal_int, fixed_digits, finite, decimal_double, million,
}

abbrev pub IsDigit : ℕ → Type 0
IsDigit x = (48 ≤ x) × (x ≤ 57)

-- A run of digits, perhaps empty.
pub data Digits : List ℕ → Type 0 where
  none_left : Digits []
  digit : {x : ℕ} {xs : List ℕ} → IsDigit x → Digits xs → Digits (x ∷ xs)

-- `0`, or digits that do not begin with 0.
pub data Natural : List ℕ → Type 0 where
  single : {x : ℕ} → IsDigit x → Natural (x ∷ [])
  leading : {x : ℕ} {xs : List ℕ} → IsDigit x → 48 < x → Digits xs → Natural (x ∷ xs)

pub data Number : List ℕ → Type 0 where
  integer : {ds : List ℕ} → Natural ds → Number ds
  fraction :
      {ds fs : List ℕ} {f : ℕ} → Natural ds → IsDigit f → Digits fs → Number (ds ++ 0x2e ∷ f ∷ fs)

pub data SignedNumber : List ℕ → Type 0 where
  plus : {ds : List ℕ} → Number ds → SignedNumber ds
  minus : {ds : List ℕ} → Number ds → SignedNumber (0x2d ∷ ds)

last-IsDigit : (n : ℕ) → IsDigit (48 + n % 10)
last-IsDigit n = omega arith

decimal_from-Natural :
    (fuel n : ℕ) {acc : List ℕ}
    → n < fuel
    → (n ≡ 0 → acc ≡ [])
    → Digits acc
    → Natural (decimal_from fuel n acc)
unfolding decimal_from
decimal_from-Natural zero n h z d = elim h [ ]
decimal_from-Natural (suc fuel) n {acc} h z d = elim (Bool-cases (ltb n 10)) [
  | inl small ↦ rw small (last acc d z (ground arith) (dec_pos n))
  | inr big ↦ rw big (
      decimal_from-Natural fuel (n / 10) (ground arith) (λ e. absurd (ground arith))
        (digit (last-IsDigit n) d))
]
  where
    dec_pos : (m : ℕ) → (m ≡ 0) ⊎ (0 < m)
    dec_pos zero = inl refl
    dec_pos (suc m) = inr (omega arith)

    last :
        (acc : List ℕ)
        → Digits acc
        → (n ≡ 0 → acc ≡ [])
        → n < 10
        → (n ≡ 0) ⊎ (0 < n)
        → Natural ((48 + n % 10) ∷ acc)
    last acc d z s (inl e) = rw (z e) (single (last-IsDigit n))
    last acc d z s (inr p) = leading (last-IsDigit n) (omega arith) d

pub decimal-Natural : (n : ℕ) → Natural (decimal n)
unfolding decimal
decimal-Natural n = decimal_from-Natural (n + 1) n (omega arith) (λ e. refl) none_left

-- `%d` of any integer is a JSON number.
pub decimal_int-SignedNumber : (z : ℤ) → SignedNumber (decimal_int z)
unfolding decimal_int
decimal_int-SignedNumber (pos n) = plus (integer (decimal-Natural n))
decimal_int-SignedNumber (negsuc n) = minus (integer (decimal-Natural (n + 1)))

-- `%zu` of any size is a JSON number.
pub decimal-SignedNumber : (n : ℕ) → SignedNumber (decimal n)
decimal-SignedNumber n = plus (integer (decimal-Natural n))

finite-Number : (m : ℕ) → Number (decimal (m / million) ++ 0x2e ∷ fixed_digits 6 m [])
unfolding fixed_digits
finite-Number m = fraction (decimal-Natural (m / million)) (last-IsDigit _) (
    digit (last-IsDigit _) (
      digit (last-IsDigit _)
        (digit (last-IsDigit _) (digit (last-IsDigit _) (digit (last-IsDigit _) none_left)))))

-- `%lf` of a finite double is a JSON number.
pub decimal_double-SignedNumber :
    (neg : Bool) (m : ℕ) → SignedNumber (decimal_double (finite neg m))
unfolding decimal_double
decimal_double-SignedNumber true m = minus (finite-Number m)
decimal_double-SignedNumber false m = plus (finite-Number m)
