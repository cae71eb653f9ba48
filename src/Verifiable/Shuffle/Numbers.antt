-- ===== src/Verifiable/Shuffle/Numbers.antt =====
-- Numbers modulo a power of two, for `shuffleRank` of verifiable/verifiable.cu: odd factors cancel, and
-- triangular numbers do not meet.
use native.Mathlib.Nat.{
  mul_comm, add-mul, div-zero, le-div_iff_mul-le, div-mul-le_self, pow-suc, div-add-mod, mul-add,
}
use nccl_tests.Prelude.{
  ℕ, zero, suc, ◌+◌, ◌-◌, ◌*◌, ◌/◌, ◌%◌, ◌^◌, ◌<◌, ◌≤◌, ◌≡◌, ◌∙◌, ◌⊎◌, inl, inr, sym, ap, arith,
  dec_lt,
}

pub parity : (c : ℕ) → (c % 2 ≡ 0) ⊎ (c % 2 ≡ 1)
parity c = elim (dec_lt 0 (c % 2)) [ yes h ↦ inr (omega arith) | no h ↦ inl (omega arith) ]

pub div_monotone : (u v m : ℕ) → u ≤ v → u / m ≤ v / m
div_monotone u v zero l = omega (arith, div-zero u, div-zero v)
div_monotone u v (suc m) l =
    (le-div_iff_mul-le {k = suc m} {x = u / suc m} {y = v} (omega arith)).1
      (omega (arith, div-mul-le_self u (suc m)))

-- Numbers with one remainder are a multiple apart.
pub same_mod : (u v m : ℕ) → u ≤ v → u % m ≡ v % m → (q : ℕ) × (v ≡ u + m * q)
same_mod u v m l e =
    let t = v / m - u / m in
    let apart : v / m ≡ u / m + t = omega (arith, div_monotone u v m l) in
    let spread : m * (v / m) ≡ m * (u / m) + m * t =
      ap (λ (x : ℕ). m * x) apart ∙ mul-add m (u / m) t in
    (t, omega (arith, div-add-mod u m, div-add-mod v m, spread))

times_odd : (d c : ℕ) → c % 2 ≡ 1 → d * c ≡ 2 * (d * (c / 2)) + d
times_odd d c o = ap (λ (x : ℕ). d * x) (odd_parts c o) ∙ grind arith
  where
    odd_parts : (c : ℕ) → c % 2 ≡ 1 → c ≡ 2 * (c / 2) + 1
    odd_parts c o = omega arith

double_pow : (k q : ℕ) → 2 ^ suc k * q ≡ 2 * (2 ^ k * q)
double_pow k q = let double = pow-suc 2 k in grind arith

sum_back : (x y : ℕ) → x ≤ y → y ≡ x + (y - x)
sum_back x y l = omega arith

le_total : (x y : ℕ) → (x ≤ y) ⊎ (y ≤ x)
le_total x y = elim (dec_lt x y) [ yes h ↦ inl (omega arith) | no h ↦ inr (omega arith) ]

-- A multiple of `m` below `m` is 0.
none_below : (d m t : ℕ) → d ≡ m * t → d < m → d ≡ 0
none_below d m zero e l = omega arith
none_below d m (suc t) e l = absurd (omega (arith, mul-add m 1 t))

-- If 2 ^ k divides d * c and c is odd, then it divides d.
pub odd_cancel : (k d c q : ℕ) → c % 2 ≡ 1 → d * c ≡ 2 ^ k * q → (t : ℕ) × (d ≡ 2 ^ k * t)
odd_cancel zero d c q o h = (d, omega arith)
odd_cancel (suc k) d c q o h =
    let whole = double_pow k q in
    let unfolded = times_odd d c o in
    let half = d / 2 in
    let even : d ≡ half * 2 = omega arith in
    let halves : d * c ≡ 2 * (half * c) = ap (λ (x : ℕ). x * c) even ∙ grind arith in
    let (t, e) = odd_cancel k half c q o (omega arith) in (t, omega (arith, double_pow k t))

-- A line of odd slope meets no value twice below 2 ^ k.
line_apart :
    (k c b x y : ℕ)
    → c % 2 ≡ 1
    → x ≤ y
    → y < 2 ^ k
    → (x * c + b) % 2 ^ k ≡ (y * c + b) % 2 ^ k
    → x ≡ y
line_apart k c b x y o l fits e =
    let d = y - x in
    let apart : y * c ≡ x * c + d * c = ap (λ (t : ℕ). t * c) (sum_back x y l) ∙ add-mul x d c in
    let (q, far) = same_mod (x * c + b) (y * c + b) (2 ^ k) (omega arith) e in
    let (t, multiple) = odd_cancel k d c q o (omega arith) in
    let zero_apart = none_below d (2 ^ k) t multiple (omega arith) in omega (arith, sum_back x y l)

pub even_square : (x : ℕ) → x * x + x ≡ 2 * ((x * x + x) / 2)
even_square x = elim (parity x) [
  | inl e ↦
      let h = x / 2 in
      let whole : x ≡ 2 * h = omega arith in
      let split : x * x ≡ x * (2 * h) = ap (λ (t : ℕ). x * t) whole in
      let twice : x * (2 * h) ≡ 2 * (x * h) = grind arith in
      let square : x * x + x ≡ 2 * (x * h + h) = omega arith in omega arith
  | inr o ↦
      let h = x / 2 in
      let square : x * x + x ≡ 2 * (x * h + x) = grind (arith, times_odd x x o) in omega arith
]

square_shift : (x d : ℕ) → (x + d) * (x + d) + (x + d) ≡ x * x + x + d * (2 * x + d + 1)
square_shift x d = grind arith

-- Triangular numbers with one remainder by 2 ^ k: what the distance of the two is a factor of.
triangle_factor :
    (k x d : ℕ)
    → (x * x + x) / 2 % 2 ^ k ≡ ((x + d) * (x + d) + (x + d)) / 2 % 2 ^ k
    → (q : ℕ) × (d * (2 * x + d + 1) ≡ 2 ^ suc k * q)
triangle_factor k x d e =
    let shift = square_shift x d in
    let (q, far) =
      same_mod ((x * x + x) / 2) (((x + d) * (x + d) + (x + d)) / 2) (2 ^ k) (omega arith) e in
    (q, omega (arith, double_pow k q, even_square x, even_square (x + d), shift))

triangle_still :
    (k x d : ℕ)
    → x + d < 2 ^ k
    → (x * x + x) / 2 % 2 ^ k ≡ ((x + d) * (x + d) + (x + d)) / 2 % 2 ^ k
    → d ≡ 0
triangle_still k x d fits e =
    let (q, factors) = triangle_factor k x d e in
    elim (parity d) [
      | inl even ↦
          let (t, multiple) = odd_cancel (suc k) d (2 * x + d + 1) q (omega arith) factors in
          none_below d (2 ^ suc k) t multiple (omega (arith, pow-suc 2 k))
      | inr odd ↦
          let turned = mul_comm (2 * x + d + 1) d ∙ factors in
          let (t, multiple) = odd_cancel (suc k) (2 * x + d + 1) d q odd turned in
          let nothing =
            none_below (2 * x + d + 1) (2 ^ suc k) t multiple (omega (arith, pow-suc 2 k)) in
          absurd (omega arith)
    ]

-- Nor does a triangular number.
triangle_apart :
    (k x y : ℕ) → x ≤ y → y < 2 ^ k → (x * x + x) / 2 % 2 ^ k ≡ (y * y + y) / 2 % 2 ^ k → x ≡ y
triangle_apart k x y l fits e =
    let back = sum_back x y l in
    let still =
      triangle_still k x (y - x) (omega arith) (e ∙ ap (λ (t : ℕ). (t * t + t) / 2 % 2 ^ k) back) in
    omega arith

-- Both are one to one.
pub line_injective :
    (k c b x y : ℕ)
    → c % 2 ≡ 1
    → x < 2 ^ k
    → y < 2 ^ k
    → (x * c + b) % 2 ^ k ≡ (y * c + b) % 2 ^ k
    → x ≡ y
line_injective k c b x y o p q e = elim (le_total x y) [
  | inl l ↦ line_apart k c b x y o l q e
  | inr l ↦ sym (line_apart k c b y x o l p (sym e))
]

pub triangle_injective :
    (k x y : ℕ) → x < 2 ^ k → y < 2 ^ k → (x * x + x) / 2 % 2 ^ k ≡ (y * y + y) / 2 % 2 ^ k → x ≡ y
triangle_injective k x y p q e = elim (le_total x y) [
  | inl l ↦ triangle_apart k x y l q e
  | inr l ↦ sym (triangle_apart k y x l p (sym e))
]
