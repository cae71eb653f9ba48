-- ===== src/Verifiable/Kernels/Cover.antt =====
-- The threads of a kernel in verifiable/verifiable.cu take every element once.
use native.Mathlib.Nat.{div-add-mod, mod-lt, add-mul, le_refl, add_assoc, mul-le-mul_right}
use nccl_tests.Prelude.{
  ℕ, zero, suc, ◌+◌, ◌-◌, ◌/◌, ◌%◌, ◌<◌, ◌≤◌, ◌≡◌, ◌∙◌, ◌⊎◌, inl, inr, refl, sym, ap, arith, false,
  ltb, lt→ltb, dec_lt, if◌then◌else◌, Bool-cases, List, [], ◌∷◌,
}
use nccl_tests.Prelude.Sums.{sum, sum_same, sum_parts, sum-add, sum_zero, value_at}
use nccl_tests.Verifiable.Kernels.{block_start, rounds, thread_elements}

-- A sum over a list of elements.
abbrev pub over : (f : ℕ → ℕ) → List ℕ → ℕ
over f [] = 0
over f (i ∷ l) = f i + over f l

-- The terms below `m` are all there are.
first_round :
    (g : ℕ → ℕ) (l m n : ℕ)
    → (n ≤ l)
    → (n ≤ m)
    → ((n ≡ l) ⊎ (n ≡ m))
    → sum (λ t. if ltb t l then g t else 0) m ≡ sum g n
first_round g l zero n a b c = omega (arith, value_at (sum g) n 0 (omega arith))
first_round g l (suc m) n a b c = elim (Bool-cases (ltb m l)) [
  | inl inside ↦
      let all : n ≡ suc m = ground arith in
      let before = first_round g l m m (ground arith) (le_refl m) (inr refl) in
      rw inside (omega (arith, value_at (sum g) n (suc m) all))
  | inr beyond ↦
      let all : n ≡ l = ground arith in
      let before = first_round g l m n a (ground arith) (inl all) in rw beyond (omega arith)
]

rounds-none : (fuel i i1 step : ℕ) → i1 ≤ i → rounds fuel i i1 step ≡ []
unfolding rounds
rounds-none zero i i1 step l = refl
rounds-none (suc fuel) i i1 step l = let past : ltb i i1 ≡ false = ground arith in rw past

same_test : (i0 i1 t : ℕ) → ltb (i0 + t) i1 ≡ ltb t (i1 - i0)
same_test i0 i1 t = elim (Bool-cases (ltb (i0 + t) i1)) [
  | inl e ↦ e ∙ sym (lt→ltb t (i1 - i0) (ground arith))
  | inr e ↦ let other : ltb t (i1 - i0) ≡ false = ground arith in e ∙ sym other
]

moved : (i0 t step : ℕ) → i0 + t + step ≡ i0 + step + t
moved i0 t step = omega arith

module _ (f : ℕ → ℕ) (step : ℕ) (positive : 0 < step) where
  rounds-suc :
      (fuel i i1 : ℕ)
      → over f (rounds (suc fuel) i i1 step)
        ≡ (if ltb i i1 then f i else 0) + over f (rounds fuel (i + step) i1 step)
  unfolding rounds
  rounds-suc fuel i i1 = elim (Bool-cases (ltb i i1)) [
    | inl inside ↦ rw inside refl
    | inr beyond ↦
        let none_left = ap (over f) (rounds-none fuel (i + step) i1 step (ground arith)) in
        rw beyond (omega arith)
  ]

  nobody : (fuel i0 i1 m : ℕ) → i1 ≤ i0 → sum (λ t. over f (rounds fuel (i0 + t) i1 step)) m ≡ 0
  nobody fuel i0 i1 m l =
      sum_same (λ t. over f (rounds fuel (i0 + t) i1 step)) (λ t. 0) m
        (λ t k. ap (over f) (rounds-none fuel (i0 + t) i1 step (omega arith)))
      ∙ sum_zero m

  -- A round of all the threads.
  one_round :
      (fuel i0 i1 : ℕ)
      → sum (λ t. over f (rounds (suc fuel) (i0 + t) i1 step)) step
        ≡ sum (λ t. if ltb t (i1 - i0) then f (i0 + t) else 0) step
          + sum (λ t. over f (rounds fuel (i0 + step + t) i1 step)) step
  one_round fuel i0 i1 =
      sum_same (λ t. over f (rounds (suc fuel) (i0 + t) i1 step))
        (λ t.
          (if ltb t (i1 - i0) then f (i0 + t) else 0)
          + over f (rounds fuel (i0 + step + t) i1 step))
        step
        (λ t l.
          rounds-suc fuel (i0 + t) i1
          ∙ rw (same_test i0 i1 t) (
              ap (λ z. (if ltb t (i1 - i0) then f (i0 + t) else 0) + over f (rounds fuel z i1 step))
                (moved i0 t step)))
      ∙ sum-add (λ t. if ltb t (i1 - i0) then f (i0 + t) else 0)
          (λ t. over f (rounds fuel (i0 + step + t) i1 step)) step

  -- The threads of a block take the elements from `i0` to `i1`.
  block_sum :
      (fuel i0 i1 : ℕ)
      → i1 - i0 ≤ fuel
      → sum (λ t. over f (rounds fuel (i0 + t) i1 step)) step ≡ sum (λ j. f (i0 + j)) (i1 - i0)
  block_sum zero i0 i1 enough = omega (
    arith,
    nobody zero i0 i1 step (omega arith),
    value_at (sum (λ j. f (i0 + j))) (i1 - i0) 0 (omega arith),
  )
  block_sum (suc fuel) i0 i1 enough = elim (dec_lt (i1 - i0) step) [
    | yes short ↦ omega (
      arith,
      one_round fuel i0 i1,
      first_round (λ t. f (i0 + t)) (i1 - i0) step (i1 - i0) (le_refl _) (omega arith) (inl refl),
      nobody fuel (i0 + step) i1 step (omega arith),
    )
    | no long ↦
        let rest = i1 - (i0 + step) in
        let later = block_sum fuel (i0 + step) i1 (omega arith) in
        let regrouped =
          sum_same (λ j. f (i0 + step + j)) (λ j. f (i0 + (step + j))) rest
            (λ j l. ap f (add_assoc i0 step j)) in
        omega (
          arith,
          one_round fuel i0 i1,
          first_round (λ t. f (i0 + t)) (i1 - i0) step step (omega arith) (le_refl _) (inr refl),
          sum_parts (λ j. f (i0 + j)) step rest,
          value_at (sum (λ j. f (i0 + j))) (i1 - i0) (step + rest) (omega arith),
        )
  ]

start-monotone : (n g b : ℕ) → block_start n g b ≤ block_start n g (b + 1)
start-monotone n g b = let more = add-mul b 1 (n / g) in ground arith

start-zero : (n g : ℕ) → block_start n g 0 ≡ 0
start-zero n g = ground arith

next : (b : ℕ) → suc b ≡ b + 1
next b = omega arith

onward : (a c : ℕ) → a ≤ c → c ≡ a + (c - a)
onward a c l = omega arith

size-le : (n g b : ℕ) → 0 < g → block_start n g (b + 1) - block_start n g b ≤ n
size-le n g b h =
    let more = add-mul b 1 (n / g) in
    let whole = div-add-mod n g in let share = mul-le-mul_right (n / g) h in ground arith

-- The last block ends with the last element.
start-end : (n g : ℕ) → 0 < g → block_start n g g ≡ n
start-end n g h =
    let whole = div-add-mod n g in
    let part = mod-lt n h in
    let past : ltb g (n % g) ≡ false = ground arith in rw past (omega arith)

blocks_sum :
    (f : ℕ → ℕ) (n g b : ℕ)
    → sum
        (λ block.
          sum
            (λ j. f (block_start n g block + j))
            (block_start n g (block + 1) - block_start n g block))
        b
      ≡ sum f (block_start n g b)
blocks_sum f n g zero = sym (value_at (sum f) (block_start n g 0) 0 (start-zero n g))
blocks_sum f n g (suc b) =
    let before = blocks_sum f n g b in
    let here = start-monotone n g b in
    let size = block_start n g (b + 1) - block_start n g b in
    omega (
      arith,
      sum_parts f (block_start n g b) size,
      value_at (sum f) (block_start n g (suc b)) (block_start n g b + size) (
          ap (block_start n g) (next b)
          ∙ onward (block_start n g b) (block_start n g (b + 1)) here),
    )

-- Over all the threads of all the blocks, each element is taken once.
pub threads_cover :
    (f : ℕ → ℕ) (n g step : ℕ)
    → 0 < g
    → 0 < step
    → sum (λ block. sum (λ thread. over f (thread_elements n g step block thread)) step) g ≡ sum f n
unfolding thread_elements
threads_cover f n g step h positive =
    sum_same (λ block. sum (λ thread. over f (thread_elements n g step block thread)) step)
      (λ block.
        sum (λ j. f (block_start n g block + j))
          (block_start n g (block + 1) - block_start n g block))
      g
      (λ block l.
        block_sum f step positive n (block_start n g block) (block_start n g (block + 1))
          (size-le n g block h))
    ∙ blocks_sum f n g g
    ∙ ap (sum f) (start-end n g h)
