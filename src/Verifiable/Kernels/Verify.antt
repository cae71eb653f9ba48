-- ===== src/Verifiable/Kernels/Verify.antt =====
-- `ncclVerifiableVerify` of verifiable/verifiable.cu counts the elements that are wrong, and the kernels that prepare
-- data write each element.
use native.Mathlib.Nat.{mod-eq_of_lt}
use nccl_tests.Prelude.{
  ℕ, ◌+◌, ◌*◌, ◌^◌, ◌<◌, ◌≤◌, ◌≡◌, ◌∙◌, inl, inr, refl, sym, ap, arith, ltb, ◌==◌, ==_iff,
  if◌then◌else◌, Bool-cases, List, [], ◌∷◌,
}
use nccl_tests.Prelude.Sums.{sum, sum_same, sum_one, sum_monotone, sum_picked, same, value_at}
use nccl_tests.Verifiable.Kernels.{
  grid, written, is_bad, thread_bad, all_bad, verify, thread_elements,
}
use nccl_tests.Verifiable.Kernels.Cover.{over, threads_cover}

thread_bad_lem :
    (results expected : ℕ → ℕ) (tolerance bad : ℕ) (l : List ℕ)
    → thread_bad results expected tolerance bad l
      ≡ bad + over (λ i. is_bad tolerance (results i) (expected i)) l
unfolding thread_bad
thread_bad_lem results expected tolerance bad [] = omega arith
thread_bad_lem results expected tolerance bad (i ∷ l) = omega (
  arith,
  thread_bad_lem results expected tolerance (bad + is_bad tolerance (results i) (expected i)) l,
)

nothing_before : (x : ℕ) → 0 + x ≡ x
nothing_before x = omega arith

pub all_bad_lem :
    (results expected : ℕ → ℕ) (tolerance elt_n blocks threads : ℕ)
    → 0 < blocks
    → 0 < threads
    → all_bad results expected tolerance elt_n blocks threads
      ≡ sum (λ i. is_bad tolerance (results i) (expected i)) elt_n
unfolding all_bad
all_bad_lem results expected tolerance elt_n blocks threads h positive =
    sum_same _ _ blocks (λ block l. sum_same _ _ threads (λ thread m.
      thread_bad_lem results expected tolerance 0
        (thread_elements elt_n blocks threads block thread)
      ∙ nothing_before _))
    ∙ threads_cover (λ i. is_bad tolerance (results i) (expected i)) elt_n blocks threads h positive

no_blocks : (n : ℕ) → grid n ≡ 0 → n ≡ 0
no_blocks n e = omega arith

bad-le : (tolerance a b : ℕ) → is_bad tolerance a b ≤ 1
bad-le tolerance a b = ground arith

-- For fewer than 2^63 elements, also none, the kernel counts over all its blocks and threads the
-- number of elements that are farther from the expected ones than the tolerance.
pub verify-counts :
    (results expected : ℕ → ℕ) (tolerance elt_n : ℕ)
    → elt_n < 2 ^ 63
    → verify results expected tolerance elt_n
      ≡ sum (λ i. is_bad tolerance (results i) (expected i)) elt_n
unfolding verify
verify-counts results expected tolerance elt_n l =
    let wrong = λ (i : ℕ). is_bad tolerance (results i) (expected i) in
    let few =
      sum_monotone wrong (λ i. 1) elt_n (λ i m. bad-le tolerance (results i) (expected i)) in
    let ones = sum_one elt_n in
    elim (Bool-cases (grid elt_n == 0)) [
      | inl e ↦
          rw e (sym (value_at (sum wrong) elt_n 0 (no_blocks elt_n ((==_iff (grid elt_n) 0).0 e))))
      | inr e ↦
          let total =
            all_bad_lem results expected tolerance elt_n (grid elt_n) 512 (ground arith)
              (omega arith) in
          rw (e, total) (mod-eq_of_lt (omega arith))
    ]

-- A memory behind a list of writes has the value at each index that is written.
written_lem :
    (value : ℕ → ℕ) (l : List ℕ) (elts : ℕ → ℕ) (j : ℕ)
    → written value l elts j ≡ (if over (λ i. same j i) l == 0 then elts j else value j)
written_lem value [] elts j = refl
written_lem value (i ∷ l) elts j = elim (Bool-cases (j == i)) [
  | inl here ↦
      let e = (==_iff j i).0 here in
      let rest = written_lem value l (λ k. if k == i then value i else elts k) j in
      let value_here : value i ≡ value j = ap value (sym e) in rest ∙ ground arith
  | inr there ↦
      let rest = written_lem value l (λ k. if k == i then value i else elts k) j in
      rest ∙ ground arith
]

by_test :
    (i n : ℕ) (value elts : ℕ → ℕ)
    → (if (if ltb i n then 1 else 0) == 0 then elts i else value i)
      ≡ (if ltb i n then value i else elts i)
by_test i n value elts = elim (Bool-cases (ltb i n)) [ inl e ↦ rw e | inr e ↦ rw e ]

once_below : (i n : ℕ) → sum (λ j. same i j) n ≡ (if ltb i n then 1 else 0)
once_below i n =
    sum_same (λ j. same i j) (λ j. 1 * same i j) n (λ j l. omega arith) ∙ sum_picked (λ j. 1) i n

-- With one block and one thread or more: however the writes of the threads are mixed, each of the
-- elements has its value afterwards and no other place is touched.
pub prepared :
    (value elts : ℕ → ℕ) (elt_n blocks threads : ℕ) (writes : List ℕ)
    → 0 < blocks
    → 0 < threads
    → ((i : ℕ)
        → over (λ j. same i j) writes
          ≡ sum
              (λ block.
                sum
                  (λ thread.
                    over (λ j. same i j) (thread_elements elt_n blocks threads block thread))
                  threads)
              blocks)
    → (i : ℕ) → written value writes elts i ≡ (if ltb i elt_n then value i else elts i)
prepared value elts elt_n blocks threads writes h positive mixed i =
    let times =
      mixed i
      ∙ threads_cover (λ j. same i j) elt_n blocks threads h positive
      ∙ once_below i elt_n in
    let memory = written_lem value writes elts i in memory ∙ rw times (by_test i elt_n value elts)
