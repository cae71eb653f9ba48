-- ===== src/Verifiable/Kernels.antt =====
-- The kernels of verifiable/verifiable.cu: how blocks and threads share the elements, what they write, and what
-- they count. The blocks and threads run in any order; `fuel` bounds the rounds of a thread.
pub mod Cover
pub mod Verify
mod Tests
use nccl_tests.Prelude.{
  ℕ, zero, suc, ◌+◌, ◌-◌, ◌*◌, ◌/◌, ◌%◌, ◌^◌, min, Bool, true, false, ◌||◌, ◌&&◌, Option, none,
  some, ltb, ◌==◌, if◌then◌else◌, List, [], ◌∷◌, ◌++◌,
}
use nccl_tests.Prelude.Sums.{sum}

-- `i0` of a block, and `i1` of the block before it.
abbrev pub block_start : (elt_n blocks block : ℕ) → ℕ
block_start elt_n blocks block =
    block * (elt_n / blocks) + (if ltb block (elt_n % blocks) then block else elt_n % blocks)

-- The rounds of a thread: the elements from `i` to `i1`, `step` apart.
unfoldable pub rounds : (fuel i i1 step : ℕ) → List ℕ
rounds zero i i1 step = []
rounds (suc fuel) i i1 step =
    let rest = i ∷ rounds fuel (i + step) i1 step in if ltb i i1 then rest else []

-- The elements of one thread.
unfoldable pub thread_elements : (elt_n blocks threads block thread : ℕ) → List ℕ
thread_elements elt_n blocks threads block thread =
    rounds elt_n (block_start elt_n blocks block + thread) (block_start elt_n blocks (block + 1))
      threads

-- `grid.x` and `block_n`: no more than 32 blocks, of four rounds each if there are fewer.
abbrev pub grid : (elt_n : ℕ) → ℕ
grid elt_n = min 32 ((elt_n + 4 * 512 - 1) / (4 * 512))

-- A write of `elts[i]`; a memory is a function of the index.
abbrev pub written : (value : ℕ → ℕ) → List ℕ → (ℕ → ℕ) → (ℕ → ℕ)
written value [] elts = elts
written value (i ∷ l) elts = written value l (λ j. if j == i then value i else elts j)

-- The distance of result and expectation as unsigned words.
abbrev pub delta : (a b : ℕ) → ℕ
delta a b = if ltb a b then b - a else a - b

abbrev pub is_bad : (tolerance a b : ℕ) → ℕ
is_bad tolerance a b = if ltb tolerance (delta a b) then 1 else 0

-- `bad` of a thread, behind its loop.
unfoldable pub thread_bad : (results expected : ℕ → ℕ) → (tolerance bad : ℕ) → List ℕ → ℕ
thread_bad results expected tolerance bad [] = bad
thread_bad results expected tolerance bad (i ∷ l) =
    thread_bad results expected tolerance (bad + is_bad tolerance (results i) (expected i)) l

-- What all the threads add to `*bad_elt_n`.
unfoldable pub all_bad : (results expected : ℕ → ℕ) → (tolerance elt_n blocks threads : ℕ) → ℕ
all_bad results expected tolerance elt_n blocks threads =
    sum
      (λ block.
        sum
          (λ thread.
            thread_bad results expected tolerance 0
              (thread_elements elt_n blocks threads block thread))
          threads)
      blocks

-- `*bad_elt_n` behind `ncclVerifiableVerify`: it is set to 0, and no blocks are no launch.
unfoldable pub verify : (results expected : ℕ → ℕ) → (tolerance elt_n : ℕ) → ℕ
verify results expected tolerance elt_n =
    if grid elt_n == 0
    then 0
    else all_bad results expected tolerance elt_n (grid elt_n) 512 % 2 ^ 64
