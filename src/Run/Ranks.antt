-- ===== src/Run/Ranks.antt =====
-- The ranks that `run`, `initComms` and `startColl` of src/common.cu give the GPUs.
use nccl_tests.Prelude.{
  ℕ, zero, suc, ◌+◌, ◌*◌, ◌/◌, ◌%◌, ◌^◌, ◌<◌, ◌≤◌, some, get_elem?, ◌≡◌, sym, ap, ◌∙◌, arith,
}
use native.Mathlib.Nat.{
  mul_comm, mul_assoc, add-mul, mul-le-mul_right, suc-mul, mod-eq_of_lt, div-eq_of_lt,
  mul-add-mod_self_right, mul-add-div_right,
}
use nccl_tests.Launch.{int_times, rank_of}
use nccl_tests.Run.{init_comms, process_comms, setup_ranks, slice}

-- The ranks where no `int` comes round.
abbrev plain_rank : (p threads t gpus g : ℕ) → ℕ
plain_rank p threads t gpus g = (p * threads + t) * gpus + g

get_elem?-init_comms :
    (first i n k : ℕ)
    → k < n
    → first + (i + n) < 2 ^ 32
    → get_elem? (init_comms first i n) k ≡ some (first + (i + k))
get_elem?-init_comms first i zero k h b = elim h [ ]
get_elem?-init_comms first i (suc n) zero h b = ap some (omega arith)
get_elem?-init_comms first i (suc n) (suc k) h b =
    get_elem?-init_comms first (suc i) n k (omega arith) (omega arith)
    ∙ ap (λ x. some (first + x)) (omega arith)

le-times : (x g : ℕ) → 0 < g → x ≤ x * g
le-times x zero h = absurd (omega arith)
le-times x (suc g) h = omega (arith, mul_comm x (suc g), suc-mul g x)

module _ (procs threads gpus : ℕ) where
  slice_within : (t g : ℕ) → t < threads → g < gpus → slice gpus t + g < gpus * threads
  slice_within t g h l =
      let a : suc t * gpus ≤ threads * gpus = mul-le-mul_right gpus h in
      omega (arith, suc-mul t gpus, mul_comm gpus threads)

  -- The rank of `startColl` is the one of the communicator.
  rank_same : (p t g : ℕ) → p * threads * gpus + (slice gpus t + g) ≡ plain_rank p threads t gpus g
  rank_same p t g = omega (arith, add-mul (p * threads) t gpus)

  -- The ranks of a process are followed by those of the next.
  process_below : (p : ℕ) → p < procs → p * threads * gpus + gpus * threads ≤ procs * threads * gpus
  process_below p h =
      let a : suc p * (threads * gpus) ≤ procs * (threads * gpus) =
        mul-le-mul_right (threads * gpus) h in
      omega (
        arith,
        suc-mul p (threads * gpus),
        mul_assoc p threads gpus,
        mul_assoc procs threads gpus,
        mul_comm gpus threads,
      )

  rank_below :
      (p t g : ℕ)
      → p < procs
      → t < threads
      → g < gpus
      → plain_rank p threads t gpus g < procs * threads * gpus
  rank_below p t g h l k = omega (arith, process_below p h, slice_within t g l k, rank_same p t g)

  ranks_same : procs * gpus * threads ≡ procs * threads * gpus
  ranks_same =
      mul_assoc procs gpus threads
      ∙ ap (λ x. procs * x) (mul_comm gpus threads)
      ∙ sym (mul_assoc procs threads gpus)

  -- No product of the ranks comes round.
  module _ (narrow : procs * threads * gpus < 2 ^ 31) where
    rank_of_lem :
        (p t g : ℕ)
        → p < procs
        → t < threads
        → g < gpus
        → rank_of p threads t gpus g ≡ plain_rank p threads t gpus g
    rank_of_lem p t g h l k =
        let below = rank_below p t g h l k in
        let one = le-times (p * threads + t) gpus (omega arith) in
        rw
          (
            mod-eq_of_lt {n = p * threads} {m = 2 ^ 32} (omega arith),
            mod-eq_of_lt {n = p * threads + t} {m = 2 ^ 32} (omega arith),
            mod-eq_of_lt {n = (p * threads + t) * gpus} {m = 2 ^ 32} (omega arith),
          )
          (mod-eq_of_lt (omega arith))

    setup_ranks_lem : 0 < threads → setup_ranks procs threads gpus ≡ procs * threads * gpus
    setup_ranks_lem h =
        let one = le-times (procs * gpus) threads h in
        rw (mod-eq_of_lt {n = procs * gpus} {m = 2 ^ 32} (omega (arith, ranks_same)))
          (mod-eq_of_lt (omega (arith, ranks_same)) ∙ ranks_same)

    first_rank_lem :
        (p : ℕ) → p < procs → 0 < gpus → int_times (int_times p threads) gpus ≡ p * threads * gpus
    first_rank_lem p h k =
        let one = le-times (p * threads) gpus k in
        let below = process_below p h in
        rw (mod-eq_of_lt {n = p * threads} {m = 2 ^ 32} (omega arith)) (mod-eq_of_lt (omega arith))

    comms_lem : (p : ℕ) → p < procs → int_times gpus threads ≡ gpus * threads
    comms_lem p h = let below = process_below p h in mod-eq_of_lt (omega arith)

    communicator_lem :
        (p t g : ℕ)
        → p < procs
        → t < threads
        → g < gpus
        → get_elem? (process_comms p threads gpus) (slice gpus t + g)
          ≡ some (plain_rank p threads t gpus g)
    unfolding process_comms
    communicator_lem p t g h l k =
        let below = process_below p h in
        rw (first_rank_lem p h (omega arith), comms_lem p h)
          (get_elem?-init_comms (p * threads * gpus) 0 (gpus * threads) (slice gpus t + g)
              (slice_within t g l k) (omega arith)
            ∙ ap some (omega (arith, rank_same p t g)))

-- The process, the thread and the GPU that a rank comes from.
abbrev pub place_of : (threads gpus r : ℕ) → ℕ × ℕ × ℕ
place_of threads gpus r = (r / gpus / threads, r / gpus % threads, r % gpus)

-- The parts of a number in two places.
quotient : (x y m : ℕ) → y < m → (x * m + y) / m ≡ x
quotient x y m h =
    mul-add-div_right (omega arith) x y ∙ ap (λ q. x + q) (div-eq_of_lt h) ∙ omega arith

remainder : (x y m : ℕ) → y < m → (x * m + y) % m ≡ y
remainder x y m h = mul-add-mod_self_right x m y ∙ mod-eq_of_lt h

place-plain_rank :
    (threads gpus p t g : ℕ)
    → t < threads
    → g < gpus
    → place_of threads gpus (plain_rank p threads t gpus g) ≡ (p, t, g)
place-plain_rank threads gpus p t g l k =
    ap (λ x. (x / threads, x % threads, plain_rank p threads t gpus g % gpus))
      (quotient (p * threads + t) g gpus k)
    ∙ ap (λ x. (x, (p * threads + t) % threads, plain_rank p threads t gpus g % gpus))
        (quotient p t threads l)
    ∙ ap (λ x. (p, x, plain_rank p threads t gpus g % gpus)) (remainder p t threads l)
    ∙ ap (λ x. (p, t, x)) (remainder (p * threads + t) g gpus k)

-- The rank of a GPU of a thread of a process.
pub record Ranked (procs threads gpus p t g : ℕ) : Type 0 where
  pub communicator :
      get_elem? (process_comms p threads gpus) (slice gpus t + g)
      ≡ some (rank_of p threads t gpus g)
  pub below : rank_of p threads t gpus g < setup_ranks procs threads gpus
  pub place : place_of threads gpus (rank_of p threads t gpus g) ≡ (p, t, g)

-- For any numbers of processes, threads and GPUs whose product is less than 2^31, and any GPU of a
-- thread of a process: with the products and sums of int, the communicator in the thread's slice
-- has the rank that startColl computes, this rank is below the number of ranks that setupArgs
-- counts, and no other GPU, thread or process has it, since it tells all three.
pub run-Ranked :
    (procs threads gpus p t g : ℕ)
    → procs * threads * gpus < 2 ^ 31
    → p < procs
    → t < threads
    → g < gpus
    → Ranked procs threads gpus p t g
run-Ranked procs threads gpus p t g narrow h l k =
    let rank = rank_of_lem procs threads gpus narrow p t g h l k in
    record {
      communicator = communicator_lem procs threads gpus narrow p t g h l k ∙ ap some (sym rank);
      below = omega (
        arith,
        rank,
        setup_ranks_lem procs threads gpus narrow (omega arith),
        rank_below procs threads gpus p t g h l k,
      );
      place = ap (place_of threads gpus) rank ∙ place-plain_rank threads gpus p t g l k;
    }
