-- ===== src/Collectives/Fit.antt =====
-- The buffers of src/common.cu hold what each collective sends and receives, also in place.
use nccl_tests.Prelude.{
  ℕ, suc, ◌+◌, ◌-◌, ◌*◌, ◌/◌, ◌%◌, ◌^◌, ◌<◌, ◌≤◌, ◌≡◌, sym, ap, ◌∙◌, max, arith,
}
use native.Mathlib.Nat.{
  mul_comm, mul_assoc, suc-mul, le-mul_of_pos_right, mul-le-mul_right, div-mul-le_self,
}
use nccl_tests.Collectives.{
  times, base_count, Collective, all_gather, all_reduce, alltoall, broadcast, gather, hypercube,
  reduce, reduce_scatter, scatter, sendrecv, Sizes, setup_args,
}

-- What `wordSize` of src/common.h returns for the types of NCCL.
pub data IsWordSize : ℕ → Type 0 where
  one : IsWordSize 1
  two : IsWordSize 2
  four : IsWordSize 4
  eight : IsWordSize 8

-- The place of rank `r` in a buffer used in place begins `r` offsets behind its start.
pub record Fits (size nranks : ℕ) (s : Sizes) : Type 0 where
  pub send_fits : s.send_bytes ≤ size
  pub recv_fits : s.expected_bytes ≤ size
  pub param_fits : s.nbytes ≤ size
  pub send_in_place :
      (r : ℕ)
      → r < nranks
      → r * s.send_inplace_offset + s.send_bytes ≤ max s.send_bytes s.expected_bytes
  pub recv_in_place :
      (r : ℕ)
      → r < nranks
      → r * s.recv_inplace_offset + s.expected_bytes ≤ max s.send_bytes s.expected_bytes
  pub send_aligned : s.send_inplace_offset % 16 ≡ 0
  pub recv_aligned : s.recv_inplace_offset % 16 ≡ 0

base-whole : (b w : ℕ) → IsWordSize w → (b - b % (16 / w)) * w % 16 ≡ 0
base-whole b w one = omega arith
base-whole b w two = omega arith
base-whole b w four = omega arith
base-whole b w eight = omega arith

times-small : (a b : ℕ) → a * b < 2 ^ 64 → times a b ≡ a * b
times-small a b h = omega arith

module _ (size w n : ℕ) (word : IsWordSize w) (some_ranks : 0 < n) (small : size < 2 ^ 64) where
  abbrev base : ℕ
  base = base_count (size / w) w n

  all_ranks : base * n ≤ size / w
  all_ranks =
      let l : base ≤ size / w / n = omega arith in
      let m = mul-le-mul_right n l in let k = div-mul-le_self (size / w) n in omega arith

  whole_bytes : size / w * w ≤ size
  whole_bytes = div-mul-le_self size w

  in_bytes : base * n * w ≤ size
  in_bytes = let m = mul-le-mul_right w all_ranks in let k = whole_bytes in omega arith

  -- The place of the last rank ends with the buffer.
  last_place : (r : ℕ) → r < n → r * (base * w) + base * w ≤ base * n * w
  last_place r h =
      let d : ℕ = base * w in
      let e : n * d ≡ base * n * w = sym (mul_assoc n base w) ∙ ap (λ x. x * w) (mul_comm n base) in
      let m : suc r * d ≤ n * d = mul-le-mul_right d h in
      let s : suc r * d ≡ r * d + d = suc-mul r d in omega arith

  one_place : base * w ≤ base * n * w
  one_place = let h = last_place 0 some_ranks in omega arith

  place_aligned : base * w % 16 ≡ 0
  place_aligned = base-whole (size / w / n) w word

  word_positive : 0 < w
  word_positive = positive word
    where
      positive : {v : ℕ} → IsWordSize v → 0 < v
      positive one = omega arith
      positive two = omega arith
      positive four = omega arith
      positive eight = omega arith

  ranks_small : base * n < 2 ^ 64
  ranks_small =
      let a = in_bytes in let b = le-mul_of_pos_right (base * n) word_positive in omega arith

  send_bytes_all : times (times base n) w ≡ base * n * w
  send_bytes_all =
      let a = in_bytes in
      ap (λ x. times x w) (times-small base n ranks_small) ∙ times-small (base * n) w (omega arith)

  place_bytes : times base w ≡ base * w
  place_bytes = let a = in_bytes in let b = one_place in times-small base w (omega arith)

  alltoall_bytes : times (times n base) w ≡ base * n * w
  alltoall_bytes = ap (λ x. times (x % 2 ^ 64) w) (mul_comm n base) ∙ send_bytes_all

  whole_times : times (size / w) w ≡ size / w * w
  whole_times = let a = whole_bytes in times-small (size / w) w (omega arith)

  zero_times : times 0 w ≡ 0
  zero_times = omega arith

  -- A place used in place, and a buffer used from its start; the limits are what the claims compare with.
  in_place :
      {place all limit : ℕ}
      → all ≡ base * n * w
      → place ≡ base * w
      → all ≤ limit
      → (r : ℕ) → r < n
      → r * place + place ≤ limit
  in_place {place} e f b r h = let l = last_place r h in let g = ap (λ x. r * x) f in omega arith

  from_start :
      {offset bytes limit : ℕ}
      → offset ≡ 0
      → bytes ≤ limit
      → (r : ℕ) → r < n
      → r * offset + bytes ≤ limit
  from_start {offset} e b r h = let g : r * offset ≡ r * 0 = ap (λ x. r * x) e in omega arith

  whole-Fits : Fits size n (setup_args all_reduce size w n)
  unfolding setup_args
  whole-Fits =
      let i = whole_bytes in
      record {
        send_fits = omega (arith, whole_times);
        recv_fits = omega (arith, whole_times);
        param_fits = omega (arith, whole_times);
        send_in_place = from_start zero_times (omega arith);
        recv_in_place = from_start zero_times (omega arith);
        send_aligned = omega arith;
        recv_aligned = omega arith;
      }

  gather-Fits : Fits size n (setup_args all_gather size w n)
  unfolding setup_args
  gather-Fits =
      let i = in_bytes in
      let o = one_place in
      record {
        send_fits = omega (arith, place_bytes);
        recv_fits = omega (arith, send_bytes_all);
        param_fits = omega (arith, place_bytes);
        send_in_place = in_place send_bytes_all place_bytes (omega arith);
        recv_in_place = from_start zero_times (omega arith);
        send_aligned = ap (λ x. x % 16) place_bytes ∙ place_aligned;
        recv_aligned = omega arith;
      }

  scatter-Fits : Fits size n (setup_args scatter size w n)
  unfolding setup_args
  scatter-Fits =
      let i = in_bytes in
      let o = one_place in
      record {
        send_fits = omega (arith, send_bytes_all);
        recv_fits = omega (arith, place_bytes);
        param_fits = omega (arith, place_bytes);
        send_in_place = from_start zero_times (omega arith);
        recv_in_place = in_place send_bytes_all place_bytes (omega arith);
        send_aligned = omega arith;
        recv_aligned = ap (λ x. x % 16) place_bytes ∙ place_aligned;
      }

  alltoall-Fits : Fits size n (setup_args alltoall size w n)
  unfolding setup_args
  alltoall-Fits =
      let i = in_bytes in
      let o = one_place in
      record {
        send_fits = omega (arith, alltoall_bytes);
        recv_fits = omega (arith, alltoall_bytes);
        param_fits = omega (arith, place_bytes);
        send_in_place = from_start zero_times (omega arith);
        recv_in_place = from_start zero_times (omega arith);
        send_aligned = omega arith;
        recv_aligned = omega arith;
      }

-- For each of the collectives but alltoallv, a type of 1, 2, 4 or 8 bytes, any number of ranks
-- above zero and any size of 64 bits, what is sent and what is received fits the size; used in
-- place, the part of each rank lies within the larger buffer, and begins at a multiple of 16
-- bytes.
pub setup_args-Fits :
    (coll : Collective) (size w n : ℕ)
    → IsWordSize w
    → 0 < n
    → size < 2 ^ 64
    → Fits size n (setup_args coll size w n)
unfolding setup_args
setup_args-Fits all_gather size w n word ranks small = gather-Fits size w n word ranks small
setup_args-Fits gather size w n word ranks small = gather-Fits size w n word ranks small
setup_args-Fits hypercube size w n word ranks small = gather-Fits size w n word ranks small
setup_args-Fits all_reduce size w n word ranks small = whole-Fits size w n word ranks small
setup_args-Fits broadcast size w n word ranks small = whole-Fits size w n word ranks small
setup_args-Fits reduce size w n word ranks small = whole-Fits size w n word ranks small
setup_args-Fits sendrecv size w n word ranks small = whole-Fits size w n word ranks small
setup_args-Fits reduce_scatter size w n word ranks small = scatter-Fits size w n word ranks small
setup_args-Fits scatter size w n word ranks small = scatter-Fits size w n word ranks small
setup_args-Fits alltoall size w n word ranks small = alltoall-Fits size w n word ranks small
