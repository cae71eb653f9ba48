-- ===== src/Run/Memory.antt =====
-- The memory that the sizes of src/common.cu leave on a GPU.
use nccl_tests.Prelude.{
  ℕ, ◌+◌, ◌-◌, ◌*◌, ◌^◌, ◌<◌, ◌≤◌, Bool, true, false, inl, inr, ltb, if◌then◌else◌, ◌≡◌, refl, ◌⊎◌,
  arith,
}
use native.Mathlib.Nat.{div-mul-le_self, mul-le-mul_right}
use nccl_tests.Run.{gb, minus, reserve_mem, buffers, mem_max_bytes, limit_sizes}

-- With 2 GiB or more there is memory behind what is reserved.
reserve_mem_least :
    (max_mem : ℕ)
    → 2 * gb ≤ max_mem
    → max_mem + 16 * gb < 2 ^ 64
    → reserve_mem max_mem + 1 * gb ≤ max_mem
reserve_mem_least max_mem h l = omega arith

mem_max_bytes_room :
    (datacheck : Bool) (max_mem : ℕ)
    → 2 * gb ≤ max_mem
    → max_mem + 16 * gb < 2 ^ 64
    → mem_max_bytes datacheck max_mem * buffers datacheck + reserve_mem max_mem + 1 * gb ≤ max_mem
mem_max_bytes_room datacheck max_mem h l =
    let r = reserve_mem_least max_mem h l in
    let d =
      div-mul-le_self (minus (minus max_mem (reserve_mem max_mem)) (1 * gb)) (buffers datacheck) in
    let e : minus (minus max_mem (reserve_mem max_mem)) (1 * gb)
        ≡ max_mem - reserve_mem max_mem - 1 * gb =
      omega arith in
    omega arith

-- What the sizes are behind the test; `limit` is the largest that the memory allows.
pub record Limited (n rest max_mem limit min_bytes max_bytes : ℕ) (sizes : ℕ × ℕ) : Type 0 where
  pub room : sizes.1 * n + rest ≤ max_mem
  pub ordered : sizes.0 ≤ sizes.1
  pub no_larger : sizes.1 ≤ max_bytes
  pub kept : (limit < max_bytes) ⊎ (sizes ≡ (min_bytes, max_bytes))

cut_sizes :
    (n rest max_mem limit min_bytes max_bytes : ℕ)
    → limit * n + rest ≤ max_mem
    → min_bytes ≤ max_bytes
    → Limited n rest max_mem limit min_bytes max_bytes (
        if ltb limit max_bytes
        then (if ltb limit min_bytes then limit else min_bytes, limit)
        else (min_bytes, max_bytes))
cut_sizes n rest max_mem limit min_bytes max_bytes h o = cut (ltb limit max_bytes) refl
  where
    cut :
        (b : Bool)
        → ltb limit max_bytes ≡ b
        → Limited n rest max_mem limit min_bytes max_bytes (
            if b
            then (if ltb limit min_bytes then limit else min_bytes, limit)
            else (min_bytes, max_bytes))
    cut true e = record {
      room = h;
      ordered = ground arith;
      no_larger = ground arith;
      kept = inl (ground arith);
    }
    cut false e =
        let small : max_bytes ≤ limit = ground arith in
        let less = mul-le-mul_right n small in
        record { room = omega arith; ordered = o; no_larger = omega arith; kept = inr refl }

-- On a GPU with 2 GiB or more, and with sizes in order: behind the test of the memory the buffers of the
-- largest size, what is reserved and 1 GiB fit the memory; the sizes are still in order, the largest is
-- not above the one that was asked for, and both are as asked for unless that was above the limit.
pub limit_sizes-Limited :
    (datacheck : Bool) (max_mem min_bytes max_bytes : ℕ)
    → 2 * gb ≤ max_mem
    → max_mem + 16 * gb < 2 ^ 64
    → min_bytes ≤ max_bytes
    → Limited
        (buffers datacheck)
        (reserve_mem max_mem + 1 * gb)
        max_mem
        (mem_max_bytes datacheck max_mem)
        min_bytes
        max_bytes
        (limit_sizes datacheck max_mem min_bytes max_bytes)
unfolding limit_sizes
limit_sizes-Limited datacheck max_mem min_bytes max_bytes h l o =
    let room = mem_max_bytes_room datacheck max_mem h l in
    cut_sizes (buffers datacheck) (reserve_mem max_mem + 1 * gb) max_mem
      (mem_max_bytes datacheck max_mem) min_bytes max_bytes (omega arith) o
