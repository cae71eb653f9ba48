-- ===== src/Verifiable/Integers.antt =====
-- The integers of verifiable/verifiable.cu, as bit patterns: the reduction functions, what the ranks submit, and the
-- output, which is reduced from it in the order of the ranks.
pub mod Laws
pub mod Trees
pub mod Order
mod Tests
use Prim.Native.Nat.{bit_and, bit_xor}
use nccl_tests.Prelude.{
  ℕ, zero, suc, ◌+◌, ◌-◌, ◌*◌, ◌/◌, ◌%◌, ◌^◌, Bool, true, false, ◌&&◌, ltb, ◌==◌, if◌then◌else◌,
}
use nccl_tests.Verifiable.Words.{u64, mix_bits, hash_of}
use nccl_tests.Verifiable.Floats.Scaled.{premul_scalar}

pub data Integer : Type 0 where
  int8 uint8 int32 uint32 int64 uint64 : Integer

abbrev pub width : Integer → ℕ
width int8 = 8
width uint8 = 8
width int32 = 32
width uint32 = 32
width int64 = 64
width uint64 = 64

abbrev pub is_signed : Integer → Bool
is_signed int8 = true
is_signed int32 = true
is_signed int64 = true
is_signed t = false

-- The values of the type, each a pattern.
abbrev pub size : Integer → ℕ
size t = 2 ^ width t

-- The reduction functions.
pub data Reduction : Type 0 where
  copy sum product least most premul_sum average : Reduction

abbrev pub is_product : Reduction → Bool
is_product product = true
is_product op = false

-- The place of a pattern in the order of its type.
abbrev pub place : Integer → ℕ → ℕ
place t a = if is_signed t then (a + size t / 2) % size t else a

abbrev pub added : Integer → (a b : ℕ) → ℕ
added t a b = (a + b) % size t

abbrev pub multiplied : Integer → (a b : ℕ) → ℕ
multiplied t a b = a * b % size t

abbrev pub lesser : Integer → (a b : ℕ) → ℕ
lesser t a b = if ltb (place t a) (place t b) then a else b

abbrev pub greater : Integer → (a b : ℕ) → ℕ
greater t a b = if ltb (place t b) (place t a) then a else b

abbrev pub pre_op : Integer → Reduction → (x rank : ℕ) → ℕ
pre_op t premul_sum x rank = multiplied t x (premul_scalar rank)
pre_op t op x rank = x

abbrev pub reduce : Integer → Reduction → (a b : ℕ) → ℕ
reduce t copy a b = a
reduce t sum a b = added t a b
reduce t product a b = multiplied t a b
reduce t least a b = lesser t a b
reduce t most a b = greater t a b
reduce t premul_sum a b = added t a b
reduce t average a b = added t a b

-- A quotient of a number below 0 is rounded towards 0.
abbrev pub post_op : Integer → Reduction → (rank_n x : ℕ) → ℕ
post_op t average rank_n x =
    if is_signed t && ltb (size t / 2 - 1) x
    then (size t - (size t - x) / rank_n) % size t
    else x / rank_n
post_op t op rank_n x = x

-- `genInput` of `ReduceNil`.
unfoldable pub gen_input_nil : Integer → (seed index : ℕ) → ℕ
gen_input_nil t seed index =
    bit_and (mix_bits (bit_xor seed index) / 2 ^ (64 - width t)) (size t - 1)

-- `genInput` of all others: a product never has a 0.
unfoldable pub gen_input_any : Integer → Reduction → (rank_me seed index : ℕ) → ℕ
gen_input_any t op rank_me seed index =
    let mixed = bit_xor (bit_xor index (u64 (index * 2 ^ 16))) rank_me in
    let bits = bit_and (hash_of mixed seed) (size t - 1) in
    if is_product op && (bits == 0) then 1 else bits

unfoldable pub gen_input : Integer → Reduction → (rank_me seed index : ℕ) → ℕ
gen_input t copy rank_me seed index = gen_input_nil t seed index
gen_input t premul_sum rank_me seed index = gen_input_any t sum rank_me seed index
gen_input t op rank_me seed index = gen_input_any t op rank_me seed index

-- The input of a rank, ready to be reduced.
unfoldable pub prepared_input : Integer → Reduction → (seed index rank : ℕ) → ℕ
prepared_input t op seed index rank = pre_op t op (gen_input t op rank seed index) rank

-- The loop of `genOutput`, from rank `r` on.
unfoldable pub reduce_from : Integer → Reduction → (seed index left r acc : ℕ) → ℕ
reduce_from t op seed index zero r acc = acc
reduce_from t op seed index (suc left) r acc =
    reduce_from t op seed index left (r + 1) (reduce t op acc (prepared_input t op seed index r))

unfoldable pub gen_output : Integer → Reduction → (rank_n seed index : ℕ) → ℕ
gen_output t copy rank_n seed index = gen_input t copy 0 seed index
gen_output t op rank_n seed index =
    post_op t op rank_n
      (reduce_from t op seed index (rank_n - 1) 1 (prepared_input t op seed index 0))
