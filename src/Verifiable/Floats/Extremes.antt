-- ===== src/Verifiable/Floats/Extremes.antt =====
-- The random floating point numbers of verifiable/verifiable.cu that the ranks submit to a copy, a minimum and a
-- maximum.
pub mod Normal
mod Tests
use Prim.Native.Nat.{bit_and, bit_xor}
use nccl_tests.Prelude.{ℕ, ◌+◌, ◌-◌, ◌*◌, ◌/◌, ◌%◌, ◌^◌}
use nccl_tests.Verifiable.Words.{u64, hash_of}
use nccl_tests.Verifiable.Floats.{Float, exponent_bits, mant_mask, make_float}

-- The exponent is in the middle half of the exponents.
abbrev pub middle_exp : (t : Float) → (rng : ℕ) → ℕ
middle_exp t rng = bit_and rng (2 ^ (exponent_bits t - 1) - 1) + 2 ^ (exponent_bits t - 2)

-- A word is folded onto itself for each of the three fields.
unfoldable pub random_float : (t : Float) → (rng : ℕ) → ℕ
random_float t rng =
    let rng1 = bit_xor rng (rng / 2) in
    let rng2 = bit_xor rng1 (rng1 / 2 ^ exponent_bits t) in
    make_float t (bit_and rng 1) (middle_exp t rng1) (bit_and rng2 (mant_mask t))

-- `genInput` of `ReduceNil`.
unfoldable pub gen_input_float_nil : (t : Float) → (rank_me seed index : ℕ) → ℕ
gen_input_float_nil t rank_me seed index =
    random_float t (hash_of (bit_xor (bit_xor index (u64 (index * 2 ^ 16))) rank_me) seed)

-- `genInput` of `ReduceMax`.
unfoldable pub gen_input_max : (t : Float) → (rank_me seed index : ℕ) → ℕ
gen_input_max t rank_me seed index =
    random_float t (hash_of (bit_xor (bit_xor index (u64 (index * 2 ^ 16))) rank_me) seed)

-- `genInput` of `ReduceMin`.
abbrev pub gen_input_min : (t : Float) → (rank_me seed index : ℕ) → ℕ
gen_input_min = gen_input_max

-- `genOutput` of `ReduceNil`.
abbrev pub gen_output_float_nil : (t : Float) → (seed index : ℕ) → ℕ
gen_output_float_nil t seed index = gen_input_float_nil t 0 seed index
