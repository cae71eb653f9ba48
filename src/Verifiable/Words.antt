-- ===== src/Verifiable/Words.antt =====
-- The 32- and 64-bit words of verifiable/verifiable.cu: mixing, hashing, high halves of products and
-- leading zeros. A word is a number below its power of two, and each operation wraps.
pub mod Bits
mod Tests
use Prim.Native.Nat.{bit_xor}
use nccl_tests.Prelude.{ℕ, zero, suc, ◌+◌, ◌-◌, ◌*◌, ◌/◌, ◌%◌, ◌^◌, ◌==◌, if◌then◌else◌}

abbrev pub u32 : ℕ → ℕ
u32 x = x % 2 ^ 32

abbrev pub u64 : ℕ → ℕ
u64 x = x % 2 ^ 64

-- The halves of `u32[2]` and back, on a little-endian machine.
abbrev pub low : ℕ → ℕ
low x = x % 2 ^ 32

abbrev pub high : ℕ → ℕ
high x = x / 2 ^ 32

abbrev pub halves : (lo hi : ℕ) → ℕ
halves lo hi = hi * 2 ^ 32 + lo

-- `mixBits`: the high half grows, the low half takes it in, the word is multiplied, and the low half
-- takes in the high half with its own halves swapped.
unfoldable pub mix_bits : ℕ → ℕ
mix_bits x =
    let hi = u32 (high x + 1) in
    let product = u64 (halves (bit_xor (low x) hi) hi * 0x9e3779b97f4a7c13) in
    let top = high product in
    halves (u32 (bit_xor (low product) (bit_xor (u32 (top * 2 ^ 16)) (top / 2 ^ 16)))) top

-- `hashOf`; its second argument is 0 where the source leaves it out.
unfoldable pub hash_of : (a b : ℕ) → ℕ
hash_of a b =
    let a1 = u64 (u64 (a + 2 ^ 32) + b) in
    let a2 = u64 (bit_xor a1 (a1 / 2 ^ 32) * 0x9e3779b97f4a7c13) in
    let a3 = u64 (a2 + bit_xor (b / 2 ^ 16) (u64 (b * 2 ^ 48))) in
    u64 (bit_xor a3 (a3 / 2 ^ 32) * 0xc4ceb9fe1a85ec53)

abbrev pub umul32hi : (a b : ℕ) → ℕ
umul32hi a b = a * b / 2 ^ 32

abbrev pub umul64hi : (a b : ℕ) → ℕ
umul64hi a b = a * b / 2 ^ 64

-- The binary digits of a number below 2 ^ fuel.
unfoldable pub bit_length : (fuel x : ℕ) → ℕ
bit_length zero x = 0
bit_length (suc fuel) x = let rest = suc (bit_length fuel (x / 2)) in if x == 0 then 0 else rest

unfoldable pub clz32 : ℕ → ℕ
clz32 x = 32 - bit_length 32 x

unfoldable pub clz64 : ℕ → ℕ
clz64 x = 64 - bit_length 64 x
