-- ===== src/Verifiable/Words/Tests.antt =====
-- The words of verifiable/verifiable.cu at single numbers.
use nccl_tests.Prelude.{◌≡◌, refl}
use nccl_tests.Verifiable.Words.{mix_bits, hash_of, bit_length, clz32, clz64}

mixed_zero : mix_bits 0 ≡ 2126250757941780882
unfolding mix_bits
mixed_zero = refl

hashed : hash_of 0 0 ≡ 11455484377349375821
unfolding hash_of
hashed = refl

leading : clz32 3 ≡ 30
unfolding clz32 bit_length
leading = refl

none_leading : clz64 0 ≡ 64
unfolding clz64 bit_length
none_leading = refl
