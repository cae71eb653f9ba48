-- ===== src/Verifiable/Floats/Product/Exact.antt =====
-- The product of floating point numbers in verifiable/verifiable.cu is predictable: no rounding, whatever the order.
use native.Mathlib.Nat.{mod-eq_of_lt, mod-lt}
use Prim.Native.Nat.{bit_and}
use nccl_tests.Prelude.{
  ℕ, zero, suc, ◌+◌, ◌*◌, ◌/◌, ◌%◌, ◌^◌, ◌<◌, ◌≤◌, ◌≡◌, ◌∙◌, inl, inr, refl, sym, ap, arith, Bool,
  true, false, some, if◌then◌else◌, ◌==◌, Bool-cases,
}
use nccl_tests.Prelude.Sums.{sum, same, sum_same, term-le-sum}
use nccl_tests.Verifiable.Words.{mix_bits, hash_of}
use nccl_tests.Verifiable.Words.Bits.{mix_bits-lt, bit_and-mask}
use nccl_tests.Verifiable.Shuffle.{shuffle_rank}
use nccl_tests.Verifiable.Shuffle.Count.{shuffle_rank_once, sum_shuffled}
use nccl_tests.Verifiable.SumXy.{uint32, choose_y, gen_sum_xy}
use nccl_tests.Verifiable.SumXy.Total.{contribution-total}
use nccl_tests.Verifiable.SumXy.Chosen.{choose_y-range}
use nccl_tests.Verifiable.Floats.{
  Float, float32, float64, float16, bfloat16, float8e4m3, float8e5m2, mantissa_bits, exponent_bias,
  mant_mask, make_float,
}
use nccl_tests.Verifiable.Floats.Fields.{magnitude, sign_field}
use nccl_tests.Verifiable.Floats.Encoding.{IsFinite}
use nccl_tests.Verifiable.Floats.Signs.{chosen}
use nccl_tests.Verifiable.Floats.Product.{
  max_exp, random_mant, product_answer, gen_in_out_float_prod, gen_input_prod, gen_output_prod,
}
use nccl_tests.Verifiable.Floats.Product.Powers.{
  product, unit, word, word_sign, product_word, product_word-IsFinite, product_word_sign,
  product_word_lem,
}

small_exponents :
    (t : Float) → (max_exp t < 1024) × (exponent_bias t < 1024) × (2 ≤ 2 ^ mantissa_bits t)
small_exponents float32 = (omega arith, omega arith, omega arith)
small_exponents float64 = (omega arith, omega arith, omega arith)
small_exponents float16 = (omega arith, omega arith, omega arith)
small_exponents bfloat16 = (omega arith, omega arith, omega arith)
small_exponents float8e4m3 = (omega arith, omega arith, omega arith)
small_exponents float8e5m2 = (omega arith, omega arith, omega arith)

random_mant-lt : (t : Float) (rng : ℕ) → random_mant t rng < 2 ^ mantissa_bits t
random_mant-lt t rng =
    let (a, b, two) = small_exponents t in
    let masked : bit_and rng (mant_mask t) ≡ rng % 2 ^ mantissa_bits t =
      bit_and-mask (mantissa_bits t) rng (mant_mask t) (omega arith) in
    let below = mod-lt rng {m = 2 ^ mantissa_bits t} (omega arith) in
    elim (Bool-cases (bit_and rng (mant_mask t) == 0)) [
      | inl e ↦ rw e (omega arith)
      | inr e ↦ rw e (omega arith)
    ]

input_lem :
    (t : Float) (n rank mant x y : ℕ)
    → x + exponent_bias t < 2 ^ 32
    → product_answer t true n rank mant (some x) y
      ≡ some (make_float t (rank % 2) (x + exponent_bias t) (same rank 0 * mant))
unfolding product_answer
input_lem t n rank mant x y h =
    rw (mod-eq_of_lt h)
      (ap (λ m. some (make_float t (rank % 2) (x + exponent_bias t) m)) (picked (rank == 0) mant))
  where
    picked : (b : Bool) (m : ℕ) → (if b then m else 0) ≡ (if b then 1 else 0) * m
    picked true m = omega arith
    picked false m = omega arith

output_lem :
    (t : Float) (n rank mant x y : ℕ)
    → y + exponent_bias t < 2 ^ 32
    → product_answer t false n rank mant (some x) y
      ≡ some (make_float t (n / 2 % 2) (y + exponent_bias t) mant)
unfolding product_answer
output_lem t n rank mant x y h = rw (mod-eq_of_lt h) refl

-- Half of the ranks are odd.
odd_ranks : (n : ℕ) → sum (λ r. r % 2) n ≡ n / 2
odd_ranks zero = refl
odd_ranks (suc n) = omega (arith, odd_ranks n)

-- What the generator draws.
record Powers (t : Float) (n seed index : ℕ) : Type 0 where
  s : ℕ → ℕ
  e : ℕ → ℕ
  mant : ℕ
  y : ℕ
  fraction : mant < 2 ^ mantissa_bits t
  once : sum (λ r. same (s r) 0) n ≡ 1
  total : sum e n ≡ y
  fits : y ≤ max_exp t
  signs : sum (λ r. s r % 2) n ≡ n / 2
  is_input :
      (r : ℕ)
      → r < n
      → gen_input_prod t n r seed index
        ≡ some (make_float t (s r % 2) (e r + exponent_bias t) (same (s r) 0 * mant))
  is_output :
      gen_output_prod t n seed index ≡ some (make_float t (n / 2 % 2) (y + exponent_bias t) mant)

prod-Powers :
    (t : Float) (n seed index : ℕ) → 0 < n → n ≤ (max_exp t + 1) / 2 → Powers t n seed index
unfolding gen_input_prod gen_output_prod gen_in_out_float_prod gen_sum_xy
prod-Powers t n seed index positive few =
    let (small, bias, two) = small_exponents t in
    let rng = hash_of seed index in
    let y = choose_y uint32 (mix_bits rng) (max_exp t) 0 false in
    let mant = random_mant t (mix_bits (mix_bits rng)) in
    let count : n < 2 ^ 31 = omega arith in
    let (low, high) =
      choose_y-range uint32 (mix_bits rng) (max_exp t) 0 (mix_bits-lt rng) (omega arith) in
    let (x, defined, total) =
      contribution-total uint32 (max_exp t) n y positive count (omega arith) high (omega arith) in
    let s = λ (r : ℕ). shuffle_rank n r rng in
    let all : sum (λ r. x (s r)) n ≡ y = sum_shuffled n rng x count ∙ total in
    record {
      s = s;
      e = λ r. x (s r);
      mant = mant;
      y = y;
      fraction = random_mant-lt t (mix_bits (mix_bits rng));
      once = shuffle_rank_once n rng 0 count positive;
      total = all;
      fits = high;
      signs = sum_shuffled n rng (λ r. r % 2) count ∙ odd_ranks n;
      is_input = λ r l.
          let term = term-le-sum (λ r. x (s r)) n r l in
          ap (λ c. product_answer t true n (s r) mant c y) (defined (s r))
          ∙ input_lem t n (s r) mant (x (s r)) y (omega arith);
      is_output =
          ap (λ c. product_answer t false n (s 0) mant c y) (defined (s 0))
          ∙ output_lem t n (s 0) mant (x (s 0)) y (omega arith);
    }

module _ (t : Float) (rank_n seed index : ℕ) (positive : 0 < rank_n)
    (few : rank_n ≤ (max_exp t + 1) / 2) where
  powers : Powers t rank_n seed index
  powers = prod-Powers t rank_n seed index positive few

  once_at_most : sum (λ r. same (powers.s r) 0) rank_n ≤ 1
  once_at_most = omega (arith, powers.once)

  exponents_fit : sum powers.e rank_n ≤ max_exp t
  exponents_fit = omega (arith, powers.total, powers.fits)

  abbrev submitted : ℕ → ℕ
  submitted = word t rank_n powers.mant powers.s powers.e powers.fraction once_at_most exponents_fit

  abbrev product_of : (ℕ → Bool) → ℕ
  product_of =
      product_word t rank_n powers.mant powers.s powers.e powers.fraction once_at_most exponents_fit

  is_submitted : (r : ℕ) → r < rank_n → gen_input_prod t rank_n r seed index ≡ some (submitted r)
  unfolding word
  is_submitted = powers.is_input

  -- For every floating point type of e exponent bits, at least one rank, and no more than 2^(e-2):
  -- each rank's input is defined, and the numbers of any set of the ranks multiply to a finite
  -- number of the type, so that no partial product is rounded or overflows.
  pub gen_input_prod-partial :
      (x : ℕ → ℕ) × ((r : ℕ) → r < rank_n → gen_input_prod t rank_n r seed index ≡ some (x r))
      × ((p : ℕ → Bool)
          → (z : ℕ) × IsFinite t z
            × (sum (λ r. chosen (p r) (sign_field t (x r))) rank_n % 2 ≡ sign_field t z)
            × (product (λ r. if p r then magnitude t (x r) else unit t) rank_n * unit t
                ≡ magnitude t z * unit t ^ rank_n))
  gen_input_prod-partial = (
    submitted,
    is_submitted,
    λ p. (
      product_of p,
      product_word-IsFinite t rank_n powers.mant powers.s powers.e powers.fraction once_at_most
          exponents_fit p,
      product_word_sign t rank_n powers.mant powers.s powers.e powers.fraction once_at_most
          exponents_fit p,
      product_word_lem t rank_n powers.mant powers.s powers.e powers.fraction once_at_most
          exponents_fit p,
    ),
  )

  all_signs : sum (λ r. sign_field t (submitted r)) rank_n % 2 ≡ rank_n / 2 % 2
  all_signs =
      ap (λ z. z % 2)
        (sum_same (λ r. sign_field t (submitted r)) (λ r. powers.s r % 2) rank_n
            (word_sign t rank_n powers.mant powers.s powers.e powers.fraction once_at_most
              exponents_fit)
          ∙ powers.signs)

  product_of_all :
      product_of (λ r. true)
      ≡ make_float t (rank_n / 2 % 2) (powers.y + exponent_bias t) powers.mant
  unfolding product_word
  product_of_all =
      rw (all_signs, powers.total, powers.once)
        (ap (make_float t (rank_n / 2 % 2) (powers.y + exponent_bias t)) (once_only powers.mant))
    where
      once_only : (m : ℕ) → 1 * m ≡ m
      once_only m = omega arith

  -- For every floating point type of e exponent bits, at least one rank, and no more than 2^(e-2):
  -- whatever the seed and the index, each rank's input and the output of a product are defined,
  -- the signs of the inputs make the sign of the output, and their magnitudes, each in terms of
  -- that of 1, multiply to the magnitude of the output.
  pub gen_input_prod-exact :
      (x : ℕ → ℕ) × (y : ℕ) × ((r : ℕ)
        → r < rank_n
        → gen_input_prod t rank_n r seed index ≡ some (x r))
      × (gen_output_prod t rank_n seed index ≡ some y)
      × (sum (λ r. sign_field t (x r)) rank_n % 2 ≡ sign_field t y)
      × (product (λ r. magnitude t (x r)) rank_n * unit t ≡ magnitude t y * unit t ^ rank_n)
  gen_input_prod-exact = (
    submitted,
    product_of (λ r. true),
    is_submitted,
    powers.is_output ∙ ap some (sym product_of_all),
    product_word_sign t rank_n powers.mant powers.s powers.e powers.fraction once_at_most
        exponents_fit (λ r. true),
    product_word_lem t rank_n powers.mant powers.s powers.e powers.fraction once_at_most
        exponents_fit (λ r. true),
  )
