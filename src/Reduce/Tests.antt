-- ===== src/Reduce/Tests.antt =====
-- `Allreduce` of src/common.cu for three threads, with the wrap-around of 64 bits.
use mathlib.Core.List.{Permᴰ}
use nccl_tests.Prelude.{ℕ, ◌+◌, ◌/◌, ◌%◌, ◌^◌, min, max, ◌≡◌, refl, List, [], ◌∷◌, arith}
use nccl_tests.Reduce.{Operations, avg, unknown, finished, allreduce}
use nccl_tests.Reduce.Order.{Reorders, fits_avg, reduced, allreduce_any_order}

abbrev words : Operations ℕ
words = record {
  added = λ a b. (a + b) % 2 ^ 64;
  smaller = min;
  larger = max;
  divided = λ a n. a / n;
}

abbrev in_order : List (ℕ × ℕ)
in_order = (0, 5) ∷ (1, 3) ∷ (2, 7) ∷ []

abbrev arrivals : List (ℕ × ℕ)
arrivals = (1, 3) ∷ (0, 5) ∷ (2, 7) ∷ []

words-Reorders : Reorders words.added
words-Reorders = record { assoc = λ a b c. omega arith; comm = λ a b. omega arith }

allreduce_any_order_example :
    allreduce words avg (λ n. n) 1 3 99 arrivals
    ≡ finished words avg (λ n. n) 1 3 (reduced words avg 5 in_order)
allreduce_any_order_example =
    allreduce_any_order words avg (λ n. n) 1 3 99 5 in_order arrivals (fits_avg words-Reorders) refl
      (Permᴰ.swap refl refl)

mean_is : allreduce words avg (λ n. n) 1 3 99 arrivals ≡ 5
unfolding allreduce
mean_is = refl

-- A number that the switch does not know: the value of the thread that comes first.
unknown_arrivals : allreduce words unknown (λ n. n) 1 3 99 arrivals ≡ 3
unfolding allreduce
unknown_arrivals = refl

unknown_in_order : allreduce words unknown (λ n. n) 1 3 99 in_order ≡ 5
unfolding allreduce
unknown_in_order = refl
