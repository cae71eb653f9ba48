-- ===== src/Verifiable/Integers/Order.antt =====
-- However the ranks' integers are grouped and ordered in a reduction, the result is what `genOutput` of
-- verifiable/verifiable.cu expects.
use mathlib.Core.List.{Permᴰ}
use native.Mathlib.Nat.{mod-lt, one-le-pow}
use Prim.Native.Nat.{bit_and}
use nccl_tests.Prelude.{
  ℕ, zero, suc, ◌+◌, ◌-◌, ◌^◌, ◌<◌, ◌≡◌, ◌∙◌, refl, sym, ap, arith, Bool, true, false,
  if◌then◌else◌, Option, some, List,
}
use nccl_tests.Verifiable.Words.{hash_of}
use nccl_tests.Verifiable.Words.Bits.{bit_and-mask}
use nccl_tests.Verifiable.Integers.{
  Integer, int8, uint8, int32, uint32, int64, uint64, width, size, Reduction, copy, sum, product,
  least, most, premul_sum, average, reduce, post_op, gen_input, gen_input_any, prepared_input,
  reduce_from, gen_output,
}
use nccl_tests.Verifiable.Integers.Trees.{
  Tree, ranks, reduced, ranks_from, join, fold, merge, fold-Inside, fold-perm, reduced-fold,
  join-join,
}
use nccl_tests.Verifiable.Integers.Laws.{reduce-Commutative, is_copy}

mask_is : (t : Integer) → size t - 1 + 1 ≡ 2 ^ width t
mask_is t = let h = one-le-pow (width t) 2 (omega arith) in omega arith

masked-lt : (t : Integer) (x : ℕ) → bit_and x (size t - 1) < size t
masked-lt t x = omega (
  arith,
  bit_and-mask (width t) x (size t - 1) (mask_is t),
  mod-lt x {m = size t} (one-le-pow (width t) 2 (omega arith)),
)

two_values : (t : Integer) → 1 < size t
two_values int8 = omega arith
two_values uint8 = omega arith
two_values int32 = omega arith
two_values uint32 = omega arith
two_values int64 = omega arith
two_values uint64 = omega arith

one_or : (b : Bool) (x m : ℕ) → 1 < m → x < m → (if b then 1 else x) < m
one_or true x m h l = h
one_or false x m h l = l

gen_input_any-lt :
    (t : Integer) (op : Reduction) (rank seed index : ℕ)
    → gen_input_any t op rank seed index < size t
unfolding gen_input_any
gen_input_any-lt t op rank seed index =
    one_or _ _ (size t) (two_values t) (masked-lt t (hash_of _ seed))

prepared_input-lt :
    (t : Integer) (op : Reduction) (seed index rank : ℕ)
    → is_copy op ≡ false
    → prepared_input t op seed index rank < size t
unfolding prepared_input gen_input
prepared_input-lt t copy seed index rank h = cc
prepared_input-lt t sum seed index rank h = gen_input_any-lt t sum rank seed index
prepared_input-lt t product seed index rank h = gen_input_any-lt t product rank seed index
prepared_input-lt t least seed index rank h = gen_input_any-lt t least rank seed index
prepared_input-lt t most seed index rank h = gen_input_any-lt t most rank seed index
prepared_input-lt t premul_sum seed index rank h = mod-lt _ (one-le-pow (width t) 2 (omega arith))
prepared_input-lt t average seed index rank h = gen_input_any-lt t average rank seed index

module _ (t : Integer) (op : Reduction) (seed index : ℕ) (real : is_copy op ≡ false) where
  value : ℕ → ℕ
  value r = prepared_input t op seed index r

  inside : (r : ℕ) → value r < size t
  unfolding value
  inside r = prepared_input-lt t op seed index r real

  fold_ranks : List ℕ → Option ℕ
  fold_ranks = fold (size t) (reduce t op) (reduce-Commutative t op real) value inside

  reduce_from-fold :
      (left r acc : ℕ)
      → acc < size t
      → reduce_from t op seed index left r acc
        ≡ join
            (size t)
            (reduce t op)
            (reduce-Commutative t op real)
            value
            inside
            acc
            (fold_ranks (ranks_from left r))
  unfolding reduce_from fold_ranks fold join value merge
  reduce_from-fold zero r acc l = refl
  reduce_from-fold (suc left) r acc l =
      let laws = reduce-Commutative t op real in
      let rest = ranks_from left (r + 1) in
      reduce_from-fold left (r + 1) (reduce t op acc (value r))
        (laws.closed acc (value r) l (inside r))
      ∙ sym (
          join-join (size t) (reduce t op) laws value inside acc (some (value r)) (fold_ranks rest)
            l (inside r) (fold-Inside (size t) (reduce t op) laws value inside rest))

  less_one : (n : ℕ) → n ≡ suc n - 1
  less_one n = omega arith

  some_injective : {x y : ℕ} → ◌≡◌ {A = Option ℕ} (some x) (some y) → x ≡ y
  some_injective e = cc

  -- The loop from the first rank on, as a reduction over any tree of the ranks.
  tree-loop :
      (rank_n : ℕ) (tree : Tree)
      → 0 < rank_n
      → Permᴰ (ranks tree) (ranks_from rank_n 0)
      → reduced (reduce t op) value tree ≡ reduce_from t op seed index (rank_n - 1) 1 (value 0)
  unfolding fold_ranks fold
  tree-loop zero tree h p = absurd (omega arith)
  tree-loop (suc n) tree h p =
      some_injective (
        sym (reduced-fold (size t) (reduce t op) (reduce-Commutative t op real) value inside tree)
        ∙ fold-perm (size t) (reduce t op) (reduce-Commutative t op real) value inside p)
      ∙ sym (reduce_from-fold n 1 (value 0) (inside 0))
      ∙ ap (λ k. reduce_from t op seed index k 1 (value 0)) (less_one n)

gen_output_lem :
    (t : Integer) (op : Reduction) (rank_n seed index : ℕ)
    → is_copy op ≡ false
    → gen_output t op rank_n seed index
      ≡ post_op t op rank_n
          (reduce_from t op seed index (rank_n - 1) 1 (prepared_input t op seed index 0))
unfolding gen_output
gen_output_lem t copy rank_n seed index h = cc
gen_output_lem t sum rank_n seed index h = refl
gen_output_lem t product rank_n seed index h = refl
gen_output_lem t least rank_n seed index h = refl
gen_output_lem t most rank_n seed index h = refl
gen_output_lem t premul_sum rank_n seed index h = refl
gen_output_lem t average rank_n seed index h = refl

-- For every type of integer and every reduction but the copy, and at least one rank: a reduction
-- over any tree whose leaves are the ranks in any order, followed by the step after the reduction,
-- gives the expected output of genOutput.
pub gen_output-any_order :
    (t : Integer) (op : Reduction) (rank_n seed index : ℕ) (tree : Tree)
    → is_copy op ≡ false
    → 0 < rank_n
    → Permᴰ (ranks tree) (ranks_from rank_n 0)
    → post_op t op rank_n (reduced (reduce t op) (prepared_input t op seed index) tree)
      ≡ gen_output t op rank_n seed index
unfolding value
gen_output-any_order t op rank_n seed index tree real h p =
    ap (post_op t op rank_n) (tree-loop t op seed index real rank_n tree h p)
    ∙ sym (gen_output_lem t op rank_n seed index real)
