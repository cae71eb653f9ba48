-- ===== src/Alltoallv/Balanced.antt =====
-- The generated pattern of src/alltoallv.cu gives every rank the same totals, so that
-- `AlltoAllvComputeMaxCounts` need not look at all of them.
use nccl_tests.Prelude.{
  ℕ, zero, suc, ◌+◌, ◌-◌, ◌/◌, ◌%◌, ◌<◌, ◌≤◌, ◌==◌, if◌then◌else◌, ◌≡◌, refl, sym, ap, ◌∙◌, arith,
}
use native.Mathlib.Nat.{mod-eq_of_lt, add-mod_right}
use nccl_tests.Alltoallv.{
  Pattern, generated, traffic_matrix, distance, aligned, peer_bytes, peer_count, rank_sends,
  rank_receives, scan_counts, compute_max_counts, sum_below, max_below,
}
use nccl_tests.Alltoallv.Sums.{
  sum, sum_below_same, sum_same, sum_parts, sum_reversed, value_at, max_below_same,
}

-- The distances on a ring of `n` ranks.
distance_ahead : (i j n : ℕ) → i ≤ j → j < n → distance i j n ≡ j - i
distance_ahead i j n h l =
    value_at (λ x. x % n) (j + n - i) (j - i + n) (omega arith)
    ∙ add-mod_right (j - i) n
    ∙ mod-eq_of_lt (omega arith)

distance_behind : (i j n : ℕ) → j < i → i < n → distance i j n ≡ j + n - i
distance_behind i j n h l = mod-eq_of_lt (omega arith)

-- What is added up over the distances, from one rank to all others, or from all others to one.
module _ (g : ℕ → ℕ) (n i : ℕ) (i_is_rank : i < n) where
  sum-ahead : sum (λ j. g (distance i j n)) n ≡ sum g n
  sum-ahead =
      let d : ℕ → ℕ = λ j. g (distance i j n) in
      let m : ℕ = n - i in
      let before : (j : ℕ) → j < i → d j ≡ g (m + j) =
        λ j l. ap g (distance_behind i j n l i_is_rank ∙ omega arith) in
      let later : (t : ℕ) → t < m → d (i + t) ≡ g t =
        λ t l. ap g (distance_ahead i (i + t) n (omega arith) (omega arith) ∙ omega arith) in
      omega (
        arith,
        value_at (sum d) n (i + m) (omega arith),
        sum_parts d i m,
        sum_same d (λ j. g (m + j)) i before,
        sum_same (λ t. d (i + t)) g m later,
        value_at (sum g) n (m + i) (omega arith),
        sum_parts g m i,
      )

  sum-behind : sum (λ j. g (distance j i n)) n ≡ sum g n
  sum-behind =
      let d : ℕ → ℕ = λ j. g (distance j i n) in
      let m : ℕ = n - suc i in
      let before : (j : ℕ) → j < suc i → d j ≡ g (suc i - suc j) =
        λ j l. ap g (distance_ahead j i n (omega arith) i_is_rank ∙ omega arith) in
      let later : (t : ℕ) → t < m → d (suc i + t) ≡ g (suc i + (m - suc t)) =
        λ t l. ap g (distance_behind (suc i + t) i n (omega arith) (omega arith) ∙ omega arith) in
      omega (
        arith,
        value_at (sum d) n (suc i + m) (omega arith),
        sum_parts d (suc i) m,
        sum_same d (λ j. g (suc i - suc j)) (suc i) before,
        sum_reversed g (suc i),
        sum_same (λ t. d (suc i + t)) (λ t. g (suc i + (m - suc t))) m later,
        sum_reversed (λ k. g (suc i + k)) m,
        value_at (sum g) n (suc i + m) (omega arith),
        sum_parts g (suc i) m,
      )

-- The elements at a distance.
module _ (weight : ℕ → ℕ → ℕ → ℕ) (e n total : ℕ) where
  at_distance : ℕ → ℕ
  at_distance d = (if n == 1 then aligned total else aligned (weight d n total)) / e

  sends_same : (i : ℕ) → i < n → rank_sends (generated weight) e n total i ≡ sum_below at_distance n
  unfolding at_distance peer_bytes
  sends_same i h =
      sum_below_same (λ j. peer_count (generated weight) e n total i j) at_distance n
        (sum-ahead at_distance n i h)

  receives_same :
      (i : ℕ) → i < n → rank_receives (generated weight) e n total i ≡ sum_below at_distance n
  unfolding at_distance peer_bytes
  receives_same i h =
      sum_below_same (λ j. peer_count (generated weight) e n total j i) at_distance n
        (sum-behind at_distance n i h)

-- In the generated pattern, whatever the weights, the size and the number of ranks, any rank sends as
-- many elements as any rank receives, over all its peers.
pub generated_balanced :
    (weight : ℕ → ℕ → ℕ → ℕ) (e n total i j : ℕ)
    → i < n
    → j < n
    → rank_sends (generated weight) e n total i ≡ rank_receives (generated weight) e n total j
generated_balanced weight e n total i j h l =
    sends_same weight e n total i h ∙ sym (receives_same weight e n total j l)

-- For every pattern, every weight of the distances and any number of ranks above zero,
-- `AlltoAllvComputeMaxCounts` finds what the scan of all ranks finds, the most that a rank sends and the
-- most that a rank receives, also where it looks at rank 0 alone.
pub compute_max_counts-scan :
    (p : Pattern) (e n total : ℕ) → 0 < n → compute_max_counts p e n total ≡ scan_counts p e n total
unfolding compute_max_counts
compute_max_counts-scan (generated weight) e zero total h = elim h [ ]
compute_max_counts-scan (generated weight) e (suc n) total h =
    let p : Pattern = generated weight in
    let first = rank_sends p e (suc n) total 0 in
    let zero_is_rank : 0 < suc n = omega arith in
    let sends = max_below_same (rank_sends p e (suc n) total) first n (λ i l.
      generated_balanced weight e (suc n) total i 0 l zero_is_rank
      ∙ sym (generated_balanced weight e (suc n) total 0 0 zero_is_rank zero_is_rank)) in
    let receives =
      max_below_same (rank_receives p e (suc n) total) first n
        (λ i l. sym (generated_balanced weight e (suc n) total 0 i zero_is_rank l)) in
    ap (λ x. (x, first)) (sym sends)
    ∙ ap (λ y. (max_below (rank_sends p e (suc n) total) (suc n), y)) (sym receives)
compute_max_counts-scan (traffic_matrix dim data_of) e n total h = refl
