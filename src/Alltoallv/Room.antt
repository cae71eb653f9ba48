-- ===== src/Alltoallv/Room.antt =====
-- The buffers that `AlltoAllvGetBuffSize` of src/alltoallv.cu lets through hold what every rank sends
-- and receives.
use nccl_tests.Prelude.{
  ℕ, zero, suc, ◌+◌, ◌*◌, ◌/◌, ◌^◌, ◌<◌, ◌≤◌, max, ltb, if◌then◌else◌, none, some, List, [], ◌∷◌,
  ◌++◌, ◌≡◌, refl, arith,
}
use native.Mathlib.Nat.{div-mul-le_self, div-one}
use nccl_tests.Alltoallv.{
  Pattern, traffic_matrix, peer_bytes, peer_count, rank_sends, rank_receives, compute_max_counts,
  get_buff_size, Call, send, recv, if_some, exchange_from, run_coll, sum_below, max_below,
}
use nccl_tests.Alltoallv.Sums.{
  sum, sum_below-sum, sum_same, sum_monotone, sum_part, max_below-bound,
}

-- Each call stays within its buffer of `limit` bytes.
pub data Within (e limit : ℕ) : List Call → Type 0 where
  none_left : Within e limit []
  sent :
      {offset count peer : ℕ} {l : List Call}
      → offset + count * e ≤ limit
      → Within e limit l
      → Within e limit (send offset count peer ∷ l)
  received :
      {offset count peer : ℕ} {l : List Call}
      → offset + count * e ≤ limit
      → Within e limit l
      → Within e limit (recv offset count peer ∷ l)

send_first :
    (e limit offset count peer : ℕ) (l : List Call)
    → offset + count * e ≤ limit
    → Within e limit l
    → Within e limit (if_some count (send offset count peer) ++ l)
send_first e limit offset zero peer l h w = w
send_first e limit offset (suc n) peer l h w = sent h w

recv_first :
    (e limit offset count peer : ℕ) (l : List Call)
    → offset + count * e ≤ limit
    → Within e limit l
    → Within e limit (if_some count (recv offset count peer) ++ l)
recv_first e limit offset zero peer l h w = w
recv_first e limit offset (suc n) peer l h w = received h w

module _ (p : Pattern) (e n total rank limit : ℕ)
    (sends : sum (λ j. peer_bytes p rank j n total) n ≤ limit)
    (receives : sum (λ j. peer_bytes p j rank n total) n ≤ limit) where
  send_bytes : ℕ → ℕ
  send_bytes j = peer_count p e n total rank j * e

  recv_bytes : ℕ → ℕ
  recv_bytes j = peer_count p e n total j rank * e

  sends_fit : (r : ℕ) → r < n → sum send_bytes r + peer_count p e n total rank r * e ≤ limit
  unfolding send_bytes
  sends_fit r h =
      let a = sum_part send_bytes (suc r) n h in
      let b =
        sum_monotone send_bytes (λ j. peer_bytes p rank j n total) n
          (λ j l. div-mul-le_self (peer_bytes p rank j n total) e) in
      omega arith

  receives_fit : (r : ℕ) → r < n → sum recv_bytes r + peer_count p e n total r rank * e ≤ limit
  unfolding recv_bytes
  receives_fit r h =
      let a = sum_part recv_bytes (suc r) n h in
      let b =
        sum_monotone recv_bytes (λ j. peer_bytes p j rank n total) n
          (λ j l. div-mul-le_self (peer_bytes p j rank n total) e) in
      omega arith

  exchange-Within :
      (r m sptr rptr : ℕ)
      → r + m ≡ n
      → sptr ≡ sum send_bytes r
      → rptr ≡ sum recv_bytes r
      → Within e limit (exchange_from p e n total rank r m sptr rptr)
  unfolding send_bytes recv_bytes
  exchange-Within r zero sptr rptr h s t = none_left
  exchange-Within r (suc m) sptr rptr h s t =
      let a = sends_fit r (omega arith) in
      let b = receives_fit r (omega arith) in
      send_first e limit sptr (peer_count p e n total rank r) r
        (if_some (peer_count p e n total r rank) (recv rptr (peer_count p e n total r rank) r)
          ++ exchange_from p e n total rank (suc r) m (sptr + peer_count p e n total rank r * e)
              (rptr + peer_count p e n total r rank * e))
        (omega arith)
        (recv_first e limit rptr (peer_count p e n total r rank) r
          (exchange_from p e n total rank (suc r) m (sptr + peer_count p e n total rank r * e)
            (rptr + peer_count p e n total r rank * e))
          (omega arith)
          (exchange-Within (suc r) m (sptr + peer_count p e n total rank r * e)
            (rptr + peer_count p e n total r rank * e) (omega arith) (omega arith) (omega arith)))

-- What the check of `AlltoAllvGetBuffSize` says of each rank.
module _ (dim : ℕ) (data_of : List ℕ) (count n : ℕ) (sizes : ℕ × ℕ)
    (accepted : get_buff_size (traffic_matrix dim data_of) count n ≡ some sizes) where
  abbrev p : Pattern
  p = traffic_matrix dim data_of

  abbrev sent_by : ℕ → ℕ → ℕ
  sent_by i j = peer_bytes p i j n 0

  -- The test of the sizes was not met.
  accepted_at_most :
      (a b : ℕ) → (if ltb count (max a b) then none else some (a, b)) ≡ some sizes → max a b ≤ count
  accepted_at_most a b h = ground arith

  counts_fit : max (max_below (rank_sends p 1 n 0) n) (max_below (rank_receives p 1 n 0) n) ≤ count
  unfolding get_buff_size compute_max_counts peer_bytes
  counts_fit =
      accepted_at_most (max_below (rank_sends p 1 n 0) n) (max_below (rank_receives p 1 n 0) n)
        accepted

  exact_bytes : (f : ℕ → ℕ) → sum f n < 2 ^ 64 → sum_below (λ j. f j / 1) n ≡ sum f n
  exact_bytes f h =
      let e = sum_same (λ j. f j / 1) f n (λ j l. div-one (f j)) in
      omega (arith, sum_below-sum (λ j. f j / 1) n, e)

-- If `AlltoAllvGetBuffSize` accepts a matrix for buffers of `count` bytes, and no rank sends or receives
-- 2^64 bytes or more, then for every size of element and every rank all calls of `AlltoAllvRunColl` stay
-- within buffers of `count` bytes.
pub run_coll-Within :
    (dim : ℕ) (data_of : List ℕ) (count n e total rank : ℕ) (sizes : ℕ × ℕ)
    → get_buff_size (traffic_matrix dim data_of) count n ≡ some sizes
    → rank < n
    → sum (λ j. peer_bytes (traffic_matrix dim data_of) rank j n total) n < 2 ^ 64
    → sum (λ j. peer_bytes (traffic_matrix dim data_of) j rank n total) n < 2 ^ 64
    → Within e count (run_coll (traffic_matrix dim data_of) e n total rank)
unfolding run_coll peer_bytes
run_coll-Within dim data_of count n e total rank sizes accepted l s r =
    let q : Pattern = traffic_matrix dim data_of in
    let fit = counts_fit dim data_of count n sizes accepted in
    let a = exact_bytes dim data_of count n sizes accepted (λ j. peer_bytes q rank j n total) s in
    let b = exact_bytes dim data_of count n sizes accepted (λ j. peer_bytes q j rank n total) r in
    let c = max_below-bound (rank_sends q 1 n 0) n rank l in
    let d = max_below-bound (rank_receives q 1 n 0) n rank l in
    exchange-Within q e n total rank count (omega arith) (omega arith) 0 n 0 0 (omega arith) refl
      refl
