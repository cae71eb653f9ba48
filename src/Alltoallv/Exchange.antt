-- ===== src/Alltoallv/Exchange.antt =====
-- The calls of all ranks in `AlltoAllvRunColl` of src/alltoallv.cu fit together, and bring each rank the
-- data that `AlltoAllvInitData` expects.
use nccl_tests.Prelude.{
  ℕ, zero, suc, ◌+◌, ◌*◌, ◌%◌, ◌^◌, ◌<◌, ◌≤◌, ◌==◌, if◌then◌else◌, true, false, Bool-cases, inl,
  inr, Option, none, some, List, [], ◌∷◌, ◌++◌, map, ◌≡◌, refl, sym, ap, ◌∙◌, arith,
}
use native.Mathlib.Nat.{div-mul-le_self, div-le_self}
use nccl_tests.Alltoallv.{
  Pattern, peer_bytes, peer_count, Call, send, recv, if_some, exchange_from, run_coll, Segment,
  expected_from, expected, sum_below,
}
use nccl_tests.Alltoallv.Sums.{sum, sum_below-sum, sum_monotone, sum_part, sum_times, value_at}

-- The first send to a peer: its offset and its count.
abbrev pub find_send : (peer : ℕ) → List Call → Option (ℕ × ℕ)
find_send peer [] = none
find_send peer (send offset count to ∷ l) =
    if to == peer then some (offset, count) else find_send peer l
find_send peer (recv offset count to ∷ l) = find_send peer l

-- What a receive brings: `count` elements at the byte `at`, from the byte `from` on of what the source
-- sends.
pub record Delivery : Type 0 where
  pub at : ℕ
  pub source : ℕ
  pub from : ℕ
  pub count : ℕ

-- NCCL matches a receive with the send of the peer, and both must name the same count.
abbrev pub delivery : (at count source : ℕ) → Option (ℕ × ℕ) → Option Delivery
delivery at count source none = none
delivery at count source (some (offset, sent)) =
    if sent == count
    then some (record { at = at; source = source; from = offset; count = count })
    else none

-- What the receives of a rank bring, with the calls of each rank.
abbrev pub delivered : (calls_of : ℕ → List Call) (rank : ℕ) → List Call → List (Option Delivery)
delivered calls_of rank [] = []
delivered calls_of rank (send offset count peer ∷ l) = delivered calls_of rank l
delivered calls_of rank (recv offset count peer ∷ l) =
    delivery offset count peer (find_send rank (calls_of peer)) ∷ delivered calls_of rank l

-- What is expected, in bytes.
abbrev pub wanted : (elt_size : ℕ) → Segment → Option Delivery
wanted e s = some (record { at = s.at; source = s.source; from = s.first * e; count = s.count })

module _ (p : Pattern) (e n total : ℕ) where
  abbrev count_of : ℕ → ℕ → ℕ
  count_of i j = peer_count p e n total i j

  abbrev send_bytes : ℕ → ℕ → ℕ
  send_bytes src j = count_of src j * e

  find_send-send :
      (peer offset count to : ℕ) (l : List Call)
      → (to == peer) ≡ false
      → find_send peer (if_some count (send offset count to) ++ l) ≡ find_send peer l
  find_send-send peer offset zero to l h = refl
  find_send-send peer offset (suc c) to l h =
      ap (λ b. if b then some (offset, suc c) else find_send peer l) h

  find_send-recv :
      (peer offset count to : ℕ) (l : List Call)
      → find_send peer (if_some count (recv offset count to) ++ l) ≡ find_send peer l
  find_send-recv peer offset zero to l = refl
  find_send-recv peer offset (suc c) to l = refl

  find_send-own :
      (peer offset count to : ℕ) (l : List Call)
      → (to == peer) ≡ true
      → 0 < count
      → find_send peer (if_some count (send offset count to) ++ l) ≡ some (offset, count)
  find_send-own peer offset zero to l h k = elim k [ ]
  find_send-own peer offset (suc c) to l h k =
      ap (λ b. if b then some (offset, suc c) else find_send peer l) h

  -- The send of a rank to a peer stands behind all that it sends to the peers in front.
  find_send-exchange :
      (src peer r m sptr rptr : ℕ)
      → r ≤ peer
      → peer < r + m
      → sptr ≡ sum (send_bytes src) r
      → 0 < count_of src peer
      → find_send peer (exchange_from p e n total src r m sptr rptr)
        ≡ some (sum (send_bytes src) peer, count_of src peer)
  find_send-exchange src peer r zero sptr rptr h l s c = ground arith
  find_send-exchange src peer r (suc m) sptr rptr h l s c =
      let later =
        exchange_from p e n total src (suc r) m (sptr + count_of src r * e)
          (rptr + count_of r src * e) in
      let middle = if_some (count_of r src) (recv rptr (count_of r src) r) ++ later in
      elim (Bool-cases (r == peer)) [
        | inl q ↦
            let same : r ≡ peer = ground arith in
            let counts = value_at (count_of src) r peer same in
            find_send-own peer sptr (count_of src r) r middle q (omega arith)
            ∙ ap (λ x. some (x, count_of src r)) (s ∙ value_at (sum (send_bytes src)) r peer same)
            ∙ ap (λ x. some (sum (send_bytes src) peer, x)) counts
        | inr q ↦
            find_send-send peer sptr (count_of src r) r middle q
            ∙ find_send-recv peer rptr (count_of r src) r later
            ∙ find_send-exchange src peer (suc r) m (sptr + count_of src r * e)
                (rptr + count_of r src * e) (ground arith) (omega arith) (omega arith) c
      ]

  module _ (calls : ℕ → List Call) (rank : ℕ) where
    delivered-send :
        (offset count to : ℕ) (l : List Call)
        → delivered calls rank (if_some count (send offset count to) ++ l) ≡ delivered calls rank l
    delivered-send offset zero to l = refl
    delivered-send offset (suc c) to l = refl

    delivered-recv :
        (count at src first : ℕ) (l : List Call) (skipped later : List Segment)
        → (0 < count → find_send rank (calls src) ≡ some (first * e, count))
        → (count ≡ 0 → delivered calls rank l ≡ map (wanted e) skipped)
        → delivered calls rank l ≡ map (wanted e) later
        → delivered calls rank (if_some count (recv at count src) ++ l)
          ≡ map (wanted e) (
              if count == 0
              then skipped
              else record { at = at; source = src; first = first; count = count } ∷ later)
    delivered-recv zero at src first l skipped later h z k = z refl
    delivered-recv (suc c) at src first l skipped later h z k =
        let brought : Delivery = record {
          at = at;
          source = src;
          from = first * e;
          count = suc c;
        } in
        let segment : Segment = record { at = at; source = src; first = first; count = suc c } in
        let same : (suc c == suc c) ≡ true = ground arith in
        let positive : (suc c == 0) ≡ false = ground arith in
        ap (λ o. delivery at (suc c) src o ∷ delivered calls rank l) (h (omega arith))
        ∙ ap (λ b. (if b then some brought else none) ∷ delivered calls rank l) same
        ∙ ap (λ x. some brought ∷ x) k
        ∙ ap (λ b. map (wanted e) (if b then skipped else segment ∷ later)) (sym positive)

  module _ (rank : ℕ) (rank_is_rank : rank < n)
      (rows : (i : ℕ) → i < n → sum (λ j. peer_bytes p i j n total) n < 2 ^ 64)
      (column : sum (λ j. peer_bytes p j rank n total) n < 2 ^ 64) where
    abbrev calls_of : ℕ → List Call
    calls_of = run_coll p e n total

    first_sent : (src : ℕ) → src < n → sum_below (count_of src) rank * e ≡ sum (send_bytes src) rank
    first_sent src h =
        let a = sum_part (count_of src) rank n (omega arith) in
        let b =
          sum_monotone (count_of src) (λ j. peer_bytes p src j n total) n
            (λ j l. div-le_self (peer_bytes p src j n total) e) in
        let c = rows src h in
        let small : sum_below (count_of src) rank ≡ sum (count_of src) rank =
          omega (arith, sum_below-sum (count_of src) rank) in
        ap (λ x. x * e) small ∙ sym (sum_times (count_of src) e rank)

    received_bytes : ℕ → ℕ
    received_bytes j = count_of j rank * e

    offset_small : (r : ℕ) → r < n → sum received_bytes r + count_of r rank * e < 2 ^ 64
    unfolding received_bytes
    offset_small r h =
        let a = sum_part received_bytes (suc r) n h in
        let b =
          sum_monotone received_bytes (λ j. peer_bytes p j rank n total) n
            (λ j l. div-mul-le_self (peer_bytes p j rank n total) e) in
        omega arith

    found :
        (r : ℕ)
        → 0 < count_of r rank
        → r < n
        → find_send rank (calls_of r) ≡ some (sum (send_bytes r) rank, count_of r rank)
    unfolding run_coll
    found r positive h = find_send-exchange r rank 0 n 0 0 (omega arith) (omega arith) refl positive

    next_offset :
        (r rptr : ℕ)
        → rptr ≡ sum received_bytes r
        → rptr + count_of r rank * e ≡ sum received_bytes (suc r)
    unfolding received_bytes
    next_offset r rptr s = omega arith

    no_bytes : (r rptr : ℕ) → count_of r rank ≡ 0 → rptr ≡ rptr + count_of r rank * e
    no_bytes r rptr z = let a : count_of r rank * e ≡ 0 * e = ap (λ x. x * e) z in omega arith

    exchange-expected :
        (r m sptr rptr recvoffset : ℕ)
        → r + m ≡ n
        → rptr ≡ sum received_bytes r
        → recvoffset ≡ rptr
        → delivered calls_of rank (exchange_from p e n total rank r m sptr rptr)
          ≡ map (wanted e) (expected_from p e n total rank r m recvoffset)
    exchange-expected r zero sptr rptr recvoffset h s t = refl
    exchange-expected r (suc m) sptr rptr recvoffset h s t =
        let c : ℕ = count_of r rank in
        let first : ℕ = sum_below (count_of r) rank in
        let rest =
          exchange_from p e n total rank (suc r) m (sptr + count_of rank r * e) (rptr + c * e) in
        let after : ℕ → List Segment = expected_from p e n total rank (suc r) m in
        let small = offset_small r (omega arith) in
        let sent : 0 < c → find_send rank (calls_of r) ≡ some (first * e, c) = λ positive.
          found r positive (omega arith)
          ∙ ap (λ x. some (x, c)) (sym (first_sent r (omega arith))) in
        delivered-send calls_of rank sptr (count_of rank r) r (if_some c (recv rptr c r) ++ rest)
        ∙ delivered-recv calls_of rank c rptr r first rest (after rptr)
            (after ((rptr + c * e) % 2 ^ 64)) sent
            (λ z.
              exchange-expected (suc r) m (sptr + count_of rank r * e) (rptr + c * e) rptr
                (omega arith) (next_offset r rptr s) (no_bytes r rptr z))
            (exchange-expected (suc r) m (sptr + count_of rank r * e) (rptr + c * e)
              ((rptr + c * e) % 2 ^ 64) (omega arith) (next_offset r rptr s) (omega arith))
        ∙ ap
            (λ o. map (wanted e) (
              if c == 0
              then after o
              else record { at = o; source = r; first = first; count = c }
                ∷ after ((o + c * e) % 2 ^ 64)))
            (sym t)

-- With no rank that sends 2^64 bytes or more, nor this one receiving as many: in any pattern, for any
-- size of element, each receive of a rank meets a send of its peer with the same count, and what the
-- receives bring, in order, is the expected buffer of `AlltoAllvInitData`, segment by segment.
pub run_coll-expected :
    (p : Pattern) (e n total rank : ℕ)
    → rank < n
    → ((i : ℕ) → i < n → sum (λ j. peer_bytes p i j n total) n < 2 ^ 64)
    → sum (λ j. peer_bytes p j rank n total) n < 2 ^ 64
    → delivered (run_coll p e n total) rank (run_coll p e n total rank)
      ≡ map (wanted e) (expected p e n total rank)
unfolding run_coll expected
run_coll-expected p e n total rank h rows column =
    exchange-expected p e n total rank h rows column 0 n 0 0 0 (omega arith) refl refl
