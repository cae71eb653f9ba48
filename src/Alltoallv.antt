-- ===== src/Alltoallv.antt =====
-- The all-to-all exchange with variable counts of src/alltoallv.cu: the patterns of traffic, the counts and
-- buffer sizes that follow from them, the calls of a rank, and the data that is expected. Offsets into
-- buffers are counted from their start.
pub mod Sums
pub mod Balanced
pub mod Exchange
pub mod Room
pub mod Matrix
mod Tests
use nccl_tests.Prelude.{
  ℕ, zero, suc, ◌+◌, ◌-◌, ◌*◌, ◌/◌, ◌%◌, ◌^◌, max, Bool, true, false, ◌&&◌, not, Option, none, some,
  List, [], ◌∷◌, ◌++◌, get_or, ltb, leb, ◌==◌, if◌then◌else◌,
}
use nccl_tests.Collectives.{times, base_count, Counts}

-- `n & ~(size_t)15`.
abbrev pub aligned : ℕ → ℕ
aligned n = n - n % 16

-- The patterns. `weight distance nranks total_bytes` is the number of bytes that the formula in `double`
-- gives, cut to an integer; `data` and `dim` are the matrix of a file.
pub data Pattern : Type 0 where
  generated : (weight : ℕ → ℕ → ℕ → ℕ) → Pattern
  traffic_matrix : (dim : ℕ) (data_of : List ℕ) → Pattern

-- `AlltoAllvGetPeerBytesDistanceWeighted`, for ranks `i` and `j` below `nranks`.
abbrev pub distance : (i j nranks : ℕ) → ℕ
distance i j nranks = (j + nranks - i) % nranks

abbrev pub distance_weighted : (weight : ℕ → ℕ → ℕ → ℕ) (i j nranks total_bytes : ℕ) → ℕ
distance_weighted weight i j nranks total_bytes =
    if nranks == 1
    then aligned total_bytes
    else aligned (weight (distance i j nranks) nranks total_bytes)

-- `AlltoAllvGetPeerBytesFromMatrix`. Behind the end of the matrix there is nothing to read; 0 stands for
-- it.
abbrev pub from_matrix : (dim : ℕ) (data_of : List ℕ) (i j : ℕ) → ℕ
from_matrix dim data_of i j = get_or data_of (i * dim + j) 0

-- The choice that each function makes between the two.
unfoldable pub peer_bytes : Pattern → (i j nranks total_bytes : ℕ) → ℕ
peer_bytes (generated weight) i j nranks total_bytes =
    distance_weighted weight i j nranks total_bytes
peer_bytes (traffic_matrix dim data_of) i j nranks total_bytes = from_matrix dim data_of i j

-- A sum of `size_t` over the ranks below `n`, and the largest of such numbers.
abbrev pub sum_below : (f : ℕ → ℕ) (n : ℕ) → ℕ
sum_below f zero = 0
sum_below f (suc n) = (sum_below f n + f n) % 2 ^ 64

abbrev pub max_below : (f : ℕ → ℕ) (n : ℕ) → ℕ
max_below f zero = 0
max_below f (suc n) = max (max_below f n) (f n)

module _ (p : Pattern) (elt_size nranks total_bytes : ℕ) where
  -- The elements that rank `i` sends to rank `j`.
  abbrev pub peer_count : (i j : ℕ) → ℕ
  peer_count i j = peer_bytes p i j nranks total_bytes / elt_size

  -- What all ranks are looked at for: `rank_s` and `rank_r`.
  abbrev pub rank_sends : (i : ℕ) → ℕ
  rank_sends i = sum_below (λ j. peer_count i j) nranks

  abbrev pub rank_receives : (i : ℕ) → ℕ
  rank_receives i = sum_below (λ j. peer_count j i) nranks

  -- The scan of all ranks.
  abbrev pub scan_counts : ℕ × ℕ
  scan_counts = (max_below rank_sends nranks, max_below rank_receives nranks)

-- `AlltoAllvComputeMaxCounts`: the largest numbers that a rank sends and receives.
unfoldable pub compute_max_counts : Pattern → (elt_size nranks total_bytes : ℕ) → ℕ × ℕ
compute_max_counts (generated weight) elt_size nranks total_bytes =
    let rank_total = rank_sends (generated weight) elt_size nranks total_bytes 0 in
    (rank_total, rank_total)
compute_max_counts (traffic_matrix dim data_of) elt_size nranks total_bytes =
    scan_counts (traffic_matrix dim data_of) elt_size nranks total_bytes

abbrev pub is_generated : Pattern → Bool
is_generated (generated weight) = true
is_generated (traffic_matrix dim data_of) = false

-- `*paramcount`, for an `eltSize` of 1, 2, 4 or 8.
abbrev pub param_count : Pattern → (count elt_size nranks : ℕ) → ℕ
param_count p count elt_size nranks = if is_generated p then base_count count elt_size nranks else 0

-- `AlltoAllvGetCollByteCount`.
unfoldable pub alltoallv_count : Pattern → (count elt_size nranks : ℕ) → Counts
unfolding compute_max_counts
alltoallv_count p count elt_size nranks =
    let param = param_count p count elt_size nranks in
    let maxima = compute_max_counts p elt_size nranks (times (times param nranks) elt_size) in
    record {
      send_count = maxima.0;
      recv_count = maxima.1;
      param_count = param;
      send_inplace_offset = 0;
      recv_inplace_offset = 0;
    }

-- `AlltoAllvGetBuffSize`, behind `AlltoAllvInit`: `none` sets the error flag.
unfoldable pub get_buff_size : Pattern → (count nranks : ℕ) → Option (ℕ × ℕ)
unfolding alltoallv_count
get_buff_size p count nranks =
    let c = alltoallv_count p count 1 nranks in
    if not (is_generated p) && ltb count (max c.send_count c.recv_count)
    then none
    else some (c.send_count, c.recv_count)

-- A call of `ncclSend` or `ncclRecv`.
pub data Call : Type 0 where
  send recv : (offset count peer : ℕ) → Call

abbrev pub if_some : (count : ℕ) → Call → List Call
if_some zero c = []
if_some (suc n) c = c ∷ []

module _ (p : Pattern) (elt_size nranks total_bytes rank : ℕ) where
  -- The loop of `AlltoAllvRunColl` from rank `r` on, `n` more of them; `sptr` and `rptr` are offsets.
  abbrev pub exchange_from : (r n sptr rptr : ℕ) → List Call
  exchange_from r zero sptr rptr = []
  exchange_from r (suc n) sptr rptr =
      let send_count = peer_count p elt_size nranks total_bytes rank r in
      let recv_count = peer_count p elt_size nranks total_bytes r rank in
      if_some send_count (send sptr send_count r)
      ++ (if_some recv_count (recv rptr recv_count r)
          ++ exchange_from (suc r) n (sptr + send_count * elt_size) (rptr + recv_count * elt_size))

-- `AlltoAllvRunColl` of a rank, from the start of its buffers.
unfoldable pub run_coll : Pattern → (elt_size nranks total_bytes rank : ℕ) → List Call
run_coll p elt_size nranks total_bytes rank =
    exchange_from p elt_size nranks total_bytes rank 0 nranks 0 0

-- A part of the expected buffer: `count` elements at the byte `at`, which are those of the data of
-- `source` from the element `first` on.
pub record Segment : Type 0 where
  pub at : ℕ
  pub source : ℕ
  pub first : ℕ
  pub count : ℕ

module _ (p : Pattern) (elt_size nranks total_bytes rank : ℕ) where
  -- The loop over the sources in `AlltoAllvInitData`.
  abbrev pub expected_from : (src n recvoffset : ℕ) → List Segment
  expected_from src zero recvoffset = []
  expected_from src (suc n) recvoffset =
      let recvcount = peer_count p elt_size nranks total_bytes src rank in
      let later = expected_from (suc src) n in
      if recvcount == 0
      then later recvoffset
      else record {
        at = recvoffset;
        source = src;
        first = sum_below (λ k. peer_count p elt_size nranks total_bytes src k) rank;
        count = recvcount;
      }
        ∷ later ((recvoffset + recvcount * elt_size) % 2 ^ 64)

-- The expected buffer of a rank.
unfoldable pub expected : Pattern → (elt_size nranks total_bytes rank : ℕ) → List Segment
expected p elt_size nranks total_bytes rank =
    expected_from p elt_size nranks total_bytes rank 0 nranks 0

-- The elements that `AlltoAllvInitData` fills in the buffer that is sent.
abbrev pub init_sendcount : Pattern → (elt_size nranks total_bytes rank : ℕ) → ℕ
init_sendcount p elt_size nranks total_bytes rank = rank_sends p elt_size nranks total_bytes rank
