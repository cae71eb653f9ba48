-- ===== src/Collectives.antt =====
-- How much a collective sends and receives: the `GetCollByteCount` functions of src/all_gather.cu,
-- all_reduce.cu, alltoall.cu, broadcast.cu, gather.cu, hypercube.cu, reduce.cu, reduce_scatter.cu,
-- scatter.cu and sendrecv.cu, and `setupArgs` of src/common.cu.
pub mod Fit
mod Tests
use nccl_tests.Prelude.{ℕ, ◌+◌, ◌-◌, ◌*◌, ◌/◌, ◌%◌, ◌^◌}

-- What a `GetCollByteCount` function sets, in elements.
pub record Counts : Type 0 where
  pub send_count : ℕ
  pub recv_count : ℕ
  pub param_count : ℕ
  pub send_inplace_offset : ℕ
  pub recv_inplace_offset : ℕ

-- A product of two `size_t`.
abbrev pub times : ℕ → ℕ → ℕ
times a b = a * b % 2 ^ 64

-- `(count/nranks) & ~(16/eltSize - 1)`. `eltSize` is 1, 2, 4 or 8, so that `16/eltSize` is a power of
-- two and the mask takes off the remainder by it.
abbrev pub base_count : (count elt_size nranks : ℕ) → ℕ
base_count count elt_size nranks = count / nranks - count / nranks % (16 / elt_size)

-- All of the buffer: `AllReduceGetCollByteCount` and the same code for broadcast, reduce and send-receive.
abbrev pub all_reduce_count : (count elt_size nranks : ℕ) → Counts
all_reduce_count count elt_size nranks = record {
  send_count = count;
  recv_count = count;
  param_count = count;
  send_inplace_offset = 0;
  recv_inplace_offset = 0;
}

abbrev pub broadcast_count : (count elt_size nranks : ℕ) → Counts
broadcast_count = all_reduce_count

abbrev pub reduce_count : (count elt_size nranks : ℕ) → Counts
reduce_count = all_reduce_count

abbrev pub sendrecv_count : (count elt_size nranks : ℕ) → Counts
sendrecv_count = all_reduce_count

abbrev pub all_gather_count : (count elt_size nranks : ℕ) → Counts
all_gather_count count elt_size nranks =
    let base = base_count count elt_size nranks in
    record {
      send_count = base;
      recv_count = times base nranks;
      param_count = base;
      send_inplace_offset = base;
      recv_inplace_offset = 0;
    }

abbrev pub gather_count : (count elt_size nranks : ℕ) → Counts
gather_count = all_gather_count

abbrev pub hypercube_count : (count elt_size nranks : ℕ) → Counts
hypercube_count = all_gather_count

abbrev pub reduce_scatter_count : (count elt_size nranks : ℕ) → Counts
reduce_scatter_count count elt_size nranks =
    let base = base_count count elt_size nranks in
    record {
      send_count = times base nranks;
      recv_count = base;
      param_count = base;
      send_inplace_offset = 0;
      recv_inplace_offset = base;
    }

abbrev pub scatter_count : (count elt_size nranks : ℕ) → Counts
scatter_count = reduce_scatter_count

abbrev pub alltoall_count : (count elt_size nranks : ℕ) → Counts
alltoall_count count elt_size nranks =
    let base = base_count count elt_size nranks in
    record {
      send_count = times nranks base;
      recv_count = times nranks base;
      param_count = base;
      send_inplace_offset = 0;
      recv_inplace_offset = 0;
    }

-- The tests' engines that these functions belong to; that of alltoallv, which reads its counts off a matrix, is
-- in Alltoallv.
pub data Collective : Type 0 where
  all_gather all_reduce alltoall broadcast gather hypercube reduce reduce_scatter scatter sendrecv :
      Collective

unfoldable pub coll_byte_count : Collective → (count elt_size nranks : ℕ) → Counts
coll_byte_count all_gather = all_gather_count
coll_byte_count all_reduce = all_reduce_count
coll_byte_count alltoall = alltoall_count
coll_byte_count broadcast = broadcast_count
coll_byte_count gather = gather_count
coll_byte_count hypercube = hypercube_count
coll_byte_count reduce = reduce_count
coll_byte_count reduce_scatter = reduce_scatter_count
coll_byte_count scatter = scatter_count
coll_byte_count sendrecv = sendrecv_count

-- The fields of `threadArgs` that `setupArgs` sets, in bytes.
pub record Sizes : Type 0 where
  pub nbytes : ℕ
  pub send_bytes : ℕ
  pub expected_bytes : ℕ
  pub send_inplace_offset : ℕ
  pub recv_inplace_offset : ℕ

-- `setupArgs`, with the number of bytes of the type.
unfoldable pub setup_args : Collective → (size word_size nranks : ℕ) → Sizes
unfolding coll_byte_count
setup_args coll size word_size nranks =
    let c = coll_byte_count coll (size / word_size) word_size nranks in
    record {
      nbytes = times c.param_count word_size;
      send_bytes = times c.send_count word_size;
      expected_bytes = times c.recv_count word_size;
      send_inplace_offset = times c.send_inplace_offset word_size;
      recv_inplace_offset = times c.recv_inplace_offset word_size;
    }
