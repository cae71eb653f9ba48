-- ===== src/Alltoallv/Tests.antt =====
-- The exchange of src/alltoallv.cu on small patterns.
use nccl_tests.Prelude.{
  ℕ, zero, suc, ◌-◌, ◌*◌, ◌^◌, ◌<◌, ◌≤◌, ◌≡◌, refl, ap, Bool, true, false, Option, none, some, List,
  [], ◌∷◌, length, map, if◌then◌else◌, codes, arith,
}
use nccl_tests.Gin.Number.{is_digit}
use nccl_tests.Alltoallv.{
  Pattern, generated, traffic_matrix, peer_bytes, compute_max_counts, scan_counts, alltoallv_count,
  get_buff_size, run_coll, expected,
}
use nccl_tests.Alltoallv.Sums.{sum}
use nccl_tests.Alltoallv.Balanced.{compute_max_counts-scan}
use nccl_tests.Alltoallv.Exchange.{delivered, wanted, run_coll-expected}
use nccl_tests.Alltoallv.Room.{Within, run_coll-Within}
use nccl_tests.Alltoallv.Matrix.{Number, read_traffic_matrix, init}
use nccl_tests.Alltoallv.Matrix.Square.{Read, read_traffic_matrix-Read}

-- Farther ranks get more.
abbrev farther : Pattern
farther = generated (λ d n total. d * 48)

abbrev two_ranks : Pattern
two_ranks = traffic_matrix 2 (96 ∷ 32 ∷ 0 ∷ 64 ∷ [])

compute_max_counts-scan_example : compute_max_counts farther 4 3 4096 ≡ scan_counts farther 4 3 4096
compute_max_counts-scan_example = compute_max_counts-scan farther 4 3 4096 (omega arith)

counts_run : compute_max_counts farther 4 3 4096 ≡ (36, 36)
unfolding compute_max_counts peer_bytes
counts_run = refl

rows_small : (i : ℕ) → i < 2 → sum (λ j. peer_bytes two_ranks i j 2 0) 2 < 2 ^ 64
unfolding peer_bytes
rows_small zero h = omega arith
rows_small (suc zero) h = omega arith
rows_small (suc (suc i)) h = absurd (omega arith)

column_small : sum (λ j. peer_bytes two_ranks j 1 2 0) 2 < 2 ^ 64
unfolding peer_bytes
column_small = omega arith

run_coll-expected_example :
    delivered (run_coll two_ranks 4 2 0) 1 (run_coll two_ranks 4 2 0 1)
    ≡ map (wanted 4) (expected two_ranks 4 2 0 1)
run_coll-expected_example =
    run_coll-expected two_ranks 4 2 0 1 (omega arith) rows_small column_small

accepted : get_buff_size two_ranks 128 2 ≡ some (128, 96)
unfolding get_buff_size alltoallv_count compute_max_counts peer_bytes
accepted = refl

run_coll-Within_example : Within 4 128 (run_coll two_ranks 4 2 0 1)
run_coll-Within_example =
    run_coll-Within 2 (96 ∷ 32 ∷ 0 ∷ 64 ∷ []) 128 2 4 0 1 (128, 96) accepted (omega arith)
      (rows_small 1 (omega arith)) column_small

-- A matrix whose sums come round to 0 in 64 bits is accepted for buffers of no bytes.
sums_wrap :
    get_buff_size (traffic_matrix 2 (2 ^ 63 ∷ 2 ^ 63 ∷ 2 ^ 63 ∷ 2 ^ 63 ∷ [])) 0 2 ≡ some (0, 0)
unfolding get_buff_size alltoallv_count compute_max_counts peer_bytes
sums_wrap = refl

-- Numbers of one digit, in units of 32 bytes.
abbrev one_digit : List ℕ → Option Number
one_digit [] = none
one_digit (x ∷ s) =
    if is_digit x
    then some (record {
      end = s;
      out_of_range = false;
      negative = false;
      overflow = false;
      scaled = (x - 48) * 32;
    })
    else none

abbrev left : Option Number → ℕ
left none = 0
left (some n) = length n.end

left_if : (b : Bool) (n : Number) (m : ℕ) → length n.end ≤ m → left (if b then some n else none) ≤ m
left_if true n m h = h
left_if false n m h = omega arith

one_digit_shrinks : (t : List ℕ) (n : Number) → one_digit t ≡ some n → length n.end < length t
one_digit_shrinks [] n h = ground arith
one_digit_shrinks (x ∷ s) n h =
    let same : left (one_digit (x ∷ s)) ≡ length n.end = ap left h in
    let short =
      left_if (is_digit x)
        (record {
          end = s;
          out_of_range = false;
          negative = false;
          overflow = false;
          scaled = (x - 48) * 32;
        })
        (length s) (omega arith) in
    omega arith

abbrev file : List ℕ
file = codes "3 1\n\n 0  2"

read_traffic_matrix-Read_example :
    Read one_digit (some file) (read_traffic_matrix one_digit (some file))
read_traffic_matrix-Read_example = read_traffic_matrix-Read one_digit one_digit_shrinks (some file)

file_read : init one_digit (λ d n total. 0) (some (some file)) 2 ≡ some two_ranks
unfolding init read_traffic_matrix
file_read = refl
