-- ===== src/Launch/Bounds.antt =====
-- The memory that `startColl` of src/common.cu lets a collective use.
use nccl_tests.Prelude.{
  ℕ, suc, ◌+◌, ◌*◌, ◌/◌, ◌%◌, ◌^◌, ◌<◌, ◌≤◌, ◌≡◌, sym, ◌∙◌, subst, max, Bool, true, false, some,
  ◌==◌, arith, Bool-cases, inl, inr,
}
use native.Mathlib.Nat.{
  mul-le-mul_left, div-mul-le_self, mul_comm, mul-suc, mod-lt, le-div_iff_mul-le,
}
use nccl_tests.Collectives.{times, Sizes, setup_args, Collective}
use nccl_tests.Collectives.Fit.{Fits, IsWordSize, one, two, four, eight, setup_args-Fits}
use nccl_tests.Launch.{
  alloc_bytes, shift, Mode, pointers, windows, Regions, regions, in_place_offset,
}

abbrev pub send_start : Regions → ℕ
send_start r = r.send_base + r.send_offset

abbrev pub recv_start : Regions → ℕ
recv_start r = r.recv_base + r.recv_offset

-- The bytes from a start up to an end lie in a buffer.
pub record Inside (bytes : ℕ) (s : Sizes) (r : Regions) : Type 0 where
  pub send_inside : send_start r + s.send_bytes ≤ bytes
  pub recv_inside : recv_start r + s.expected_bytes ≤ bytes

pub data Shifted (maxbytes : ℕ) (s : Sizes) (iter : ℕ) : Type 0 where
  shifted :
      (sh : ℕ)
      → shift maxbytes s iter ≡ some sh
      → sh + max s.send_bytes s.expected_bytes ≤ maxbytes
      → Shifted maxbytes s iter

module _ (maxbytes total iter : ℕ) (h : total ≤ maxbytes) (b : maxbytes < 2 ^ 64)
    (p : 0 < total) where
  steps_positive : 0 < maxbytes / total
  steps_positive = let i = le-div_iff_mul-le {x = 1} {y = maxbytes} p in i.1 (omega arith)

  shift_room : total * (iter % (maxbytes / total)) + total ≤ maxbytes
  shift_room =
      let d = div-mul-le_self maxbytes total in
      let q : suc (iter % (maxbytes / total)) ≤ maxbytes / total = mod-lt iter steps_positive in
      let m : total * suc (iter % (maxbytes / total)) ≤ total * (maxbytes / total) =
        mul-le-mul_left total q in
      let c = mul_comm total (maxbytes / total) in
      let e = mul-suc total (iter % (maxbytes / total)) in omega arith

shift-Shifted :
    (maxbytes : ℕ) (s : Sizes) (iter : ℕ)
    → max s.send_bytes s.expected_bytes ≤ maxbytes
    → maxbytes < 2 ^ 64
    → Shifted maxbytes s iter
unfolding shift
shift-Shifted maxbytes s iter h b = elim (Bool-cases (total == 0)) [
  | inl z ↦ shifted 0 (ground arith) (ground arith)
  | inr z ↦
      let p : 0 < total = ground arith in
      let q = steps_positive maxbytes total iter h b p in
      let r = shift_room maxbytes total iter h b p in
      shifted (total * (iter % (maxbytes / total))) (ground arith) r
]
  where
    total : ℕ
    total = max s.send_bytes s.expected_bytes

-- The offset of a rank's place, in either buffer.
in_place_offset_small :
    (in_place : Bool) (offset r limit bytes : ℕ)
    → r * offset + bytes ≤ limit
    → bytes ≤ limit
    → limit < 2 ^ 64
    → in_place_offset in_place offset r + bytes ≤ limit
in_place_offset_small false offset r limit bytes a b c = omega arith
in_place_offset_small true offset r limit bytes a b c = let e = mul_comm r offset in omega arith

unalign_small :
    {w : ℕ} (unalign : ℕ) → IsWordSize w → 8 * unalign < 2 ^ 64 → times unalign w ≤ 8 * unalign
unalign_small unalign one h = omega arith
unalign_small unalign two h = omega arith
unalign_small unalign four h = omega arith
unalign_small unalign eight h = omega arith

module _ (in_place : Bool) (s : Sizes) (sh pad r : ℕ) where
  send_start-regions :
      (m : Mode)
      → send_start (regions m in_place s sh pad r)
        ≡ sh + pad + in_place_offset in_place s.send_inplace_offset r
  send_start-regions pointers = omega arith
  send_start-regions windows = omega arith

  recv_start-regions :
      (m : Mode)
      → recv_start (regions m in_place s sh pad r)
        ≡ sh + pad + in_place_offset in_place s.recv_inplace_offset r
  recv_start-regions pointers = omega arith
  recv_start-regions windows = omega arith

  regions-Inside :
      (m : Mode) (size n maxbytes room : ℕ)
      → Fits size n s
      → r < n
      → sh + max s.send_bytes s.expected_bytes ≤ maxbytes
      → pad ≤ room
      → maxbytes + room < 2 ^ 64
      → Inside (maxbytes + room) s (regions m in_place s sh pad r)
  regions-Inside m size n maxbytes room f l k u h =
      let limit : ℕ = max s.send_bytes s.expected_bytes in
      let a =
        in_place_offset_small in_place s.send_inplace_offset r limit s.send_bytes
          (f.send_in_place r l) (omega arith) (omega arith) in
      let b =
        in_place_offset_small in_place s.recv_inplace_offset r limit s.expected_bytes
          (f.recv_in_place r l) (omega arith) (omega arith) in
      record {
        send_inside = omega (arith, send_start-regions m);
        recv_inside = omega (arith, recv_start-regions m);
      }

-- What `startColl` does with the memory at an iteration: the offset is found, and either mode uses bytes
-- inside the buffers, the same ones.
pub record Placed (coll : Collective) (size w n maxbytes unalign iter r : ℕ) (in_place : Bool)
    : Type 0 where
  sh : ℕ
  found : shift maxbytes (setup_args coll size w n) iter ≡ some sh
  inside :
      (m : Mode)
      → Inside
          (alloc_bytes maxbytes unalign)
          (setup_args coll size w n)
          (regions m in_place (setup_args coll size w n) sh (times unalign w) r)
  same_send :
      (p q : Mode)
      → send_start (regions p in_place (setup_args coll size w n) sh (times unalign w) r)
        ≡ send_start (regions q in_place (setup_args coll size w n) sh (times unalign w) r)
  same_recv :
      (p q : Mode)
      → recv_start (regions p in_place (setup_args coll size w n) sh (times unalign w) r)
        ≡ recv_start (regions q in_place (setup_args coll size w n) sh (times unalign w) r)

-- At every iteration, for each of the collectives but alltoallv, type of 1, 2, 4 or 8 bytes,
-- number of ranks, rank below it and size up to the largest, if 8 times the number of -u is less
-- than 2^31 and the padded size less than 2^64: the division that finds the offset is not by zero,
-- what the rank sends and receives, used in place or not, given as pointers or as windows, lies
-- inside the buffers that AllocateBuffs allocates, and it begins at the same byte for pointers and
-- for windows.
pub start_coll-Placed :
    (coll : Collective) (size w n maxbytes unalign iter r : ℕ) (in_place : Bool)
    → IsWordSize w
    → r < n
    → size ≤ maxbytes
    → 8 * unalign < 2 ^ 31
    → maxbytes + 8 * unalign < 2 ^ 64
    → Placed coll size w n maxbytes unalign iter r in_place
start_coll-Placed coll size w n maxbytes unalign iter r in_place word l small narrow h =
    let s = setup_args coll size w n in
    let f : Fits size n s = setup_args-Fits coll size w n word (omega arith) (omega arith) in
    let send = f.send_fits in
    let recv = f.recv_fits in
    let pad = unalign_small unalign word (omega arith) in
    let bytes : alloc_bytes maxbytes unalign ≡ maxbytes + 8 * unalign = ground arith in
    elim (shift-Shifted maxbytes s iter (omega arith) (omega arith)) [
      | shifted sh e k ↦
          let send_at = send_start-regions in_place s sh (times unalign w) r in
          let recv_at = recv_start-regions in_place s sh (times unalign w) r in
          record {
            sh = sh;
            found = e;
            inside = λ m.
                subst (λ b. Inside b s (regions m in_place s sh (times unalign w) r)) (sym bytes)
                  (regions-Inside in_place s sh (times unalign w) r m size n maxbytes (8 * unalign)
                    f l k pad h);
            same_send = λ p q. send_at p ∙ sym (send_at q);
            same_recv = λ p q. recv_at p ∙ sym (recv_at q);
          }
    ]
