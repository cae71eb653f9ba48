-- ===== src/Barrier/Invariant.antt =====
-- What holds between the steps of `Barrier` of src/common.cu: the threads of a round, and the counters.
use nccl_tests.Prelude.{
  ℕ, zero, suc, ◌+◌, ◌≤◌, ◌≡◌, refl, sym, subst, ap, ◌∙◌, ◌⊎◌, Bool, true, false, not, Option, none,
  some, List, [], ◌∷◌, length, ◌==◌, if◌then◌else◌, get_elem?, arith, Bool-cases, inl, inr,
}
use nccl_tests.Barrier.{
  Thread, State, counter, set_counter, n_threads, update, entered, left, step_other, step_last,
  step_at, step, run, threads, start,
}

abbrev pub odd : ℕ → Bool
odd zero = false
odd (suc n) = not (odd n)

-- A thread of the round `r`, or one that has not yet left the round before.
abbrev pub InRound : ℕ → Thread → Type 0
InRound r t =
    (t.epoch ≡ odd t.passed) × ((t.passed ≡ r) ⊎ ((suc t.passed ≡ r) × (t.waiting ≡ true)))

abbrev pub AllInRound : ℕ → List Thread → Type 0
AllInRound r [] = Unit
AllInRound r (t ∷ ts) = InRound r t × AllInRound r ts

-- The threads that wait in the round `r`.
abbrev pub waits : ℕ → Thread → ℕ
waits r t = if t.passed == r then (if t.waiting then 1 else 0) else 0

abbrev pub count_waiting : ℕ → List Thread → ℕ
count_waiting r [] = 0
count_waiting r (t ∷ ts) = waits r t + count_waiting r ts

pub record IsConsistent (s : State) : Type 0 where
  pub last_epoch : s.last.epoch ≡ odd s.last.passed
  pub others_in : AllInRound s.last.passed s.others
  pub this_round :
      counter s (odd s.last.passed)
      ≡ waits s.last.passed s.last + count_waiting s.last.passed s.others
  pub other_round : counter s (not (odd s.last.passed)) ≡ 0

pub lookup-InRound :
    (r : ℕ) (ts : List Thread) (i : ℕ) {t : Thread}
    → AllInRound r ts
    → get_elem? ts i ≡ some t
    → InRound r t
lookup-InRound r [] i a e = cc
lookup-InRound r (u ∷ us) zero {t} a e = let h : u ≡ t = cc e in subst (InRound r) h a.0
lookup-InRound r (u ∷ us) (suc i) a e = lookup-InRound r us i a.1 e

update-InRound :
    (r : ℕ) (ts : List Thread) (i : ℕ) (t : Thread)
    → AllInRound r ts
    → InRound r t
    → AllInRound r (update ts i t)
update-InRound r [] i t a h = tt
update-InRound r (u ∷ us) zero t a h = (h, a.1)
update-InRound r (u ∷ us) (suc i) t a h = (a.0, update-InRound r us i t a.1 h)

count-update :
    (r : ℕ) (ts : List Thread) (i : ℕ) (t u : Thread)
    → get_elem? ts i ≡ some t
    → count_waiting r (update ts i u) + waits r t ≡ count_waiting r ts + waits r u
count-update r [] i t u e = cc
count-update r (v ∷ vs) zero t u e =
    let q : v ≡ t = cc e in let h : waits r v ≡ waits r t = ap (waits r) q in omega arith
count-update r (v ∷ vs) (suc i) t u e = let h = count-update r vs i t u e in omega arith

length-update : (ts : List Thread) (i : ℕ) (t : Thread) → length (update ts i t) ≡ length ts
length-update [] i t = refl
length-update (u ∷ us) zero t = refl
length-update (u ∷ us) (suc i) t = ap suc (length-update us i t)

waits-le-count :
    (r : ℕ) (ts : List Thread) (i : ℕ) {t : Thread}
    → get_elem? ts i ≡ some t
    → waits r t ≤ count_waiting r ts
waits-le-count r [] i e = cc
waits-le-count r (v ∷ vs) zero {t} e =
    let q : v ≡ t = cc e in let h : waits r v ≡ waits r t = ap (waits r) q in omega arith
waits-le-count r (v ∷ vs) (suc i) {t} e = let h = waits-le-count r vs i e in omega arith

counter-set : (e : Bool) (n : ℕ) (s : State) → counter (set_counter e n s) e ≡ n
counter-set true n s = refl
counter-set false n s = refl

counter-set_other :
    (e : Bool) (n : ℕ) (s : State) → counter (set_counter e n s) (not e) ≡ counter s (not e)
counter-set_other true n s = refl
counter-set_other false n s = refl

-- A thread that waits in this round keeps the counter above zero, so one that leaves is late.
leaves_late :
    (i : ℕ) (t : Thread) (s : State)
    → IsConsistent s
    → get_elem? s.others i ≡ some t
    → t.waiting ≡ true
    → counter s t.epoch ≡ 0
    → suc t.passed ≡ s.last.passed
leaves_late i t s c e w z = late (lookup-InRound _ s.others i c.others_in e)
  where
    late : InRound s.last.passed t → suc t.passed ≡ s.last.passed
    late (o, inl p) =
        let k : waits s.last.passed t ≡ 1 = ground arith in
        let l = waits-le-count s.last.passed s.others i e in
        let q : counter s (odd s.last.passed) ≡ 0 =
          ap (λ n. counter s (odd n)) (sym p) ∙ ap (counter s) (sym o) ∙ z in
        let n = c.this_round in absurd (omega arith)
    late (o, inr (p, v)) = p

leave-IsConsistent :
    (i : ℕ) (t : Thread) (s : State)
    → IsConsistent s
    → get_elem? s.others i ≡ some t
    → suc t.passed ≡ s.last.passed
    → IsConsistent (record s { others = update s.others i (left t) })
leave-IsConsistent i t s c e p =
    let o = lookup-InRound _ s.others i c.others_in e in
    let k = count-update s.last.passed s.others i t (left t) e in
    let z : waits s.last.passed t ≡ 0 = ground arith in
    let y : waits s.last.passed (left t) ≡ 0 = ground arith in
    let n = c.this_round in
    record {
      last_epoch = c.last_epoch;
      others_in = update-InRound _ s.others i (left t) c.others_in (ap not o.0, inl p);
      this_round = omega arith;
      other_round = c.other_round;
    }

enter-IsConsistent :
    (i : ℕ) (t : Thread) (s : State)
    → IsConsistent s
    → get_elem? s.others i ≡ some t
    → t.waiting ≡ false
    → IsConsistent (
        set_counter t.epoch
          (suc (counter s t.epoch))
          (record s { others = update s.others i (entered t) }))
enter-IsConsistent i t s c e w = go (lookup-InRound _ s.others i c.others_in e)
  where
    go :
        InRound s.last.passed t
        → IsConsistent (
            set_counter t.epoch
              (suc (counter s t.epoch))
              (record s { others = update s.others i (entered t) }))
    go (o, inr (p, v)) = cc
    go (o, inl p) =
        let next : State = record s { others = update s.others i (entered t) } in
        let ep : t.epoch ≡ odd s.last.passed = o ∙ ap odd p in
        let k = count-update s.last.passed s.others i t (entered t) e in
        let z : waits s.last.passed t ≡ 0 = ground arith in
        let y : waits s.last.passed (entered t) ≡ 1 = ground arith in
        let n = c.this_round in
        record {
          last_epoch = c.last_epoch;
          others_in = update-InRound _ s.others i (entered t) c.others_in (o, inl p);
          this_round =
              ap (counter (set_counter t.epoch (suc (counter s t.epoch)) next)) (sym ep)
              ∙ counter-set t.epoch _ next
              ∙ (let m = ap (counter s) ep in omega arith);
          other_round =
              ap (λ b. counter (set_counter t.epoch (suc (counter s t.epoch)) next) (not b))
                (sym ep)
              ∙ counter-set_other t.epoch _ next
              ∙ ap (λ b. counter s (not b)) ep
              ∙ c.other_round;
        }

last_enter-IsConsistent :
    (s : State)
    → IsConsistent s
    → s.last.waiting ≡ false
    → IsConsistent (
        set_counter s.last.epoch
          (suc (counter s s.last.epoch))
          (record s { last = entered s.last }))
last_enter-IsConsistent s c w =
    let next : State = record s { last = entered s.last } in
    let ep = c.last_epoch in
    let z : waits s.last.passed s.last ≡ 0 = ground arith in
    let y : waits s.last.passed (entered s.last) ≡ 1 = ground arith in
    let n = c.this_round in
    record {
      last_epoch = c.last_epoch;
      others_in = c.others_in;
      this_round =
          ap (counter (set_counter s.last.epoch (suc (counter s s.last.epoch)) next)) (sym ep)
          ∙ counter-set s.last.epoch _ next
          ∙ (let m = ap (counter s) ep in omega arith);
      other_round =
          ap (λ b. counter (set_counter s.last.epoch (suc (counter s s.last.epoch)) next) (not b))
            (sym ep)
          ∙ counter-set_other s.last.epoch _ next
          ∙ ap (λ b. counter s (not b)) ep
          ∙ c.other_round;
    }

pub waits-le-one : (r : ℕ) (t : Thread) → waits r t ≤ 1
waits-le-one r t = ground arith

pub count-le-length : (r : ℕ) (ts : List Thread) → count_waiting r ts ≤ length ts
count-le-length r [] = omega arith
count-le-length r (t ∷ ts) = omega (arith, waits-le-one r t, count-le-length r ts)

-- Once all of them wait in the round, they are all late for the next one.
all_late :
    (r : ℕ) (ts : List Thread)
    → AllInRound r ts
    → count_waiting r ts ≡ length ts
    → AllInRound (suc r) ts × (count_waiting (suc r) ts ≡ 0)
all_late r [] a e = (tt, refl)
all_late r (t ∷ ts) a e =
    let one = waits-le-one r t in
    let le = count-le-length r ts in
    let w : waits r t ≡ 1 = omega arith in
    let (b, z) = all_late r ts a.1 (omega arith) in
    let p : t.passed ≡ r = ground arith in
    let v : t.waiting ≡ true = ground arith in
    let y : waits (suc r) t ≡ 0 = ground arith in (((a.0.0, inr (ap suc p, v)), b), omega arith)

pub not-not : (b : Bool) → not (not b) ≡ b
not-not true = refl
not-not false = refl

release-IsConsistent :
    (s : State)
    → IsConsistent s
    → s.last.waiting ≡ true
    → counter s s.last.epoch ≡ n_threads s
    → IsConsistent (set_counter s.last.epoch 0 (record s { last = left s.last }))
release-IsConsistent s c w full =
    let next : State = record s { last = left s.last } in
    let ep = c.last_epoch in
    let n = c.this_round in
    let one = waits-le-one s.last.passed s.last in
    let le = count-le-length s.last.passed s.others in
    let m = ap (counter s) ep in
    let (b, z) = all_late s.last.passed s.others c.others_in (omega arith) in
    let y : waits (suc s.last.passed) (left s.last) ≡ 0 = ground arith in
    record {
      last_epoch = ap not ep;
      others_in = b;
      this_round =
          ap (λ b. counter (set_counter s.last.epoch 0 next) (not b)) (sym ep)
          ∙ counter-set_other s.last.epoch _ next
          ∙ ap (λ b. counter s (not b)) ep
          ∙ (let o = c.other_round in omega arith);
      other_round =
          ap (counter (set_counter s.last.epoch 0 next)) (not-not (odd s.last.passed) ∙ sym ep)
          ∙ counter-set s.last.epoch 0 next;
    }

subst_state :
    (r : Option State) {s s' : State} → r ≡ some s' → r ≡ some s → IsConsistent s → IsConsistent s'
subst_state r {s} {s'} e f c = let g : s ≡ s' = cc (e, f) in subst IsConsistent g c

step_last-IsConsistent :
    (s : State) {s' : State} → IsConsistent s → step_last s ≡ some s' → IsConsistent s'
step_last-IsConsistent s {s'} c e = elim (Bool-cases s.last.waiting) [
  | inr w ↦ subst_state (step_last s) e (rw w refl) (last_enter-IsConsistent s c w)
  | inl w ↦ elim (Bool-cases (counter s s.last.epoch == n_threads s)) [
    | inl f ↦
        subst_state (step_last s) e (rw (w, f) refl) (release-IsConsistent s c w (ground arith))
    | inr f ↦ let g : step_last s ≡ none = rw (w, f) refl in absurd (cc)
  ]
]

step_other-IsConsistent :
    (i : ℕ) (t : Thread) (s : State) {s' : State}
    → IsConsistent s
    → get_elem? s.others i ≡ some t
    → step_other i t s ≡ some s'
    → IsConsistent s'
step_other-IsConsistent i t s {s'} c l e = elim (Bool-cases t.waiting) [
  | inr w ↦ subst_state (step_other i t s) e (rw w refl) (enter-IsConsistent i t s c l w)
  | inl w ↦ elim (Bool-cases (counter s t.epoch == 0)) [
    | inl f ↦
        subst_state (step_other i t s) e (rw (w, f) refl)
          (leave-IsConsistent i t s c l (leaves_late i t s c l w (ground arith)))
    | inr f ↦ let g : step_other i t s ≡ none = rw (w, f) refl in absurd (cc)
  ]
]

step-IsConsistent :
    (i : ℕ) (s : State) {s' : State} → IsConsistent s → step i s ≡ some s' → IsConsistent s'
unfolding step
step-IsConsistent i s {s'} c e = go (get_elem? s.others i) refl e
  where
    go : (o : Option Thread) → get_elem? s.others i ≡ o → step_at o i s ≡ some s' → IsConsistent s'
    go none l e = step_last-IsConsistent s c e
    go (some t) l e = step_other-IsConsistent i t s c l e

pub run-IsConsistent : (is : List ℕ) (s : State) → IsConsistent s → IsConsistent (run is s)
unfolding run
run-IsConsistent [] s c = c
run-IsConsistent (i ∷ is) s c =
    go (step i s) refl (run-IsConsistent is s c) (λ s' d. run-IsConsistent is s' d)
  where
    go :
        (r : Option State)
        → step i s ≡ r
        → IsConsistent (run is s)
        → ((s' : State) → IsConsistent s' → IsConsistent (run is s'))
        → IsConsistent (elim r [ none ↦ run is s | some s' ↦ run is s' ])
    go none e stay go_on = stay
    go (some s') e stay go_on = go_on s' (step-IsConsistent i s c e)

threads-InRound : (n : ℕ) → AllInRound 0 (threads n) × (count_waiting 0 (threads n) ≡ 0)
threads-InRound zero = (tt, refl)
threads-InRound (suc n) = let (a, z) = threads-InRound n in (((refl, inl refl), a), omega arith)

pub start-IsConsistent : (n : ℕ) → IsConsistent (start n)
start-IsConsistent n =
    let (a, z) = threads-InRound n in
    record { last_epoch = refl; others_in = a; this_round = omega arith; other_round = refl }
