-- ===== src/Bench/Rounds.antt =====
-- The work between two events of src/common.cu: what is timed, and the rounds of the timed loop of
-- `BenchTime`.
use nccl_tests.Prelude.{
  ℕ, zero, suc, ◌+◌, ◌*◌, ◌<◌, ◌≤◌, ◌≡◌, refl, ap, ◌∙◌, subst, Bool, true, false, not, Option, none,
  some, List, [], ◌∷◌, ◌++◌, append_assoc, ◌==◌, if◌then◌else◌, arith, Bool-cases, inl, inr,
}

-- What the stream of a GPU is given, and the thread's waits for the other threads between.
pub data Work : Type 0 where
  call : (iter : ℕ) → Work
  event : (slot : ℕ) → Work
  wait : Work

abbrev pub when_work : Bool → List Work → List Work
when_work true l = l
when_work false l = []

-- What stands behind the first record of an event.
abbrev pub behind : (slot : ℕ) → List Work → Option (List Work)
behind slot [] = none
behind slot (event e ∷ l) = if e == slot then some l else behind slot l
behind slot (w ∷ l) = behind slot l

abbrev pub put : Work → Option (List Work) → Option (List Work)
put w none = none
put w (some r) = some (w ∷ r)

-- What stands before it, other events left out.
abbrev pub before : (slot : ℕ) → List Work → Option (List Work)
before slot [] = none
before slot (event e ∷ l) = if e == slot then some [] else before slot l
before slot (w ∷ l) = put w (before slot l)

abbrev pub before_in : (slot : ℕ) → Option (List Work) → Option (List Work)
before_in slot none = none
before_in slot (some r) = before slot r

-- What is timed by two events.
abbrev pub measured : (start stop : ℕ) → List Work → Option (List Work)
measured start stop l = before_in stop (behind start l)

-- `n` collective calls from the iteration `i` on, each with the wait of blocking mode 1.
abbrev pub calls : (waits : Bool) (i n : ℕ) → List Work
calls waits i zero = []
calls waits i (suc n) = call i ∷ (when_work waits (wait ∷ []) ++ calls waits (suc i) n)

pub behind-calls :
    (slot : ℕ) (waits : Bool) (i n : ℕ) (l : List Work)
    → behind slot (calls waits i n ++ l) ≡ behind slot l
behind-calls slot waits i zero l = refl
behind-calls slot true i (suc n) l = behind-calls slot true (suc i) n l
behind-calls slot false i (suc n) l = behind-calls slot false (suc i) n l

before-calls :
    (slot : ℕ) (waits : Bool) (i n : ℕ) (l : List Work)
    → before slot l ≡ some []
    → before slot (calls waits i n ++ l) ≡ some (calls waits i n)
before-calls slot waits i zero l h = h
before-calls slot true i (suc n) l h =
    ap (λ x. put (call i) (put wait x)) (before-calls slot true (suc i) n l h)
before-calls slot false i (suc n) l h = ap (put (call i)) (before-calls slot false (suc i) n l h)

-- The rounds of the loop: `paired` is blocking mode 3, and `base` the first event of the GPU.
module _ (paired waits : Bool) (base agg : ℕ) where
  abbrev pub start_at : ℕ → ℕ
  start_at k = base + (if paired then 2 * k else k)

  abbrev pub stop_at : ℕ → ℕ
  stop_at k = base + (if paired then 2 * k + 1 else k + 1)

  abbrev pub round_end : ℕ → List Work
  round_end k = when_work paired (event (stop_at k) ∷ wait ∷ [])

  abbrev pub rounds : (k n : ℕ) → List Work
  rounds k zero = []
  rounds k (suc n) =
      event (start_at k) ∷ (calls waits (k * agg) agg ++ (round_end k ++ rounds (suc k) n))

==_same : (x : ℕ) → (x == x) ≡ true
==_same x = ground arith

behind-other :
    (slot e : ℕ) (l : List Work) → (e == slot) ≡ false → behind slot (event e ∷ l) ≡ behind slot l
behind-other slot e l h = ap (λ b. if b then some l else behind slot l) h

module _ (waits : Bool) (base agg last : ℕ) (rest : List Work) where
  -- The rounds with the event that is recorded behind them all.
  abbrev pub all_rounds : (paired : Bool) (k n : ℕ) → List Work
  all_rounds paired k n =
      rounds paired waits base agg k n
      ++ (when_work (not paired) (event (base + last) ∷ []) ++ rest)

  round_append :
      (paired : Bool) (k n : ℕ)
      → all_rounds paired k (suc n)
        ≡ event (start_at paired waits base agg k)
          ∷ (calls waits (k * agg) agg
              ++ (round_end paired waits base agg k ++ all_rounds paired (suc k) n))
  round_append paired k n = simp append_assoc

  -- The last event of a round is the next one behind its calls.
  next_stop :
      (paired : Bool) (k n : ℕ)
      → suc k + n ≡ last
      → before
          (stop_at paired waits base agg k)
          (round_end paired waits base agg k ++ all_rounds paired (suc k) n)
        ≡ some []
  next_stop true k n h = ground arith
  next_stop false k zero h = ground arith
  next_stop false k (suc n) h = ground arith

  end_skipped :
      (paired : Bool) (j k n : ℕ)
      → k < j
      → behind
          (start_at paired waits base agg j)
          (round_end paired waits base agg k ++ all_rounds paired (suc k) n)
        ≡ behind (start_at paired waits base agg j) (all_rounds paired (suc k) n)
  end_skipped true j k n h =
      behind-other (base + 2 * j) (base + (2 * k + 1)) (wait ∷ all_rounds true (suc k) n)
        (ground arith)
  end_skipped false j k n h = refl

  start_skipped :
      (paired : Bool) (j k : ℕ)
      → k < j
      → (start_at paired waits base agg k == start_at paired waits base agg j) ≡ false
  start_skipped true j k h = ground arith
  start_skipped false j k h = ground arith

  round_skipped :
      (paired : Bool) (j k n : ℕ)
      → k < j
      → behind (start_at paired waits base agg j) (all_rounds paired k (suc n))
        ≡ behind (start_at paired waits base agg j) (all_rounds paired (suc k) n)
  round_skipped paired j k n h =
      let s = start_at paired waits base agg j in
      let later = round_end paired waits base agg k ++ all_rounds paired (suc k) n in
      ap (behind s) (round_append paired k n)
      ∙ behind-other s (start_at paired waits base agg k) (calls waits (k * agg) agg ++ later)
          (start_skipped paired j k h)
      ∙ behind-calls s waits (k * agg) agg later
      ∙ end_skipped paired j k n h

  round_found :
      (paired : Bool) (k n : ℕ)
      → suc k + n ≡ last
      → measured
          (start_at paired waits base agg k)
          (stop_at paired waits base agg k)
          (all_rounds paired k (suc n))
        ≡ some (calls waits (k * agg) agg)
  round_found paired k n h =
      let s = start_at paired waits base agg k in
      let t = stop_at paired waits base agg k in
      let later = round_end paired waits base agg k ++ all_rounds paired (suc k) n in
      ap (measured s t) (round_append paired k n)
      ∙ ap
          (λ b. before_in t (
            if b
            then some (calls waits (k * agg) agg ++ later)
            else behind s (calls waits (k * agg) agg ++ later)))
          (==_same s)
      ∙ before-calls t waits (k * agg) agg later (next_stop paired k n h)

  -- Each round is timed by its own events.
  pub measured-rounds :
      (paired : Bool) (j k n : ℕ)
      → k ≤ j
      → j < k + n
      → k + n ≡ last
      → measured
          (start_at paired waits base agg j)
          (stop_at paired waits base agg j)
          (all_rounds paired k n)
        ≡ some (calls waits (j * agg) agg)
  measured-rounds paired j k zero h i e = ground arith
  measured-rounds paired j k (suc n) h i e = elim (Bool-cases (k == j)) [
    | inl b ↦
        subst
          (λ x.
            measured (start_at paired waits base agg x) (stop_at paired waits base agg x)
              (all_rounds paired k (suc n))
            ≡ some (calls waits (x * agg) agg))
          (ground arith) (round_found paired k n (omega arith))
    | inr b ↦
        ap (before_in (stop_at paired waits base agg j)) (round_skipped paired j k n (ground arith))
        ∙ measured-rounds paired j (suc k) n (ground arith) (omega arith) (omega arith)
  ]
