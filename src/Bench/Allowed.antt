-- ===== src/Bench/Allowed.antt =====
-- Which of the calls of `BenchTime` of src/common.cu NCCL and CUDA allow, and how lists of calls are put
-- together.
use nccl_tests.Prelude.{
  ℕ, zero, suc, ◌+◌, ◌<◌, ◌≤◌, ◌≡◌, refl, sym, ap, ◌∙◌, Bool, true, false, ◌&&◌, ◌||◌, not, Option,
  none, some, List, [], ◌∷◌, ◌++◌, ◌==◌, if◌then◌else◌, ltb, arith, Bool-cases, inl, inr,
}
use mathlib.Core.Path.{fun_ext}
use nccl_tests.Launch.{
  Step, group_start, group_end, synchronize, check_data, elapsed_time, begin_capture, end_capture,
  instantiate_graph, launch_graph, for_each, when,
}

-- How many groups are open, and the GPUs whose streams are captured.
pub record Open : Type 0 where
  pub groups : ℕ
  pub captures : List ℕ

abbrev pub open_now : (groups : ℕ) (captures : List ℕ) → Open
open_now g k = record { groups = g; captures = k }

abbrev pub only_if : Bool → Open → Option Open
only_if b o = if b then some o else none

abbrev pub is_captured : (gpu : ℕ) → List ℕ → Bool
is_captured gpu [] = false
is_captured gpu (c ∷ l) = (c == gpu) || is_captured gpu l

abbrev pub without : (gpu : ℕ) → List ℕ → List ℕ
without gpu [] = []
without gpu (c ∷ l) = if c == gpu then l else c ∷ without gpu l

-- No stream is captured and no group is open.
abbrev pub is_closed : Open → Bool
is_closed o = elim o.captures [ [] ↦ o.groups == 0 | c ∷ l ↦ false ]

-- `none` is a call that NCCL or CUDA does not allow: the end of a group that is not open, the begin of a
-- capture of a stream that is captured, the end of one that is not, either of them in a group, and a
-- query of a stream, a graph or an event, or a use of the results, while a stream is captured or a group
-- is open.
abbrev pub allowed : Step → Open → Option Open
allowed group_start o = some (open_now (suc o.groups) o.captures)
allowed group_end o = elim o.groups [ zero ↦ none | suc g ↦ some (open_now g o.captures) ]
allowed (begin_capture gpu) o =
    only_if (o.groups == 0 && not (is_captured gpu o.captures))
      (open_now o.groups (gpu ∷ o.captures))
allowed (end_capture gpu) o =
    only_if (o.groups == 0 && is_captured gpu o.captures)
      (open_now o.groups (without gpu o.captures))
allowed synchronize o = only_if (is_closed o) o
allowed (elapsed_time gpu start stop) o = only_if (is_closed o) o
allowed (instantiate_graph gpu) o = only_if (is_closed o) o
allowed (launch_graph gpu) o = only_if (is_closed o) o
allowed check_data o = only_if (is_closed o) o
allowed s o = some o

abbrev pub then_open : Option Open → (Open → Option Open) → Option Open
then_open none f = none
then_open (some o) f = f o

-- A list of calls.
abbrev pub all_allowed : List Step → Open → Option Open
all_allowed [] o = some o
all_allowed (s ∷ l) o = then_open (allowed s o) (all_allowed l)

pub then_open_assoc :
    (m : Option Open) (f h : Open → Option Open)
    → then_open (then_open m f) h ≡ then_open m (λ o. then_open (f o) h)
then_open_assoc none f h = refl
then_open_assoc (some o) f h = refl

pub all_allowed-append :
    (a b : List Step) (o : Open)
    → all_allowed (a ++ b) o ≡ then_open (all_allowed a o) (all_allowed b)
all_allowed-append [] b o = refl
all_allowed-append (s ∷ a) b o =
    ap (then_open (allowed s o)) (fun_ext (all_allowed-append a b))
    ∙ sym (then_open_assoc (allowed s o) (all_allowed a) (all_allowed b))

-- The calls are allowed and lead from one state to another.
pub record Runs (l : List Step) (o p : Open) : Type 0 where
  pub ends : all_allowed l o ≡ some p

-- One list of calls behind another.
pub in_turn : {a b : List Step} {o p q : Open} → Runs a o p → Runs b p q → Runs (a ++ b) o q
in_turn {a} {b} {o} h k = record {
  ends = all_allowed-append a b o ∙ ap (λ m. then_open m (all_allowed b)) h.ends ∙ k.ends;
}

pub nothing : {o : Open} → Runs [] o o
nothing = record { ends = refl }

pub next :
    {s : Step} {l : List Step} {o p q : Open} → allowed s o ≡ some p → Runs l p q → Runs (s ∷ l) o q
next {l = l} h k = record { ends = ap (λ m. then_open m (all_allowed l)) h ∙ k.ends }

-- A loop whose rounds leave all as it is.
pub for_each_keeps :
    {o : Open} (f : ℕ → List Step)
    → ((i : ℕ) → Runs (f i) o o)
    → (i n : ℕ) → Runs (for_each f i n) o o
for_each_keeps f h i zero = nothing
for_each_keeps f h i (suc n) = in_turn (h i) (for_each_keeps f h (suc i) n)

pub when_keeps :
    {o : Open} (b : Bool) (l : List Step) → (b ≡ true → Runs l o o) → Runs (when b l) o o
when_keeps true l h = h refl
when_keeps false l h = nothing

-- A part in a group, if there is one.
pub grouped :
    (b : Bool) (l : List Step) (g : ℕ) (k : List ℕ) (rest : List Step)
    → ((d : ℕ) → (b ≡ false → d ≡ g) → Runs l (open_now d k) (open_now d k))
    → Runs rest (open_now g k) (open_now g k)
    → Runs
        (when b (group_start ∷ []) ++ (l ++ (when b (group_end ∷ []) ++ rest)))
        (open_now g k)
        (open_now g k)
grouped true l g k rest h r =
    next refl (in_turn (h (suc g) (λ e. absurd (ground arith))) (next refl r))
grouped false l g k rest h r = in_turn (h g (λ e. refl)) r

-- The GPUs from `i` on and below `n`, the last one first.
abbrev pub gpus_between : (i n : ℕ) → List ℕ
gpus_between i zero = []
gpus_between i (suc n) = if ltb n i then [] else n ∷ gpus_between i n

between_none : (i n : ℕ) → n ≤ i → gpus_between i n ≡ []
between_none i zero h = refl
between_none i (suc n) h = let below : ltb n i ≡ true = ground arith in rw below refl

between_next : (n : ℕ) → gpus_between 0 (suc n) ≡ n ∷ gpus_between 0 n
between_next n = let from : ltb n 0 ≡ false = ground arith in rw from refl

not_yet : (gpu i n : ℕ) → n ≤ gpu → is_captured gpu (gpus_between i n) ≡ false
not_yet gpu i zero h = refl
not_yet gpu i (suc n) h =
    let other : (n == gpu) ≡ false = ground arith in
    let rest = not_yet gpu i n (omega arith) in
    elim (Bool-cases (ltb n i)) [ inl e ↦ rw e refl | inr e ↦ rw (e, other) rest ]

captured_yet : (i n : ℕ) → i < n → is_captured i (gpus_between i n) ≡ true
captured_yet i zero h = absurd (omega arith)
captured_yet i (suc n) h =
    let from : ltb n i ≡ false = ground arith in
    elim (Bool-cases (n == i)) [
      | inl e ↦ rw (from, e) refl
      | inr e ↦ rw (from, e) (captured_yet i n (ground arith))
    ]

without_first : (i n : ℕ) → i < n → without i (gpus_between i n) ≡ gpus_between (suc i) n
without_first i zero h = absurd (omega arith)
without_first i (suc n) h =
    let from : ltb n i ≡ false = ground arith in
    elim (Bool-cases (n == i)) [
      | inl e ↦
          let last : ltb n (suc i) ≡ true = ground arith in
          rw (from, last, e) (between_none i n (ground arith))
      | inr e ↦
          let more : ltb n (suc i) ≡ false = ground arith in
          rw (from, more, e) (ap (λ l. n ∷ l) (without_first i n (ground arith)))
    ]

-- The captures of all GPUs.
pub captures_begin :
    (m k n : ℕ)
    → m + k ≡ n
    → Runs
        (for_each (λ i. begin_capture i ∷ []) m k)
        (open_now 0 (gpus_between 0 m))
        (open_now 0 (gpus_between 0 n))
captures_begin m zero n e =
    let same : m ≡ n = omega arith in
    record { ends = ap (λ x. some (open_now 0 (gpus_between 0 x))) same }
captures_begin m (suc k) n e =
    next (begins (is_captured m (gpus_between 0 m)) (not_yet m 0 m (omega arith)))
      (captures_begin (suc m) k n (omega arith))
  where
    begins :
        (b : Bool)
        → b ≡ false
        → only_if (true && not b) (open_now 0 (m ∷ gpus_between 0 m))
          ≡ some (open_now 0 (gpus_between 0 (suc m)))
    begins b h = rw h (ap (λ l. some (open_now 0 l)) (sym (between_next m)))

pub captures_end :
    (i k n : ℕ)
    → i + k ≡ n
    → Runs (for_each (λ i. end_capture i ∷ []) i k) (open_now 0 (gpus_between i n)) (open_now 0 [])
captures_end i zero n e = record {
  ends = ap (λ l. some (open_now 0 l)) (between_none i n (omega arith));
}
captures_end i (suc k) n e =
    next (ends (is_captured i (gpus_between i n)) (captured_yet i n (omega arith)))
      (captures_end (suc i) k n (omega arith))
  where
    ends :
        (b : Bool)
        → b ≡ true
        → only_if (true && b) (open_now 0 (without i (gpus_between i n)))
          ≡ some (open_now 0 (gpus_between (suc i) n))
    ends b h = rw h (ap (λ l. some (open_now 0 l)) (without_first i n (omega arith)))

pub each_keeps :
    {o : Open} (f : ℕ → Step)
    → ((i : ℕ) → allowed (f i) o ≡ some o)
    → (i n : ℕ) → Runs (for_each (λ i. f i ∷ []) i n) o o
each_keeps f h = for_each_keeps (λ i. f i ∷ []) (λ i. next (h i) nothing)
