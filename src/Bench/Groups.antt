-- ===== src/Bench/Groups.antt =====
-- What `BenchTime` of src/common.cu gives the stream of a GPU when NCCL holds the calls of an open group
-- back: the collective calls of a group reach the stream at the end of the outermost group, and an event is
-- recorded at once.
use nccl_tests.Prelude.{
  ℕ, zero, suc, ◌≡◌, refl, sym, ap, ◌∙◌, Bool, true, false, List, [], ◌∷◌, ◌++◌, append-nil,
  append_assoc, ◌==◌,
}
use nccl_tests.Launch.{Step, group_start, group_end, run_coll, for_each, when}
use nccl_tests.Bench.Rounds.{Work, call, when_work}
use nccl_tests.Bench.Streams.{work_of, timeline, timeline-append}

-- `depth` groups are open, and `held` is what they hold back.
abbrev pub stream : (g depth : ℕ) → (held : List Work) → List Step → List Work
stream g depth held [] = []
stream g depth held (group_start ∷ l) = stream g (suc depth) held l
stream g depth held (group_end ∷ l) = elim depth [
  | zero ↦ stream g zero held l
  | suc d ↦ elim d [ zero ↦ held ++ stream g zero [] l | suc e ↦ stream g (suc e) held l ]
]
stream g depth held (run_coll gpu iter ∷ l) = elim depth [
  | zero ↦ when_work (gpu == g) (call iter ∷ []) ++ stream g zero held l
  | suc d ↦ stream g (suc d) (held ++ when_work (gpu == g) (call iter ∷ [])) l
]
stream g depth held (s ∷ l) = work_of g s ++ stream g depth held l

module _ (g : ℕ) where
  -- Calls that no group holds back.
  pub record Passes (l : List Step) : Type 0 where
    pub at_once :
        (depth : ℕ) (held : List Work) (rest : List Step)
        → stream g depth held (l ++ rest) ≡ timeline g l ++ stream g depth held rest

  -- Calls that a group holds back.
  pub record Held (l : List Step) : Type 0 where
    pub later :
        (depth : ℕ) (held : List Work) (rest : List Step)
        → stream g (suc depth) held (l ++ rest) ≡ stream g (suc depth) (held ++ timeline g l) rest

  -- Calls that begin and end outside groups.
  pub record Settled (l : List Step) : Type 0 where
    pub in_order :
        (rest : List Step) → stream g 0 [] (l ++ rest) ≡ timeline g l ++ stream g 0 [] rest

  pub Passes-Settled : {l : List Step} → Passes l → Settled l
  Passes-Settled h = record { in_order = h.at_once 0 [] }

  pub Passes-nothing : Passes []
  Passes-nothing = record { at_once = λ d p r. refl }

  pub Settled-nothing : Settled []
  Settled-nothing = record { in_order = λ r. refl }

  pub Held-nothing : Held []
  Held-nothing = record { later = λ d p r. ap (λ x. stream g (suc d) x r) (sym (append-nil p)) }

  spread :
      (a b : List Step) (r : List Work)
      → timeline g a ++ (timeline g b ++ r) ≡ timeline g (a ++ b) ++ r
  spread a b r =
      sym (append_assoc (timeline g a) (timeline g b) r)
      ∙ ap (λ x. x ++ r) (sym (timeline-append g a b))

  pub Passes-append : {a b : List Step} → Passes a → Passes b → Passes (a ++ b)
  Passes-append {a} {b} h k = record {
    at_once = λ d p r.
        ap (stream g d p) (append_assoc a b r)
        ∙ h.at_once d p (b ++ r)
        ∙ ap (λ x. timeline g a ++ x) (k.at_once d p r)
        ∙ spread a b (stream g d p r);
  }

  pub Settled-append : {a b : List Step} → Settled a → Settled b → Settled (a ++ b)
  Settled-append {a} {b} h k = record {
    in_order = λ r.
        ap (stream g 0 []) (append_assoc a b r)
        ∙ h.in_order (b ++ r)
        ∙ ap (λ x. timeline g a ++ x) (k.in_order r)
        ∙ spread a b (stream g 0 [] r);
  }

  pub Held-append : {a b : List Step} → Held a → Held b → Held (a ++ b)
  Held-append {a} {b} h k = record {
    later = λ d p r.
        ap (stream g (suc d) p) (append_assoc a b r)
        ∙ h.later d p (b ++ r)
        ∙ k.later d (p ++ timeline g a) r
        ∙ ap (λ x. stream g (suc d) x r)
            (append_assoc p (timeline g a) (timeline g b)
              ∙ ap (λ x. p ++ x) (sym (timeline-append g a b)));
  }

  pub Passes-when : (b : Bool) {l : List Step} → Passes l → Passes (when b l)
  Passes-when true h = h
  Passes-when false h = Passes-nothing

  pub Settled-when : (b : Bool) {l : List Step} → (b ≡ true → Settled l) → Settled (when b l)
  Settled-when true h = h refl
  Settled-when false h = Settled-nothing

  pub Held-when : (b : Bool) {l : List Step} → (b ≡ true → Held l) → Held (when b l)
  Held-when true h = h refl
  Held-when false h = Held-nothing

  pub Passes-loop :
      (f : ℕ → List Step) → ((i : ℕ) → Passes (f i)) → (i n : ℕ) → Passes (for_each f i n)
  Passes-loop f h i zero = Passes-nothing
  Passes-loop f h i (suc n) = Passes-append (h i) (Passes-loop f h (suc i) n)

  pub Settled-loop :
      (f : ℕ → List Step) → ((i : ℕ) → Settled (f i)) → (i n : ℕ) → Settled (for_each f i n)
  Settled-loop f h i zero = Settled-nothing
  Settled-loop f h i (suc n) = Settled-append (h i) (Settled-loop f h (suc i) n)

  pub Held-loop : (f : ℕ → List Step) → ((i : ℕ) → Held (f i)) → (i n : ℕ) → Held (for_each f i n)
  Held-loop f h i zero = Held-nothing
  Held-loop f h i (suc n) = Held-append (h i) (Held-loop f h (suc i) n)

  -- One call.
  pub Passes-step :
      (s : Step)
      → ((d : ℕ) (p : List Work) (r : List Step)
          → stream g d p (s ∷ r) ≡ work_of g s ++ stream g d p r)
      → Passes (s ∷ [])
  Passes-step s h = record {
    at_once = λ d p r. h d p r ∙ ap (λ x. x ++ stream g d p r) (sym (append-nil (work_of g s)));
  }

  -- A part in a group, if there is one: calls that pass, and then calls that are held back.
  pub Settled-group :
      (b : Bool) {now calls : List Step}
      → Passes now
      → (b ≡ true → Held calls)
      → (b ≡ false → Settled calls)
      → (rest : List Step) → Settled rest
      → Settled (when b (group_start ∷ []) ++ ((now ++ calls) ++ (when b (group_end ∷ []) ++ rest)))
  Settled-group false n h k rest s = Settled-append (Settled-append (Passes-Settled n) (k refl)) s
  Settled-group true {now} {calls} n h k rest s = record {
    in_order = λ r.
        let body = h refl in
        ap (stream g 1 []) (append_assoc (now ++ calls) (group_end ∷ rest) r)
        ∙ ap (stream g 1 []) (append_assoc now calls (group_end ∷ (rest ++ r)))
        ∙ n.at_once 1 [] (calls ++ group_end ∷ (rest ++ r))
        ∙ ap (λ x. timeline g now ++ x)
            (body.later 0 [] (group_end ∷ (rest ++ r))
              ∙ ap (λ x. timeline g calls ++ x) (s.in_order r))
        ∙ spread now calls (timeline g rest ++ stream g 0 [] r)
        ∙ spread (now ++ calls) (group_end ∷ rest) (stream g 0 [] r);
  }

  pub Held-group :
      (b : Bool) {calls : List Step}
      → Held calls
      → (rest : List Step) → Held rest
      → Held (when b (group_start ∷ []) ++ (calls ++ (when b (group_end ∷ []) ++ rest)))
  Held-group false h rest s = Held-append h s
  Held-group true {calls} h rest s = record {
    later = λ d p r.
        ap (stream g (suc (suc d)) p) (append_assoc calls (group_end ∷ rest) r)
        ∙ h.later (suc d) p (group_end ∷ (rest ++ r))
        ∙ s.later d (p ++ timeline g calls) r
        ∙ ap (λ x. stream g (suc d) x r)
            (append_assoc p (timeline g calls) (timeline g rest)
              ∙ ap (λ x. p ++ x) (sym (timeline-append g calls (group_end ∷ rest))));
  }
