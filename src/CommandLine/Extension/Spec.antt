-- ===== src/CommandLine/Extension/Spec.antt =====
-- What `getExtension` of src/common.cu finds.
use nccl_tests.Prelude.{
  ℕ, suc, ◌<◌, ◌≤◌, ◌≡◌, refl, sym, subst, ap, ◌∙◌, true, false, Option, none, some, List, [], ◌∷◌,
  ◌++◌, length, length-append, append_assoc, append-nil, ◌==◌, if◌then◌else◌, arith, Bool-cases,
  inl, inr,
}
use nccl_tests.CommandLine.Extension.{above, scan, advance, extension_at, get_extension}

-- The text behind the last dot, if no slash comes behind that dot: `none` if there is no such dot.
abbrev pub behind_dot : Option (List ℕ) → List ℕ → Option (List ℕ)
behind_dot e [] = e
behind_dot e (x ∷ path) =
    behind_dot
      (if x == 0x2e
        then some []
        else if x == 0x2f
        then none
        else elim e [ none ↦ none | some t ↦ some (t ++ x ∷ []) ])
      path

abbrev pub not_empty : Option (List ℕ) → Option (List ℕ)
not_empty none = none
not_empty (some []) = none
not_empty (some (x ∷ t)) = some (x ∷ t)

-- How the loop's positions stand for the text found so far, with `done` read.
pub data Tracks (done : List ℕ) : Option ℕ → Option ℕ → Option (List ℕ) → Type 0 where
  no_dot : {slash : Option ℕ} → Tracks done none slash none
  hidden : {d s : ℕ} → d ≤ s → s < length done → Tracks done (some d) (some s) none
  found :
      {d : ℕ} {slash : Option ℕ} (stem t : List ℕ)
      → done ≡ stem ++ 0x2e ∷ t
      → length stem ≡ d
      → above (some d) slash ≡ true
      → Tracks done (some d) slash (some t)

abbrev Within : Option ℕ → ℕ → Type 0
Within none n = Unit
Within (some s) n = s < n

advance-stem :
    (stem : List ℕ) (x : ℕ) (t : List ℕ) → advance (suc (length stem)) (stem ++ x ∷ t) ≡ t
advance-stem [] x t = refl
advance-stem (y ∷ stem) x t = advance-stem stem x t

length-snoc : (done : List ℕ) (x : ℕ) → length (done ++ x ∷ []) ≡ suc (length done)
length-snoc done x = omega (arith, length-append done (x ∷ []))

after_dot :
    (done : List ℕ) (slash : Option ℕ)
    → Within slash (length done)
    → above (some (length done)) slash ≡ true
after_dot done none w = refl
after_dot done (some s) w = ground arith

dot_read :
    (done : List ℕ) (slash : Option ℕ)
    → Within slash (length done)
    → Tracks (done ++ 0x2e ∷ []) (some (length done)) slash (some [])
dot_read done slash w = found done [] refl refl (after_dot done slash w)

slash_read :
    (done : List ℕ) {dot slash : Option ℕ} {cand : Option (List ℕ)}
    → Tracks done dot slash cand
    → Tracks (done ++ 0x2f ∷ []) dot (some (length done)) none
slash_read done no_dot = no_dot
slash_read done (hidden h b) = hidden (omega arith) (omega (arith, length-snoc done 0x2f))
slash_read done (found {d} stem t e l a) =
    hidden (omega (arith, length-append stem (0x2e ∷ t), ap length e, l))
      (omega (arith, length-snoc done 0x2f))

abbrev grown : ℕ → Option (List ℕ) → Option (List ℕ)
grown x e = elim e [ none ↦ none | some t ↦ some (t ++ x ∷ []) ]

other_read :
    (done : List ℕ) (x : ℕ) {dot slash : Option ℕ} {cand : Option (List ℕ)}
    → Tracks done dot slash cand
    → Tracks (done ++ x ∷ []) dot slash (grown x cand)
other_read done x no_dot = no_dot
other_read done x (hidden h b) = hidden h (omega (arith, length-snoc done x))
other_read done x (found stem t e l a) =
    found stem (t ++ x ∷ []) (ap (λ p. p ++ x ∷ []) e ∙ append_assoc stem _ _) l a

at_end :
    (done : List ℕ) {dot slash : Option ℕ} {cand : Option (List ℕ)}
    → Tracks done dot slash cand
    → extension_at done (dot, slash, length done) ≡ not_empty cand
at_end done no_dot = refl
at_end done (hidden h b) = ground arith
at_end done (found {d} {slash} stem [] e l a) =
    let f : suc d ≡ length done = omega (arith, length-append stem (0x2e ∷ []), ap length e, l) in
    ground arith
at_end done (found {d} {slash} stem (x ∷ t) e l a) =
    let f : (suc d == length done) ≡ false =
      let g : suc d < length done =
        omega (arith, length-append stem (0x2e ∷ x ∷ t), ap length e, l) in
      ground arith in
    let behind : advance (suc d) done ≡ x ∷ t =
      ap (λ n. advance (suc n) done) (sym l)
      ∙ ap (advance (suc (length stem))) e
      ∙ advance-stem stem 0x2e (x ∷ t) in
    rw (a, f) (ap some behind)

Within-next :
    (done : List ℕ) (x : ℕ) (slash : Option ℕ)
    → Within slash (length done)
    → Within slash (length (done ++ x ∷ []))
Within-next done x none w = tt
Within-next done x (some s) w = omega (arith, length-snoc done x)

-- The rest of the loop, with one more character read.
one_more :
    (rest done : List ℕ) (x : ℕ) (dot slash : Option ℕ) {r : Option (List ℕ)}
    → extension_at ((done ++ x ∷ []) ++ rest) (scan (length (done ++ x ∷ [])) dot slash rest) ≡ r
    → extension_at (done ++ x ∷ rest) (scan (suc (length done)) dot slash rest) ≡ r
one_more rest done x dot slash h =
    ap (λ p. extension_at p (scan (suc (length done)) dot slash rest))
      (sym (append_assoc done (x ∷ []) rest))
    ∙ ap (λ n. extension_at ((done ++ x ∷ []) ++ rest) (scan n dot slash rest))
        (sym (length-snoc done x))
    ∙ h

scan-behind :
    (rest done : List ℕ) (dot slash : Option ℕ) (cand : Option (List ℕ))
    → Tracks done dot slash cand
    → Within slash (length done)
    → extension_at (done ++ rest) (scan (length done) dot slash rest)
      ≡ not_empty (behind_dot cand rest)
unfolding scan
scan-behind [] done dot slash cand tracked w =
    ap (λ p. extension_at p (dot, slash, length done)) (append-nil done) ∙ at_end done tracked
scan-behind (x ∷ rest) done dot slash cand tracked w = elim (Bool-cases (x == 0x2e)) [
  | inl e ↦
      let ex : x ≡ 0x2e = ground arith in
      rw e (
        one_more rest done x (some (length done)) slash (
          scan-behind rest (done ++ x ∷ []) (some (length done)) slash (some [])
            (subst (λ c. Tracks (done ++ c ∷ []) (some (length done)) slash (some [])) (sym ex)
              (dot_read done slash w))
            (Within-next done x slash w)))
  | inr e ↦ elim (Bool-cases (x == 0x2f)) [
    | inl f ↦
        let ex : x ≡ 0x2f = ground arith in
        rw (e, f)
          (one_more rest done x dot (some (length done)) (
            scan-behind rest (done ++ x ∷ []) dot (some (length done)) none
              (subst (λ c. Tracks (done ++ c ∷ []) dot (some (length done)) none) (sym ex)
                (slash_read done tracked))
              (omega (arith, length-snoc done x))))
    | inr f ↦
        rw (e, f)
          (one_more rest done x dot slash (
            scan-behind rest (done ++ x ∷ []) dot slash (grown x cand) (other_read done x tracked)
              (Within-next done x slash w)))
  ]
]

-- `getExtension` finds the text behind the last dot, where no slash comes behind that dot and that text is
-- not empty, and else nothing.
pub get_extension-behind_dot :
    (path : List ℕ) → get_extension (some path) ≡ not_empty (behind_dot none path)
unfolding get_extension
get_extension-behind_dot path = scan-behind path [] none none none no_dot tt
