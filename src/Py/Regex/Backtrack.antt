-- ===== src/Py/Regex/Backtrack.antt =====
-- Where a pattern does not match, and the greedy run of a class that gives characters back.
use cxlkvs.Prelude.{
  ℕ, ◌≡◌, refl, Bool, true, false, none, some, [], ◌∷◌, ◌++◌, All, append_assoc, append-nil,
  Bool-cases, inl, inr,
}
use cxlkvs.Py.Text.{Text}
use cxlkvs.Py.Regex.{Pattern, Groups, one, some_of, run_one, run_many, run, leave, group}

-- the pattern matches at no head of `s`
abbrev pub Refuses : Pattern → Text → Type 0
Refuses ps s = (gs : Groups) (cur : Text) → run ps gs cur s ≡ none

-- nor behind any of its characters
abbrev pub RefusesAll : Pattern → Text → Type 0
RefusesAll ps [] = Refuses ps []
RefusesAll ps (c ∷ s) = Refuses ps (c ∷ s) × RefusesAll ps s

-- behind its characters, but perhaps not at its head
abbrev pub RefusesBehind : Pattern → Text → Type 0
RefusesBehind ps [] = Unit
RefusesBehind ps (c ∷ s) = RefusesAll ps s

module _ (p : ℕ → Bool) (ps : Pattern) where
  pub Refuses-one : (c : ℕ) (s : Text) → p c ≡ false → Refuses (one p ∷ ps) (c ∷ s)
  unfolding run
  Refuses-one c s h gs cur = rw (run_one, h)

  -- over characters at which the pattern cannot begin
  pub RefusesAll-append :
      (xs s : Text)
      → All (λ c. p c ≡ false) xs
      → RefusesAll (one p ∷ ps) s
      → RefusesAll (one p ∷ ps) (xs ++ s)
  RefusesAll-append [] s h k = k
  RefusesAll-append (x ∷ xs) s h k = (Refuses-one x (xs ++ s) h.0, RefusesAll-append xs s h.1 k)

  pub RefusesAll-one : (s : Text) → All (λ c. p c ≡ false) s → RefusesAll (one p ∷ ps) s
  unfolding run run_one
  RefusesAll-one [] h = λ gs cur. refl
  RefusesAll-one (c ∷ s) h = (Refuses-one c s h.0, RefusesAll-one s h.1)

  run_many-none :
      (gs : Groups) (cur s : Text) → RefusesAll ps s → run_many p (run ps gs) cur s ≡ none
  unfolding run_many
  run_many-none gs cur [] h = h gs cur
  run_many-none gs cur (c ∷ s) h = elim (Bool-cases (p c)) [
    | inl e ↦ rw (run_many, e, run_many-none gs (cur ++ c ∷ []) s h.1) (h.0 gs cur)
    | inr e ↦ rw (run_many, e) (h.0 gs cur)
  ]

  pub Refuses-some_of : (s : Text) → RefusesBehind ps s → Refuses (some_of p ++ ps) s
  unfolding run run_one
  Refuses-some_of [] h gs cur = refl
  Refuses-some_of (c ∷ s) h gs cur = elim (Bool-cases (p c)) [
    | inl e ↦ rw (run_one, e) (run_many-none gs (cur ++ c ∷ []) s h)
    | inr e ↦ rw (run_one, e)
  ]

  -- The class could take all of `xs ++ s`, and the pattern behind it matches at `s` and not further.
  run_many_back :
      (gs : Groups) (xs cur s : Text) {g : Groups}
      → All (λ c. p c ≡ true) (xs ++ s)
      → RefusesBehind ps s
      → run ps gs (cur ++ xs) s ≡ some g
      → run_many p (run ps gs) cur (xs ++ s) ≡ some g
  unfolding run_many
  run_many_back gs [] cur [] a b h = rw append-nil at h
  run_many_back gs [] cur (c ∷ s) a b h =
      rw (a.0, run_many-none gs (cur ++ c ∷ []) s b) (rw append-nil at h)
  run_many_back gs (x ∷ xs) cur s {g = g} a b h =
      let later : run_many p (run ps gs) (cur ++ x ∷ []) (xs ++ s) ≡ some g =
        run_many_back gs xs (cur ++ x ∷ []) s a.1 b (rw append_assoc h) in
      rw (a.0, later)

  pub run_back :
      (gs : Groups) (x : ℕ) (xs cur s : Text) {g : Groups}
      → All (λ c. p c ≡ true) (x ∷ xs ++ s)
      → RefusesBehind ps s
      → run ps gs (cur ++ x ∷ xs) s ≡ some g
      → run (some_of p ++ ps) gs cur (x ∷ xs ++ s) ≡ some g
  unfolding run
  run_back gs x xs cur s a b h =
      rw (run_one, a.0) (run_many_back gs xs (cur ++ x ∷ []) s a.1 b (rw append_assoc h))

module _ (ps : Pattern) where
  pub RefusesAll-leave : (s : Text) → RefusesAll ps s → RefusesAll (leave ∷ ps) s
  unfolding run
  RefusesAll-leave [] h = λ gs cur. h (gs ++ cur ∷ []) cur
  RefusesAll-leave (c ∷ s) h = (λ gs cur. h.0 (gs ++ cur ∷ []) cur, RefusesAll-leave s h.1)

  -- a group of a class
  pub run-group_back :
      (p : ℕ → Bool) (gs : Groups) (x : ℕ) (xs cur s : Text) {g : Groups}
      → All (λ c. p c ≡ true) (x ∷ xs ++ s)
      → RefusesBehind ps s
      → run ps (gs ++ (x ∷ xs) ∷ []) (x ∷ xs) s ≡ some g
      → run (group (some_of p) ++ ps) gs cur (x ∷ xs ++ s) ≡ some g
  unfolding run
  run-group_back p gs x xs cur [] a b h = run_back p (leave ∷ ps) gs x xs [] [] a tt h
  run-group_back p gs x xs cur (c ∷ s) a b h =
      run_back p (leave ∷ ps) gs x xs [] (c ∷ s) a (RefusesAll-leave s b) h
