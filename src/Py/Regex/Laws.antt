-- ===== src/Py/Regex/Laws.antt =====
-- How a pattern runs over a text whose parts are known: a greedy run takes all that its class holds.
use cxlkvs.Prelude.{
  ℕ, ◌≡◌, ◌≢◌, refl, Bool, true, false, Option, none, some, [], ◌∷◌, ◌++◌, All, append_assoc,
  append-nil,
}
use cxlkvs.Py.Text.{Text}
use cxlkvs.Py.Regex.{
  Pattern, Groups, one, many, leave, some_of, group, run_one, run_many, run, match_head, search_any,
}

-- the class `p` holds no further character
abbrev pub Stops : (ℕ → Bool) → Text → Type 0
Stops p [] = Unit
Stops p (c ∷ s) = p c ≡ false

run_many-take :
    (p : ℕ → Bool) (k : Text → Text → Option Groups) (xs cur rest : Text) {g : Groups}
    → All (λ c. p c ≡ true) xs
    → Stops p rest
    → k (cur ++ xs) rest ≡ some g
    → run_many p k cur (xs ++ rest) ≡ some g
unfolding run_many
run_many-take p k [] cur [] a st h = rw append-nil at h
run_many-take p k [] cur (c ∷ rest) a st h = rw st (rw append-nil at h)
run_many-take p k (x ∷ xs) cur rest {g = g} a st h =
    let later : run_many p k (cur ++ x ∷ []) (xs ++ rest) ≡ some g =
      run_many-take p k xs (cur ++ x ∷ []) rest a.1 st (rw append_assoc h) in
    rw (a.0, later)

module _ (ps : Pattern) (gs : Groups) where
  pub run-many :
      (p : ℕ → Bool) (xs cur rest : Text) {g : Groups}
      → All (λ c. p c ≡ true) xs
      → Stops p rest
      → run ps gs (cur ++ xs) rest ≡ some g
      → run (many p ∷ ps) gs cur (xs ++ rest) ≡ some g
  unfolding run
  run-many p xs cur rest = run_many-take p (run ps gs) xs cur rest

  pub run-some_of :
      (p : ℕ → Bool) (x : ℕ) (xs cur rest : Text) {g : Groups}
      → All (λ c. p c ≡ true) (x ∷ xs)
      → Stops p rest
      → run ps gs (cur ++ x ∷ xs) rest ≡ some g
      → run (some_of p ++ ps) gs cur (x ∷ xs ++ rest) ≡ some g
  unfolding run
  run-some_of p x xs cur rest a st h =
      rw a.0 (run_many-take p (run ps gs) xs (cur ++ x ∷ []) rest a.1 st (rw append_assoc h))

-- A group of one class, with `+`, takes the whole of `xs`.
pub run-group :
    (ps : Pattern) (gs : Groups) (p : ℕ → Bool) (xs cur rest : Text) {g : Groups}
    → All (λ c. p c ≡ true) xs
    → xs ≢ []
    → Stops p rest
    → run ps (gs ++ xs ∷ []) xs rest ≡ some g
    → run (group (some_of p) ++ ps) gs cur (xs ++ rest) ≡ some g
unfolding run
run-group ps gs p [] cur rest a ne st h = absurd (ne refl)
run-group ps gs p (x ∷ xs) cur rest a ne st h =
    unfold run in run-some_of (leave ∷ ps) gs p x xs [] rest a st h

match_head-fails :
    (p : ℕ → Bool) (ps : Pattern) (c : ℕ) (s : Text)
    → p c ≡ false
    → match_head (one p ∷ ps) (c ∷ s) ≡ none
unfolding match_head
match_head-fails p ps c s h = rw (h, run_one)

-- A search passes over a character at which the pattern cannot begin.
pub search_any-skip :
    (p : ℕ → Bool) (ps : Pattern) (xs rest : Text)
    → All (λ c. p c ≡ false) xs
    → search_any (one p ∷ ps) (xs ++ rest) ≡ search_any (one p ∷ ps) rest
unfolding search_any
search_any-skip p ps [] rest a = refl
search_any-skip p ps (x ∷ xs) rest a =
    rw (match_head-fails p ps x (xs ++ rest) a.0) (search_any-skip p ps xs rest a.1)
