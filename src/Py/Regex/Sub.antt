-- ===== src/Py/Regex/Sub.antt =====
-- `re.sub(pattern, repl, s)` of a pattern that takes a character or more, and of a text without `\`.
use cxlkvs.Prelude.{
  ℕ, zero, suc, ◌-◌, ◌≡◌, ◌∙◌, ap, refl, true, Option, none, some, [], ◌∷◌, ◌++◌, length,
  length-append, append-nil, arith,
}
use cxlkvs.Py.Text.{Text}
use cxlkvs.Py.Regex.{Pattern, Groups, many, group, match_head}

-- the first group
abbrev group_1 : Option Groups → Option Text
group_1 none = none
group_1 (some []) = none
group_1 (some (g ∷ gs)) = some g

-- what stands behind a match at the head
unfoldable pub rest_behind : Pattern → Text → Option Text
unfolding match_head
rest_behind ps s = group_1 (match_head (ps ++ group (many (λ c. true) ∷ [])) s)

module _ (ps : Pattern) where
  -- no match begins in the first of two parts of a text
  abbrev pub Unmatched : Text → Text → Type 0
  Unmatched [] t = Unit
  Unmatched (c ∷ s) t = (rest_behind ps (c ∷ (s ++ t)) ≡ none) × Unmatched s t

module _ (ps : Pattern) (repl : Text) where
  -- from the left; `skip` characters are still those of a match
  unfoldable pub sub_from : ℕ → Text → Text
  sub_from skip [] = []
  sub_from (suc skip) (c ∷ s) = sub_from skip s
  sub_from zero (c ∷ s) = elim (rest_behind ps (c ∷ s)) [
    | none ↦ c ∷ sub_from zero s
    | some r ↦ repl ++ sub_from (length s - length r) s
  ]

  unfoldable pub sub : Text → Text
  unfolding sub_from
  sub s = sub_from 0 s

  sub_from-none :
      (c : ℕ) (s : Text) → rest_behind ps (c ∷ s) ≡ none → sub_from 0 (c ∷ s) ≡ c ∷ sub_from 0 s
  unfolding sub_from
  sub_from-none c s e = rw (sub_from, e) refl

  sub_from-some :
      (c : ℕ) (s r : Text)
      → rest_behind ps (c ∷ s) ≡ some r
      → sub_from 0 (c ∷ s) ≡ repl ++ sub_from (length s - length r) s
  unfolding sub_from
  sub_from-some c s r e = rw (sub_from, e) refl

  sub_from-Unmatched : (s t : Text) → Unmatched ps s t → sub_from 0 (s ++ t) ≡ s ++ sub_from 0 t
  unfolding sub_from
  sub_from-Unmatched [] t h = refl
  sub_from-Unmatched (c ∷ s) t h =
      sub_from-none c (s ++ t) h.0 ∙ ap (λ u. c ∷ u) (sub_from-Unmatched s t h.1)

  sub_from-all : (s : Text) → Unmatched ps s [] → sub_from 0 s ≡ s
  unfolding sub_from
  sub_from-all [] h = refl
  sub_from-all (c ∷ s) h =
      let none_here : rest_behind ps (c ∷ s) ≡ none = rw append-nil at h.0 in
      sub_from-none c s none_here ∙ ap (λ u. c ∷ u) (sub_from-all s h.1)

  sub_from-skip : (s t : Text) → sub_from (length s) (s ++ t) ≡ sub_from 0 t
  unfolding sub_from
  sub_from-skip [] t = refl
  sub_from-skip (c ∷ s) t = sub_from-skip s t

  -- the only match of a text is replaced
  pub sub-one_match :
      (before after : Text) (c : ℕ) (s : Text)
      → Unmatched ps before (c ∷ (s ++ after))
      → rest_behind ps (c ∷ (s ++ after)) ≡ some after
      → Unmatched ps after []
      → sub (before ++ c ∷ (s ++ after)) ≡ before ++ (repl ++ after)
  unfolding sub sub_from
  sub-one_match before after c s h e k =
      let skip : length (s ++ after) - length after ≡ length s =
        omega (arith, length-append s after) in
      sub_from-Unmatched before (c ∷ (s ++ after)) h
      ∙ ap (λ u. before ++ u)
          (sub_from-some c (s ++ after) after e
            ∙ rw skip (ap (λ u. repl ++ u) (sub_from-skip s after ∙ sub_from-all after k)))
