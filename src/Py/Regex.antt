-- ===== src/Py/Regex.antt =====
-- The part of Python's `re` that the scripts use: a pattern is a sequence of characters, character
-- classes with `*` or `?`, alternatives of words, and groups that are not nested. Matching is
-- greedy, with backtracking; `re.search` takes the leftmost match.
pub mod Laws
pub mod Fields
pub mod Backtrack
pub mod Sub
use cxlkvs.Prelude.{
  ℕ, Bool, true, false, not, String, Option, none, some, List, [], ◌∷◌, ◌++◌, ◌==◌, nat_eq,
  if◌then◌else◌,
}
use cxlkvs.Py.Text.{Text, codes, is_digit, is_space}

pub data Item : Type 0 where
  -- one character of a class; `c*`, greedy; `c?`, greedy
  one : (ℕ → Bool) → Item
  many : (ℕ → Bool) → Item
  optional : (ℕ → Bool) → Item
  -- `(?:w1|w2)` on words
  either : List Text → Item
  -- the parentheses of a group
  enter : Item
  leave : Item

abbrev pub Pattern : Type 0
Pattern = List Item

abbrev pub is_char : ℕ → ℕ → Bool
is_char c x = x == c

-- `.` matches all but a newline
abbrev pub is_dot : ℕ → Bool
is_dot x = not (x == b'\n')

abbrev pub not_space : ℕ → Bool
not_space x = not (is_space x)

abbrev lits : Text → Pattern
lits [] = []
lits (c ∷ s) = one (is_char c) ∷ lits s

abbrev pub lit : String → Pattern
lit w = lits (codes w)

abbrev pub some_of : (ℕ → Bool) → Pattern
some_of p = one p ∷ many p ∷ []

abbrev pub group : Pattern → Pattern
group ps = enter ∷ (ps ++ (leave ∷ []))

abbrev pub spaces : Pattern
spaces = some_of is_space

abbrev pub number : Pattern
number = group (some_of is_digit)

-- The text of each group, in order.
abbrev pub Groups : Type 0
Groups = List Text

abbrev or_else : Option Groups → Option Groups → Option Groups
or_else (some g) later = some g
or_else none later = later

-- A continuation takes the text of the open group, and what is left of the subject.
abbrev Rest : Type 0
Rest = Text → Text → Option Groups

pub run_many : (ℕ → Bool) → Rest → Text → Text → Option Groups
run_many p k cur [] = k cur []
run_many p k cur (c ∷ s) = elim (p c) [
  | true ↦ or_else (run_many p k (cur ++ c ∷ []) s) (k cur (c ∷ s))
  | false ↦ k cur (c ∷ s)
]

pub run_one : (ℕ → Bool) → Rest → Text → Text → Option Groups
run_one p k cur [] = none
run_one p k cur (c ∷ s) = elim (p c) [ true ↦ k (cur ++ c ∷ []) s | false ↦ none ]

-- One word of an alternative, from the head of the subject.
run_word : Text → Rest → Text → Text → Option Groups
run_word [] k cur s = k cur s
run_word (w ∷ ws) k cur [] = none
run_word (w ∷ ws) k cur (c ∷ s) = if c == w then run_word ws k (cur ++ c ∷ []) s else none

run_either : List Text → Rest → Text → Text → Option Groups
unfolding run_word
run_either [] k cur s = none
run_either (w ∷ ws) k cur s = or_else (run_word w k cur s) (run_either ws k cur s)

-- A match that begins at the head of the subject.
unfoldable pub run : Pattern → Groups → Text → Text → Option Groups
unfolding run_many run_one run_either
run [] gs cur s = some gs
run (one p ∷ ps) gs cur s = run_one p (run ps gs) cur s
run (many p ∷ ps) gs cur s = run_many p (run ps gs) cur s
run (optional p ∷ ps) gs cur s = or_else (run_one p (run ps gs) cur s) (run ps gs cur s)
run (either ws ∷ ps) gs cur s = run_either ws (run ps gs) cur s
run (enter ∷ ps) gs cur s = run ps gs [] s
run (leave ∷ ps) gs cur s = run ps (gs ++ cur ∷ []) cur s

-- `re.match(pattern, s)`, and `re.search('^' + pattern, s)`: no flag is given, so `^` is the head
-- of the whole subject.
unfoldable pub match_head : Pattern → Text → Option Groups
unfolding run
match_head ps s = run ps [] [] s

-- `re.search(pattern, s)` of a pattern that does not begin with `^`
unfoldable pub search_any : Pattern → Text → Option Groups
unfolding match_head
search_any ps [] = match_head ps []
search_any ps (c ∷ s) = or_else (match_head ps (c ∷ s)) (search_any ps s)
