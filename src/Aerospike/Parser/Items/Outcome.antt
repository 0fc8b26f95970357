-- ===== src/Aerospike/Parser/Items/Outcome.antt =====
-- `_parse_items` against the list of the lines' matches.
use cxlkvs.Prelude.{◌≡◌, refl, Option, none, some, List, [], ◌∷◌, Option-cases, inl, inr}
use cxlkvs.Py.Result.{Result, ok, err, raised, ◌>>=◌, Result-cases}
use cxlkvs.Py.Text.{Text}
use cxlkvs.Py.Regex.{Pattern, Groups, match_head}
use cxlkvs.Aerospike.Parser.Items.{first_group, next_item, scan_items, require_match, parse_items}

abbrev add_match : Option Groups → List Groups → List Groups
add_match none ms = ms
add_match (some m) ms = m ∷ ms

-- the matches of the lines that have one, in order
abbrev pub matches : Pattern → List Text → List Groups
matches pattern [] = []
matches pattern (line ∷ lines) = add_match (match_head pattern line) (matches pattern lines)

-- A second match is an error, whatever its value would be.
abbrev pub only {ℓ κ} : {V : Type ℓ} {M : Type κ} → V → List M → Result V
only val [] = ok val
only val (m ∷ ms) = err (raised "too many matches")

-- No match and a second match are errors; the first match is converted before a second is met.
abbrev pub outcome : {V : Type 0} → (Text → Result V) → List Groups → Result V
outcome convert [] = err (raised "no match")
outcome convert (m ∷ ms) = do g ← first_group m; val ← convert g; only val ms

scan_items-found :
    {V : Type 0} (pattern : Pattern) (convert : Text → Result V) (val : V) (lines : List Text)
    → scan_items pattern convert (some val) lines >>= require_match
      ≡ only val (matches pattern lines)
unfolding scan_items require_match
scan_items-found pattern convert val [] = refl
scan_items-found pattern convert val (line ∷ lines) =
    elim (Option-cases (match_head pattern line)) [
      | inl e ↦ rw e (scan_items-found pattern convert val lines)
      | inr (m, e) ↦ rw e
    ]

convert_then_scan :
    {V : Type 0} (pattern : Pattern) (convert : Text → Result V) (m : Groups) (lines : List Text)
    → (next_item convert none (some m) >>= λ found. scan_items pattern convert found lines)
        >>= require_match
      ≡ outcome convert (m ∷ matches pattern lines)
unfolding next_item
convert_then_scan pattern convert m lines = elim (Result-cases (first_group m)) [
  | inr (x, e) ↦ rw e
  | inl (g, e) ↦ rw e (elim (Result-cases (convert g)) [
    | inr (x, f) ↦ rw f
    | inl (val, f) ↦ rw f (scan_items-found pattern convert val lines)
  ])
]

-- The value of the one matching line, and an error in every other case.
pub parse_items-outcome :
    {V : Type 0} (lines : List Text) (pattern : Pattern) (convert : Text → Result V)
    → parse_items lines pattern convert ≡ outcome convert (matches pattern lines)
unfolding parse_items
parse_items-outcome [] pattern convert = refl
parse_items-outcome (line ∷ lines) pattern convert = elim (Option-cases (match_head pattern line)) [
  | inl e ↦ rw e (parse_items-outcome lines pattern convert)
  | inr (m, e) ↦ rw e (convert_then_scan pattern convert m lines)
]
