-- ===== src/Aerospike/Parser/Items.antt =====
-- `_parse_items`, `_parse_int_items` and `_parse_bool_items` of notebooks/utils/aerospike_parser.py.
pub mod Outcome
use cxlkvs.Prelude.{ℕ, String, Bool, ◌||◌, Option, none, some, List, [], ◌∷◌, ◌++◌, ◌==◌, nat_eq}
use cxlkvs.Py.Result.{Result, ok, err, raised, index_error, ◌>>=◌}
use cxlkvs.Py.Text.{Text, codes, is_digit, is_space, remove_char, int_digits}
use cxlkvs.Py.Regex.{Pattern, Groups, many, either, some_of, lit, group, match_head}

-- `m.group(1)`
unfoldable pub first_group : Groups → Result Text
first_group [] = err index_error
first_group (g ∷ gs) = ok g

-- One round of the loop. `found` is `val`, once `match` is set; `convert` is the branch that `mode`
-- selects, which each caller gives as a constant.
unfoldable pub next_item :
    {V : Type 0} → (Text → Result V) → Option V → Option Groups → Result (Option V)
unfolding first_group
next_item convert found none = ok found
next_item convert (some val) (some m) = err (raised "too many matches")
next_item convert none (some m) = do g ← first_group m; val ← convert g; ok (some val)

unfoldable pub scan_items :
    {V : Type 0} → Pattern → (Text → Result V) → Option V → List Text → Result (Option V)
unfolding next_item
scan_items pattern convert found [] = ok found
scan_items pattern convert found (line ∷ lines) = do
  found' ← next_item convert found (match_head pattern line)
  scan_items pattern convert found' lines

-- the test behind the loop
unfoldable pub require_match : {V : Type 0} → Option V → Result V
require_match none = err (raised "no match")
require_match (some val) = ok val

unfoldable pub parse_items : {V : Type 0} → List Text → Pattern → (Text → Result V) → Result V
unfolding scan_items require_match
parse_items lines pattern convert = do
  found ← scan_items pattern convert none lines
  require_match found

-- mode 'int'
unfoldable pub convert_int : Text → Result ℕ
unfolding remove_char int_digits
convert_int g = int_digits (remove_char b',' g)

-- mode 'bool' takes the text as it is
unfoldable pub convert_text : Text → Result Text
convert_text g = ok g

abbrev pub is_grouped_digit : ℕ → Bool
is_grouped_digit c = is_digit c || c == b','

-- '^\s*' + pattern + '\s*:\s*([\d\,]+)'
unfoldable pub int_pattern : String → Pattern
int_pattern name =
    many is_space
    ∷ (lit name
        ++ (many is_space ∷ (lit ":" ++ (many is_space ∷ group (some_of is_grouped_digit)))))

-- '^\s*' + pattern + '\s*:\s*(false|true)'
unfoldable pub bool_pattern : String → Pattern
bool_pattern name =
    many is_space
    ∷ (lit name
        ++ (many is_space
            ∷ (lit ":"
                ++ (many is_space ∷ group (either (codes "false" ∷ codes "true" ∷ []) ∷ [])))))

unfoldable pub parse_int_items : List Text → String → Result ℕ
unfolding parse_items convert_int int_pattern
parse_int_items lines name = parse_items lines (int_pattern name) convert_int

unfoldable pub parse_bool_items : List Text → String → Result Text
unfolding parse_items convert_text bool_pattern
parse_bool_items lines name = parse_items lines (bool_pattern name) convert_text
