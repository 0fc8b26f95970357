-- ===== src/Py/Text.antt =====
-- Texts as lists of code points (the logs are ASCII), and `int(...)`.
use Prim.Native.Char.{code}
use mathlib.Core.List.{reverse}
use cxlkvs.Prelude.Int.{ℤ, pos, negsuc}
use cxlkvs.Prelude.{
  ℕ, zero, suc, ◌+◌, ◌-◌, ◌*◌, String, Bool, true, false, ◌&&◌, ◌||◌, List, [], ◌∷◌, leb, ◌==◌,
  nat_eq, if◌then◌else◌,
}
use cxlkvs.Py.Result.{Result, ok, err, value_error, ◌>>=◌}

abbrev pub Text : Type 0
Text = List ℕ

-- The code points of a literal.
abbrev pub codes : String → Text
codes String.[] = []
codes (String.◌∷◌ c s) = code c ∷ codes s

abbrev pub is_digit : ℕ → Bool
is_digit c = leb b'0' c && leb c b'9'

-- ASCII white space, as `\s` and `str.strip` read it.
abbrev pub is_space : ℕ → Bool
is_space c = c == 32 || (leb 9 c && leb c 13) || (leb 28 c && leb c 31)

-- `s.replace(c, '')` for one character.
unfoldable pub remove_char : ℕ → Text → Text
remove_char c [] = []
remove_char c (x ∷ s) = let rest = remove_char c s in if x == c then rest else x ∷ rest

-- The digits of `int(s)`, from the value read so far. An underscore may stand between two digits:
-- the flag says that the character before was a digit.
unfoldable pub digits_from : Bool → ℕ → Text → Result ℕ
digits_from after n [] = if after then ok n else err value_error
digits_from after n (c ∷ s) =
    let digit = digits_from true (n * 10 + (c - b'0')) s in
    let underscore = digits_from false n s in
    if is_digit c then digit else if after && c == b'_' then underscore else err value_error

-- `int(s)` of a text with neither sign nor white space, such as the group of a pattern of digits
unfoldable pub int_digits : Text → Result ℕ
unfolding digits_from
int_digits = digits_from false 0

-- `s.lstrip()` and `s.strip()`, with no argument
unfoldable pub lstrip : Text → Text
lstrip [] = []
lstrip (c ∷ s) = let rest = lstrip s in if is_space c then rest else c ∷ s

unfoldable pub strip : Text → Text
unfolding lstrip
strip s = reverse (lstrip (reverse (lstrip s)))

negate : ℕ → ℤ
negate zero = pos 0
negate (suc n) = negsuc n

signed : Text → Result ℤ
unfolding int_digits negate
signed [] = err value_error
signed (c ∷ s) =
    if c == b'-'
    then (do n ← int_digits s; ok (negate n))
    else if c == b'+'
    then (do n ← int_digits s; ok (pos n))
    else do n ← int_digits (c ∷ s); ok (pos n)

-- `int(s)`
unfoldable pub int_text : Text → Result ℤ
unfolding strip signed
int_text s = signed (strip s)

-- The first part of `s.split(c)`, and the others.
split_first : ℕ → Text → Text × List Text
split_first sep [] = ([], [])
split_first sep (c ∷ s) =
    let (part, parts) = split_first sep s in
    if c == sep then ([], part ∷ parts) else (c ∷ part, parts)

-- `s.split(c)`, for one character
unfoldable pub split : ℕ → Text → List Text
unfolding split_first
split sep s = let (part, parts) = split_first sep s in part ∷ parts

-- `s.startswith(prefix)`
unfoldable pub starts_with : Text → Text → Bool
starts_with s [] = true
starts_with [] (p ∷ ps) = false
starts_with (c ∷ s) (p ∷ ps) = c == p && starts_with s ps
