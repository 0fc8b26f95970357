-- ===== src/Py/Regex/Fields.antt =====
-- Patterns made of numbers with white space between them, over texts that hold one space there.
use cxlkvs.Prelude.{
  ℕ, zero, suc, ◌≡◌, ◌≢◌, refl, Bool, true, false, ◌||◌, some, [], ◌∷◌, ◌++◌, All, arith, ◌==◌,
  nat_eq,
}
use cxlkvs.Py.Text.{Text, is_digit, is_space}
use cxlkvs.Py.Decimal.{decimal, decimal-IsDigits, decimal-cons}
use cxlkvs.Py.Regex.{Pattern, Groups, spaces, number, group, some_of, run}
use cxlkvs.Py.Regex.Laws.{Stops, run-some_of, run-group}

-- `[\d\.]`
abbrev pub is_num_char : ℕ → Bool
is_num_char c = is_digit c || c == b'.'

-- `\s+(\d+)`, `n` times
abbrev pub num_fields : ℕ → Pattern
num_fields zero = []
num_fields (suc n) = spaces ++ (number ++ num_fields n)

-- what `%f` and `%.1f` print
abbrev pub IsNumber : Text → Type 0
IsNumber t = (t ≢ []) × All (λ c. is_num_char c ≡ true) t

digit_not_space : (c : ℕ) → is_digit c ≡ true → is_space c ≡ false
digit_not_space c h = ground arith

num_char_not_space : (c : ℕ) → is_num_char c ≡ true → is_space c ≡ false
num_char_not_space c h = ground arith

pub number-Stops_space : (t rest : Text) → IsNumber t → Stops is_space (t ++ rest)
number-Stops_space [] rest h = absurd (h.0 refl)
number-Stops_space (c ∷ t) rest h = num_char_not_space c h.1.0

pub decimal-Stops_space : (n : ℕ) (rest : Text) → Stops is_space (decimal n ++ rest)
decimal-Stops_space n rest =
    let (d, t, e) = decimal-cons n in rw e (digit_not_space d (rw e at (decimal-IsDigits n)).0)

pub decimal-ne-nil : (n : ℕ) → decimal n ≢ []
decimal-ne-nil n h = let (d, t, e) = decimal-cons n in cc (e, h)

module _ (ps : Pattern) (gs : Groups) where
  pub run_space :
      (cur rest : Text) {g : Groups}
      → Stops is_space rest
      → run ps gs (cur ++ b' ' ∷ []) rest ≡ some g
      → run (spaces ++ ps) gs cur (b' ' ∷ rest) ≡ some g
  run_space cur rest st h = run-some_of ps gs is_space b' ' [] cur rest (refl, tt) st h

  pub run_number :
      (t cur rest : Text) {g : Groups}
      → IsNumber t
      → Stops is_num_char rest
      → run ps (gs ++ t ∷ []) t rest ≡ some g
      → run (group (some_of is_num_char) ++ ps) gs cur (t ++ rest) ≡ some g
  run_number t cur rest n st h = run-group ps gs is_num_char t cur rest n.1 n.0 st h

  pub run-decimal :
      (n : ℕ) (cur rest : Text) {g : Groups}
      → Stops is_digit rest
      → run ps (gs ++ decimal n ∷ []) (decimal n) rest ≡ some g
      → run (number ++ ps) gs cur (decimal n ++ rest) ≡ some g
  run-decimal n cur rest st h =
      run-group ps gs is_digit (decimal n) cur rest (decimal-IsDigits n) (decimal-ne-nil n) st h

pub run_field :
    (ps : Pattern) (gs : Groups) (n : ℕ) (cur rest : Text) {g : Groups}
    → Stops is_digit rest
    → run ps (gs ++ decimal n ∷ []) (decimal n) rest ≡ some g
    → run (spaces ++ (number ++ ps)) gs cur (b' ' ∷ (decimal n ++ rest)) ≡ some g
run_field ps gs n cur rest st h =
    run_space (number ++ ps) gs cur (decimal n ++ rest) (decimal-Stops_space n rest)
      (run-decimal ps gs n (cur ++ b' ' ∷ []) rest st h)
