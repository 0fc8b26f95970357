-- ===== src/Aerospike/Parser/Time.antt =====
-- `datetime.fromisoformat` on what the pattern `[\d\-T\:Z]+` lets through, for a date alone or a
-- date, one character, and a time to the hour, minute or second. Every other text is refused; of
-- the texts that the pattern lets through and Python accepts, those with a negative UTC offset are
-- refused too.
use cxlkvs.Prelude.{
  ℕ, ◌+◌, ◌-◌, ◌*◌, ◌%◌, Bool, true, false, not, ◌&&◌, ◌||◌, [], ◌∷◌, ltb, leb, ◌==◌, nat_eq,
  if◌then◌else◌,
}
use cxlkvs.Py.Result.{Result, ok, err, value_error, ◌>>=◌, ◌>>◌}
use cxlkvs.Py.Text.{Text, is_digit}

pub record DateTime : Type 0 where
  pub year : ℕ
  pub month : ℕ
  pub day : ℕ
  pub hour : ℕ
  pub minute : ℕ
  pub second : ℕ

digit : ℕ → Result ℕ
digit c = if is_digit c then ok (c - b'0') else err value_error

two : ℕ → ℕ → Result ℕ
unfolding digit
two a b = do x ← digit a; y ← digit b; ok (x * 10 + y)

check : Bool → Result (Unit {0})
check true = ok tt
check false = err value_error

is_leap : ℕ → Bool
is_leap y = y % 4 == 0 && (not (y % 100 == 0) || y % 400 == 0)

days_in_month : ℕ → ℕ → ℕ
unfolding is_leap
days_in_month y m =
    if m == 2
    then (if is_leap y then 29 else 28)
    else if m == 4 || m == 6 || m == 9 || m == 11
    then 30
    else 31

-- behind the date: the hour, minute and second
clock : Text → Result (ℕ × ℕ × ℕ)
unfolding two check
clock (a ∷ b ∷ []) = do h ← two a b; ok (h, 0, 0)
clock (a ∷ b ∷ s ∷ c ∷ d ∷ []) = do check (s == b':'); h ← two a b; m ← two c d; ok (h, m, 0)
clock (a ∷ b ∷ s ∷ c ∷ d ∷ s' ∷ e ∷ f ∷ []) = do
  check (s == b':' && s' == b':')
  h ← two a b
  m ← two c d
  n ← two e f
  ok (h, m, n)
clock _ = err value_error

time_part : Text → Result (ℕ × ℕ × ℕ)
unfolding clock
time_part [] = ok (0, 0, 0)
time_part (sep ∷ s) = clock s

unfoldable pub from_iso_format : Text → Result DateTime
unfolding two check days_in_month time_part
from_iso_format (a ∷ b ∷ c ∷ d ∷ s ∷ e ∷ f ∷ s' ∷ g ∷ h ∷ rest) = do
  check (s == b'-' && s' == b'-')
  hi ← two a b
  lo ← two c d
  let y = hi * 100 + lo
  m ← two e f
  n ← two g h
  t ← time_part rest
  check (leb 1 y && leb 1 m && leb m 12 && leb 1 n && leb n (days_in_month y m))
  check (ltb t.0 24 && ltb t.1 60 && ltb t.2 60)
  ok (record { year = y; month = m; day = n; hour = t.0; minute = t.1; second = t.2 })
from_iso_format _ = err value_error
