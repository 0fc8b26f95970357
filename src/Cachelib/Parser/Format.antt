-- ===== src/Cachelib/Parser/Format.antt =====
-- The formats of a CacheLib log: the patterns of notebooks/utils/cachelib_parser.py and its times.
use cxlkvs.Prelude.{
  ℕ, zero, suc, ◌+◌, ◌-◌, ◌*◌, String, Option, none, some, ◌||◌, [], ◌∷◌, ◌++◌, ltb, ◌==◌, nat_eq,
  if◌then◌else◌, Bool,
}
use cxlkvs.Py.Text.{Text, is_digit, is_space, int_digits, split}
use cxlkvs.Py.Result.{Result, ok, err, value_error, index_error, ◌>>=◌}
use cxlkvs.Py.Regex.{Pattern, Groups, optional, many, group, some_of, spaces, lit, is_char}
use cxlkvs.Py.Regex.Fields.{is_num_char}

abbrev pub is_grouped_digit : ℕ → Bool
is_grouped_digit c = is_digit c || c == b','

-- '^' + pattern + '\s*:\s*([\d\,]+)'
unfoldable pub int_pattern : String → Pattern
int_pattern pattern =
    lit pattern ++ (many is_space ∷ (lit ":" ++ (many is_space ∷ group (some_of is_grouped_digit))))

-- '^' + pattern + '\s*:\s*(-?[\d\.]+)'
unfoldable pub float_pattern : String → Pattern
float_pattern pattern =
    lit pattern
    ++ (many is_space
        ∷ (lit ":" ++ (many is_space ∷ group (optional (is_char b'-') ∷ some_of is_num_char))))

abbrev signed_percent : Pattern
signed_percent = group (optional (is_char b'-') ∷ some_of is_num_char) ++ lit "%"

-- '^([\d\:]+)\s+([\d\.]+)M ops completed\. Hit Ratio\s+(-?[\d\.]+)%\s+\(RAM\s+(-?[\d\.]+)%\,\s+NVM\s+(-?[\d\.]+)%\)'
abbrev pub header_pattern : Pattern
header_pattern =
    group (some_of (λ c. is_digit c || c == b':'))
    ++ (spaces
        ++ (group (some_of is_num_char)
            ++ (lit "M ops completed. Hit Ratio"
                ++ (spaces
                    ++ (signed_percent
                        ++ (spaces
                            ++ (lit "(RAM"
                                ++ (spaces
                                    ++ (signed_percent
                                        ++ (lit ","
                                            ++ (spaces
                                                ++ (lit "NVM"
                                                    ++ (spaces
                                                        ++ (signed_percent ++ lit ")"))))))))))))))

unfoldable pub first_group : Groups → Result Text
first_group (a ∷ _) = ok a
first_group [] = err index_error

-- Two digits of a time, below a bound.
unfoldable pub clock_field : ℕ → Text → Result ℕ
clock_field bound (a ∷ b ∷ []) = do
  n ← int_digits (a ∷ b ∷ [])
  if ltb n bound then ok n else err value_error
clock_field bound _ = err value_error

-- `datetime.time.fromisoformat` of digits and colons, as seconds of the day: hours, with minutes,
-- with seconds
unfoldable pub time_of_day : Text → Result ℕ
unfolding clock_field
time_of_day s = elim (split b':' s) [
  | h ∷ [] ↦ (do hour ← clock_field 24 h; ok (hour * 3600))
  | h ∷ m ∷ [] ↦ (do
    hour ← clock_field 24 h
    minute ← clock_field 60 m
    ok (hour * 3600 + minute * 60))
  | h ∷ m ∷ s' ∷ [] ↦ (do
    hour ← clock_field 24 h
    minute ← clock_field 60 m
    second ← clock_field 60 s'
    ok (hour * 3600 + minute * 60 + second))
  | _ ↦ err value_error
]

-- `while(dif_time < 0): dif_time += 24 * 60 * 60`, of a difference `-(n + 1)`
unfoldable pub add_days : ℕ → ℕ → ℕ
add_days zero n = 0
add_days (suc fuel) n =
    let rest = add_days fuel (n - 86400) in if ltb n 86400 then 86400 - (n + 1) else rest

-- The seconds from `base_time` on, for two times of one day.
unfoldable pub dif_time : ℕ → ℕ → ℕ
unfolding add_days
dif_time base_time t =
    let n = base_time - t - 1 in if ltb t base_time then add_days (suc n) n else t - base_time

-- `first`, and then the first time
abbrev pub base_of : Option ℕ → ℕ → ℕ
base_of none t = t
base_of (some base_time) t = base_time
