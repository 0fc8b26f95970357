-- ===== src/Cachelib/Parser/Clock.antt =====
-- The time of a header line, counted from the first: the loop that adds days ends.
use cxlkvs.Prelude.{ℕ, zero, suc, ◌+◌, ◌-◌, ◌*◌, ◌<◌, ◌≤◌, ◌≡◌, ltb, arith, Bool-cases, inl, inr}
use cxlkvs.Cachelib.Parser.Format.{add_days, dif_time}

add_days_lem :
    (fuel n : ℕ)
    → n < fuel
    → (days : ℕ) × (add_days fuel n + (n + 1) ≡ days * 86400) × (add_days fuel n < 86400)
unfolding add_days
add_days_lem zero n h = elim h [ ]
add_days_lem (suc fuel) n h = elim (Bool-cases (ltb n 86400)) [
  | inl e ↦ (1, rw e (ground arith), rw e (ground arith))
  | inr e ↦
      let (days, sum, small) = add_days_lem fuel (n - 86400) (ground arith) in
      (days + 1, rw e (ground arith), rw e small)
]

-- The loop ends. The difference and the first time make the time of the line, some whole days later:
-- none where the line is not earlier in the day than the first, and else so many that the
-- difference is less than a day.
pub dif_time_lem :
    (base_time t : ℕ)
    → (days : ℕ) × (base_time + dif_time base_time t ≡ t + days * 86400)
      × (base_time ≤ t → days ≡ 0)
      × (t < base_time → dif_time base_time t < 86400)
unfolding dif_time
dif_time_lem base_time t = elim (Bool-cases (ltb t base_time)) [
  | inr e ↦ (0, rw e (ground arith), λ h. ground arith, λ h. ground arith)
  | inl e ↦
      let n = base_time - t - 1 in
      let (days, sum, small) = add_days_lem (suc n) n (omega arith) in
      (days, rw e (ground arith), λ h. ground arith, λ h. rw e small)
]
