-- ===== src/Microbench/Main/Threads.antt =====
-- microbench/src/main.c: how `run_threads` divides the operations among the threads, and the order of `compare`.
pub mod Shares
use cxlkvs.Prelude.{ℕ, zero, suc, ◌+◌, ◌-◌, ◌*◌, ◌/◌, ◌%◌, ◌^◌, List, [], ◌∷◌, ltb, if◌then◌else◌}
use cxlkvs.Prelude.Int.{ℤ, pos, negsuc}

-- What a thread gets: the place of its first operation in `op_latencies`, and how many it has.
pub record Share : Type 0 where
  pub start : ℕ
  pub count : ℕ

-- The numbers are not negative; `int` and `uint64_t` wrap.
module _ (count num_threads : ℕ) where
  -- the loop, for `left` more threads from the thread `i`
  unfoldable pub shares_from : ℕ → ℕ → ℕ → List Share
  shares_from zero i curr_pos = []
  shares_from (suc left) i curr_pos =
      let next_pos = count * (i + 1) % 2 ^ 64 / num_threads in
      record { start = curr_pos; count = (next_pos + 2 ^ 64 - curr_pos) % 2 ^ 64 % 2 ^ 32 }
      ∷ shares_from left (i + 1) next_pos

  unfoldable pub shares : List Share
  unfolding shares_from
  shares = shares_from num_threads 0 0

-- `total`, an `int`
unfoldable pub total_from : ℕ → List Share → ℕ
total_from total [] = total
total_from total (s ∷ ss) = total_from ((total + s.count) % 2 ^ 32) ss

unfoldable pub total_of : List Share → ℕ
unfolding total_from
total_of ss = total_from 0 ss

-- The number that the bits of an `int` stand for.
abbrev pub signed32 : ℕ → ℤ
signed32 w = if ltb w (2 ^ 31) then pos w else negsuc (2 ^ 32 - w - 1)

-- `*(long *)a - *(long *)b` as an `int`, for latencies that are not negative
unfoldable pub compare_latencies : ℕ → ℕ → ℤ
compare_latencies a b = signed32 ((a + 2 ^ 64 - b) % 2 ^ 64 % 2 ^ 32)
