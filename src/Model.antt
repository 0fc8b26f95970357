-- ===== src/Model.antt =====
-- notebooks/utils/model.py: the time of one operation on memory with a given latency, which bounds
-- the throughput, in four models. Numbers that are not counts are of the parameter `Num`. An int that
-- `math.comb` gives may be too large for a float; the number of prefetches and that of the rounds are
-- not, and `math.pow` does not overflow at a base from 0 to 1, which is what it has where the number of
-- memory accesses is not negative.
pub mod Order
pub mod Weights
pub mod Rounds
pub mod Waiting
pub mod Latency
pub mod Fixed
mod Tests
use cxlkvs.Prelude.{
  true, not, ◌&&◌, ℕ, zero, suc, ◌+◌, ◌-◌, ◌*◌, Bool, Option, none, some, if◌then◌else◌,
}
use cxlkvs.Py.Result.{Result, ok, err, zero_division, overflow_error, ◌>>=◌}
use cxlkvs.Py.Num.{Num, true_div, max_num}

-- The classes `OpTimeModelBase` and below; they differ in `_combine` alone.
pub data Kind : Type 0 where
  base worst best probabilistic : Kind

-- `math.comb(n, k)`
unfoldable pub comb : ℕ → ℕ → ℕ
comb n zero = 1
comb zero (suc k) = 0
comb (suc n) (suc k) = comb n k + comb n (suc k)

-- The result of a loop that may run out of fuel, which is no exception of the code's.
pub data Outcome (A : Type 0) : Type 0 where
  done : A → Outcome A
  out_of_fuel : Outcome A

-- what is done next, where neither an exception nor the end of the fuel stops it
unfoldable pub and_then :
    {A B : Type 0} → Outcome (Result A) → (A → Outcome (Result B)) → Outcome (Result B)
and_then out_of_fuel f = out_of_fuel
and_then (done (err e)) f = done (err e)
and_then (done (ok a)) f = f a

module _ (num : Num) where
  open num use {F, of_nat, fits, add, sub, mul, pow, div, less, same}

  pub record OpTimeModel : Type 0 where
    pub kind : Kind
    pub switch_time : F
    pub num_prefetches : ℕ

  pub record Args : Type 0 where
    pub num_memory_accesses : F
    pub memory_time : F
    pub io_time_pre : F
    pub io_time_post : F
    pub memory_latency : F

  -- num_memory_accesses * (memory_time + self.switch_time)
  unfoldable pub memory_term : OpTimeModel → Args → F
  memory_term m a = mul a.num_memory_accesses (add a.memory_time m.switch_time)

  -- io_time_pre + io_time_post + 2 * self.switch_time
  unfoldable pub io_term : OpTimeModel → Args → F
  io_term m a = add (add a.io_time_pre a.io_time_post) (mul (of_nat 2) m.switch_time)

  -- num_memory_accesses * memory_latency / self.num_prefetches
  unfoldable pub limit : OpTimeModel → Args → Result F
  limit m a = true_div num (mul a.num_memory_accesses a.memory_latency) (of_nat m.num_prefetches)

  -- the literal 1e-6
  abbrev pub tolerance : F
  tolerance = div (of_nat 1) (of_nat 1000000)

  -- num_memory_accesses + 2
  abbrev pub accesses : Args → F
  accesses a = add a.num_memory_accesses (of_nat 2)

  unfoldable pub p_memory : Args → F
  p_memory a = div a.num_memory_accesses (accesses a)

  unfoldable pub p_io : Args → F
  p_io a = div (of_nat 1) (accesses a)

  -- math.comb(seq_length, k) * math.pow(p_io, k), where the int is not too large
  unfoldable pub rho : OpTimeModel → Args → ℕ → F
  unfolding p_io
  rho m a k = mul (of_nat (comb (m.num_prefetches + k) k)) (pow (p_io a) k)

  -- the sums over the rounds so far
  pub record Sums : Type 0 where
    pub expected_wait_time : F
    pub expected_seq_length : F

  -- The loop over `j`, for `left` more rounds: `wait_time` is decremented in each of them.
  unfoldable pub inner_loop : OpTimeModel → Args → F → F → ℕ → ℕ → F → Sums → Sums
  unfolding p_memory p_io
  inner_loop m a rho_k seq_length zero j wait_time s = s
  inner_loop m a rho_k seq_length (suc left) j wait_time s =
      let rho_jk =
        mul
          (mul (mul rho_k (of_nat (comb m.num_prefetches j)))
            (pow (p_memory a) (m.num_prefetches - j)))
          (pow (p_io a) j) in
      let wait = sub wait_time (mul (of_nat j) (sub a.io_time_pre a.memory_time)) in
      inner_loop m a rho_k seq_length left (j + 1) wait (record {
        expected_wait_time = add s.expected_wait_time (mul rho_jk (max_num num wait (of_nat 0)));
        expected_seq_length = add s.expected_seq_length (mul rho_jk seq_length);
      })

  -- wait_time_base - k * (io_time_post + self.switch_time)
  unfoldable pub wait_at : OpTimeModel → Args → ℕ → F
  wait_at m a k =
      sub (sub a.memory_latency (mul (of_nat m.num_prefetches) (add a.memory_time m.switch_time)))
        (mul (of_nat k) (add a.io_time_post m.switch_time))

  -- The body of `while(True)` behind the `break`.
  unfoldable pub round : OpTimeModel → Args → ℕ → Sums → Sums
  unfolding inner_loop wait_at rho
  round m a k s =
      inner_loop m a (rho m a k) (of_nat (m.num_prefetches + k)) (m.num_prefetches + 1) 0
        (wait_at m a k) s

  -- Whether the loop over `j` raises no `OverflowError` in `left` more rounds.
  unfoldable pub all_fit : OpTimeModel → ℕ → ℕ → Bool
  all_fit m zero j = true
  all_fit m (suc left) j = fits (comb m.num_prefetches j) && all_fit m left (j + 1)

  unfoldable pub outer_loop : ℕ → OpTimeModel → Args → ℕ → Sums → Outcome (Result Sums)
  unfolding all_fit
  outer_loop zero m a k s = out_of_fuel
  outer_loop (suc fuel) m a k s =
      let rest = outer_loop fuel m a (k + 1) (round m a k s) in
      if not (fits (comb (m.num_prefetches + k) k))
      then done (err overflow_error)
      else if less (rho m a k) tolerance
      then done (ok s)
      else if all_fit m (m.num_prefetches + 1) 0
      then rest
      else done (err overflow_error)

  -- The rounds of the outer loop: see `Rounds`.
  abbrev pub enough : OpTimeModel → ℕ
  enough m = 64 + 6 * m.num_prefetches

  unfoldable pub start : Sums
  start = record { expected_wait_time = of_nat 0; expected_seq_length = of_nat 0 }

  -- behind the loop
  unfoldable pub expected_time : OpTimeModel → Args → Sums → Result F
  expected_time m a s = do
    scale ← true_div num (accesses a) s.expected_seq_length
    let wait = mul s.expected_wait_time scale
    ok (add (add (memory_term m a) (io_term m a)) wait)

  unfoldable pub finish : OpTimeModel → Args → Outcome (Result Sums) → Outcome (Result F)
  unfolding expected_time and_then
  finish m a o = and_then o λ s. done (expected_time m a s)

  unfoldable pub combine : Kind → OpTimeModel → Args → Outcome (Result F)
  combine base m a = done (ok (add (memory_term m a) (io_term m a)))
  combine worst m a =
      done (do lim ← limit m a; ok (add (max_num num (memory_term m a) lim) (io_term m a)))
  combine best m a =
      done (do lim ← limit m a; ok (max_num num (add (memory_term m a) (io_term m a)) lim))
  combine probabilistic m a =
      if same (accesses a) (of_nat 0)
      then done (err zero_division)
      else finish m a (outer_loop (enough m) m a 0 start)

  unfoldable pub reciprocal_throughput : OpTimeModel → Args → Outcome (Result F)
  reciprocal_throughput m a = combine m.kind m a
