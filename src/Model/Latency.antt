-- ===== src/Model/Latency.antt =====
-- The probabilistic model at a longer memory latency: the weights and the rounds stay, the waits grow.
use cxlkvs.Prelude.{ℕ, zero, suc, ◌+◌, ◌≡◌, refl, Bool-cases, inl, inr}
use cxlkvs.Py.Num.{Num, max_num}
use cxlkvs.Py.Result.{Result, ok, err}
use cxlkvs.Model.{
  out_of_fuel, done, OpTimeModel, Args, p_io, p_memory, rho, Sums, inner_loop, round, outer_loop,
  wait_at, expected_time, reciprocal_throughput, combine, memory_term, io_term, finish,
  probabilistic, and_then, accesses, enough, Outcome, start,
}
use cxlkvs.Model.Order.{Le, IsNonneg, IsMonotone, le_max_left, le_max_right, max_le, of_kind}
use cxlkvs.Model.Waiting.{
  weight-IsNonneg, rho-IsNonneg, IsSums, returned, accesses-IsNonneg, outer_loop-IsSums,
  start-IsSums, outer_step,
}

-- the same arguments at another latency
abbrev pub at_latency : (num : Num) → Args num → num.F → Args num
at_latency num a l = record a { memory_latency = l }

module _ (num : Num) (laws : IsMonotone num) where
  open num use {F, of_nat, add, sub, mul, div, less, same}

  -- the sums at two latencies
  record Grows (s t : Sums num) : Type 0 where
    wait : Le num s.expected_wait_time t.expected_wait_time
    seq : s.expected_seq_length ≡ t.expected_seq_length

  max_zero_mono :
      (v w : F) → Le num v w → Le num (max_num num v (of_nat 0)) (max_num num w (of_nat 0))
  max_zero_mono v w h =
      max_le num laws v (of_nat 0) (max_num num w (of_nat 0))
        (laws.le_trans v w _ h (le_max_left num laws w (of_nat 0)))
        (le_max_right num laws w (of_nat 0))

  add_mono_both : (a b c d : F) → Le num a b → Le num c d → Le num (add a c) (add b d)
  add_mono_both a b c d h k =
      laws.le_trans (add a c) (add b c) (add b d) (laws.add_mono a b c h)
        (rw (laws.add_comm b c, laws.add_comm b d) (laws.add_mono c d b k))

  inner_loop-Grows :
      (m : OpTimeModel num) (a : Args num) (l rho_k seq_length : F) (left j : ℕ) (v w : F)
      (s t : Sums num)
      → IsNonneg num a.num_memory_accesses
      → IsNonneg num rho_k
      → Le num v w
      → Grows s t
      → Grows
          (inner_loop num m a rho_k seq_length left j v s)
          (inner_loop num m (at_latency num a l) rho_k seq_length left j w t)
  unfolding inner_loop p_io p_memory
  inner_loop-Grows m a l rho_k seq_length zero j v w s t nonneg hr h g = g
  inner_loop-Grows m a l rho_k seq_length (suc left) j v w s t nonneg hr h g =
      let longer = laws.sub_mono v w (mul (of_nat j) (sub a.io_time_pre a.memory_time)) h in
      inner_loop-Grows m a l rho_k seq_length left (j + 1) _ _ _ _ nonneg hr longer (record {
        wait = add_mono_both _ _ _ _ g.wait (
            laws.mul_mono _ _ _ (weight-IsNonneg num laws m a rho_k j nonneg hr)
              (max_zero_mono _ _ longer));
        seq = rw g.seq refl;
      })

  round-Grows :
      (m : OpTimeModel num) (a : Args num) (l : F) (k : ℕ) (s t : Sums num)
      → IsNonneg num a.num_memory_accesses
      → Le num a.memory_latency l
      → Grows s t
      → Grows (round num m a k s) (round num m (at_latency num a l) k t)
  unfolding round wait_at rho p_io
  round-Grows m a l k s t nonneg h g =
      inner_loop-Grows m a l (rho num m a k) _ (m.num_prefetches + 1) 0 _ _ s t nonneg
        (rho-IsNonneg num laws m a k nonneg) (laws.sub_mono _ _ _ (laws.sub_mono _ _ _ h)) g

  outer_loop-Grows :
      (m : OpTimeModel num) (a : Args num) (l : F) (fuel k : ℕ) (s t s' : Sums num)
      → IsNonneg num a.num_memory_accesses
      → Le num a.memory_latency l
      → Grows s t
      → outer_loop num fuel m a k s ≡ done (ok s')
      → (t' : Sums num) × (outer_loop num fuel m (at_latency num a l) k t ≡ done (ok t'))
        × Grows s' t'
  unfolding outer_loop rho p_io
  outer_loop-Grows m a l zero k s t s' nonneg h g e = cc
  outer_loop-Grows m a l (suc fuel) k s t s' nonneg h g e =
      let (small, step) = outer_step num m a fuel k s s' e in
      elim step [
        | inl (broke, same_sums) ↦ (t, rw (small, broke), rw (← same_sums) g)
        | inr (more, fit, later) ↦
            let (t', e', g') =
              outer_loop-Grows m a l fuel (k + 1) (round num m a k s)
                (round num m (at_latency num a l) k t) s' nonneg h
                (round-Grows m a l k s t nonneg h g) later in
            (t', rw (small, more, fit, e'), g')
      ]

  expected_time-Grows :
      (m : OpTimeModel num) (a : Args num) (l : F) (s t : Sums num) (p : F)
      → IsNonneg num a.num_memory_accesses
      → IsSums num laws s
      → Grows s t
      → expected_time num m a s ≡ ok p
      → (q : F) × (expected_time num m (at_latency num a l) t ≡ ok q) × Le num p q
  unfolding expected_time memory_term io_term
  expected_time-Grows m a l s t p nonneg h g e =
      elim (Bool-cases (same s.expected_seq_length (of_nat 0))) [
        | inl zero_length ↦ cc (rw zero_length at e)
        | inr divides ↦
            let scale = div (accesses num a) s.expected_seq_length in
            let total = add (memory_term num m a) (io_term num m a) in
            let found : add total (mul s.expected_wait_time scale) ≡ p = cc (rw divides at e) in
            let scale_nonneg = laws.div_nonneg _ _ (accesses-IsNonneg num laws a nonneg) h.seq in
            (
              add total (mul t.expected_wait_time scale),
              rw (← g.seq) (rw divides refl),
              rw (← found) (
                  add_mono_both total total _ _ (laws.less_irrefl total) (
                    rw
                      (
                        laws.mul_comm s.expected_wait_time scale,
                        laws.mul_comm t.expected_wait_time scale,
                      )
                      (laws.mul_mono _ _ scale scale_nonneg g.wait))),
            )
      ]

  finished :
      (m : OpTimeModel num) (a : Args num) (o : Outcome (Result (Sums num))) (p : F)
      → finish num m a o ≡ done (ok p)
      → (s : Sums num) × (o ≡ done (ok s)) × (expected_time num m a s ≡ ok p)
  unfolding finish and_then
  finished m a out_of_fuel p e = cc
  finished m a (done (err x)) p e = cc
  finished m a (done (ok s)) p e = (s, refl, cc)

  start-Grows : Grows (start num) (start num)
  start-Grows = record { wait = laws.less_irrefl _; seq = refl }

  -- A longer memory latency does not make the probabilistic model faster: where the number of memory
  -- accesses is not negative and the model returns a number, it returns one at every latency that is at
  -- least as long, and a number that is at least as great.
  pub probabilistic_mono :
      (m : OpTimeModel num) (a : Args num) (l p : F)
      → IsNonneg num a.num_memory_accesses
      → Le num a.memory_latency l
      → reciprocal_throughput num (of_kind num probabilistic m) a ≡ done (ok p)
      → (q : F) × (reciprocal_throughput num (of_kind num probabilistic m) (at_latency num a l)
          ≡ done (ok q))
        × Le num p q
  unfolding reciprocal_throughput combine finish and_then
  probabilistic_mono m a l p nonneg h e =
      let (divides, e1) = returned num laws m a p e in
      let m' = of_kind num probabilistic m in
      let (s, e2, e3) = finished m' a (outer_loop num (enough num m) m' a 0 (start num)) p e1 in
      let (t, e4, g) =
        outer_loop-Grows m' a l (enough num m) 0 (start num) (start num) s nonneg h start-Grows
          e2 in
      let sums =
        outer_loop-IsSums num laws m' a (enough num m) 0 (start num) s nonneg
          (start-IsSums num laws) e2 in
      let (q, e5, le) = expected_time-Grows m' a l s t p nonneg sums g e3 in
      (q, rw (divides, e4, e5), le)
