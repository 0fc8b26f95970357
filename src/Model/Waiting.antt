-- ===== src/Model/Waiting.antt =====
-- The waiting time of the probabilistic model is not negative.
use cxlkvs.Prelude.{true, ◌⊎◌, ℕ, zero, suc, ◌+◌, ◌-◌, ◌≡◌, refl, Bool-cases, inl, inr, false}
use cxlkvs.Py.Result.{Result, ok, err}
use cxlkvs.Py.Num.{Num}
use cxlkvs.Model.{
  base, probabilistic, comb, Outcome, done, out_of_fuel, OpTimeModel, Args, memory_term, io_term,
  p_io, rho, Sums, inner_loop, round, outer_loop, enough, start, expected_time, finish, combine,
  all_fit, and_then, reciprocal_throughput, tolerance, accesses, p_memory,
}
use cxlkvs.Model.Order.{Le, IsNonneg, IsMonotone, of_kind, le_max_right}

-- a round of a loop that returned
abbrev pub Proceeds :
    (num : Num) → OpTimeModel num → Args num → ℕ → ℕ → Sums num → Sums num → Type 0
Proceeds num m a fuel k s t =
    (num.fits (comb (m.num_prefetches + k) k) ≡ true)
    × (((num.less (rho num m a k) (tolerance num) ≡ true) × (s ≡ t))
        ⊎ ((num.less (rho num m a k) (tolerance num) ≡ false)
            × (all_fit num m (m.num_prefetches + 1) 0 ≡ true)
            × (outer_loop num fuel m a (k + 1) (round num m a k s) ≡ done (ok t))))

pub outer_step :
    (num : Num) (m : OpTimeModel num) (a : Args num) (fuel k : ℕ) (s t : Sums num)
    → outer_loop num (suc fuel) m a k s ≡ done (ok t)
    → Proceeds num m a fuel k s t
unfolding outer_loop
outer_step num m a fuel k s t e = elim (Bool-cases (num.fits (comb (m.num_prefetches + k) k))) [
  | inr large ↦ cc (rw large at e)
  | inl small ↦ (
    small,
    elim (Bool-cases (num.less (rho num m a k) (tolerance num))) [
      | inl broke ↦ inl (broke, cc (rw (small, broke) at e))
      | inr more ↦ elim (Bool-cases (all_fit num m (m.num_prefetches + 1) 0)) [
        | inl fit ↦ inr (more, fit, rw (small, more, fit) at e)
        | inr large ↦ cc (rw (small, more, large) at e)
      ]
    ],
  )
]

module _ (num : Num) (laws : IsMonotone num) where
  open num use {F, of_nat, add, mul, div, less, same}

  -- the sums of the probabilistic model are not negative
  pub record IsSums (s : Sums num) : Type 0 where
    pub wait : IsNonneg num s.expected_wait_time
    pub seq : IsNonneg num s.expected_seq_length

  pub accesses-IsNonneg :
      (a : Args num) → IsNonneg num a.num_memory_accesses → IsNonneg num (accesses num a)
  accesses-IsNonneg a h = laws.add_nonneg _ _ h (laws.of_nat_nonneg 2)

  p_io-IsNonneg : (a : Args num) → IsNonneg num a.num_memory_accesses → IsNonneg num (p_io num a)
  unfolding p_io
  p_io-IsNonneg a h = laws.div_nonneg _ _ (laws.of_nat_nonneg 1) (accesses-IsNonneg a h)

  p_memory-IsNonneg :
      (a : Args num) → IsNonneg num a.num_memory_accesses → IsNonneg num (p_memory num a)
  unfolding p_memory
  p_memory-IsNonneg a h = laws.div_nonneg _ _ h (accesses-IsNonneg a h)

  -- the weight of the round `j`
  pub weight-IsNonneg :
      (m : OpTimeModel num) (a : Args num) (rho_k : F) (j : ℕ)
      → IsNonneg num a.num_memory_accesses
      → IsNonneg num rho_k
      → IsNonneg num (
          mul
            (mul
              (mul rho_k (of_nat (comb m.num_prefetches j)))
              (num.pow (p_memory num a) (m.num_prefetches - j)))
            (num.pow (p_io num a) j))
  weight-IsNonneg m a rho_k j h hr =
      laws.mul_nonneg _ _
        (laws.mul_nonneg _ _ (laws.mul_nonneg _ _ hr (laws.of_nat_nonneg (comb m.num_prefetches j)))
          (laws.pow_nonneg _ (m.num_prefetches - j) (p_memory-IsNonneg a h)))
        (laws.pow_nonneg _ j (p_io-IsNonneg a h))

  inner_loop-IsSums :
      (m : OpTimeModel num) (a : Args num) (rho_k seq_length : F) (left j : ℕ) (wait : F)
      (s : Sums num)
      → IsNonneg num a.num_memory_accesses
      → IsNonneg num rho_k
      → IsNonneg num seq_length
      → IsSums s
      → IsSums (inner_loop num m a rho_k seq_length left j wait s)
  unfolding inner_loop
  inner_loop-IsSums m a rho_k seq_length zero j wait s nonneg hr hs h = h
  inner_loop-IsSums m a rho_k seq_length (suc left) j wait s nonneg hr hs h =
      let weight = weight-IsNonneg m a rho_k j nonneg hr in
      inner_loop-IsSums m a rho_k seq_length left (j + 1) _ _ nonneg hr hs (record {
        wait =
            laws.add_nonneg _ _ h.wait
              (laws.mul_nonneg _ _ weight (le_max_right num laws _ (of_nat 0)));
        seq = laws.add_nonneg _ _ h.seq (laws.mul_nonneg _ _ weight hs);
      })

  pub rho-IsNonneg :
      (m : OpTimeModel num) (a : Args num) (k : ℕ)
      → IsNonneg num a.num_memory_accesses
      → IsNonneg num (rho num m a k)
  unfolding rho
  rho-IsNonneg m a k h =
      laws.mul_nonneg _ _ (laws.of_nat_nonneg (comb (m.num_prefetches + k) k))
        (laws.pow_nonneg _ k (p_io-IsNonneg a h))

  round-IsSums :
      (m : OpTimeModel num) (a : Args num) (k : ℕ) (s : Sums num)
      → IsNonneg num a.num_memory_accesses
      → IsSums s
      → IsSums (round num m a k s)
  unfolding round
  round-IsSums m a k s nonneg h =
      inner_loop-IsSums m a (rho num m a k) _ (m.num_prefetches + 1) 0 _ s nonneg
        (rho-IsNonneg m a k nonneg) (laws.of_nat_nonneg (m.num_prefetches + k)) h

  pub outer_loop-IsSums :
      (m : OpTimeModel num) (a : Args num) (fuel k : ℕ) (s t : Sums num)
      → IsNonneg num a.num_memory_accesses
      → IsSums s
      → outer_loop num fuel m a k s ≡ done (ok t)
      → IsSums t
  unfolding outer_loop
  outer_loop-IsSums m a zero k s t nonneg h e = cc
  outer_loop-IsSums m a (suc fuel) k s t nonneg h e = elim (outer_step num m a fuel k s t e).1 [
    | inl (broke, same_sums) ↦ rw (← same_sums) h
    | inr (more, fit, later) ↦
        outer_loop-IsSums m a fuel (k + 1) (round num m a k s) t nonneg
          (round-IsSums m a k s nonneg h) later
  ]

  expected_time_ge :
      (m : OpTimeModel num) (a : Args num) (s : Sums num) (p : F)
      → IsNonneg num a.num_memory_accesses
      → IsSums s
      → expected_time num m a s ≡ ok p
      → Le num (add (memory_term num m a) (io_term num m a)) p
  unfolding expected_time
  expected_time_ge m a s p nonneg h e = elim (Bool-cases (same s.expected_seq_length (of_nat 0))) [
    | inl zero_length ↦ cc (rw zero_length at e)
    | inr divides ↦
        let scale = div (accesses num a) s.expected_seq_length in
        let total = add (memory_term num m a) (io_term num m a) in
        let found : add total (mul s.expected_wait_time scale) ≡ p = cc (rw divides at e) in
        rw (← found) (
          laws.le_add total _
            (laws.mul_nonneg _ _ h.wait (laws.div_nonneg _ _ (accesses-IsNonneg a nonneg) h.seq)))
  ]

  finish_ge :
      (m : OpTimeModel num) (a : Args num) (o : Outcome (Result (Sums num))) (p : F)
      → IsNonneg num a.num_memory_accesses
      → ((t : Sums num) → o ≡ done (ok t) → IsSums t)
      → finish num m a o ≡ done (ok p)
      → Le num (add (memory_term num m a) (io_term num m a)) p
  unfolding finish and_then
  finish_ge m a out_of_fuel p nonneg h e = cc
  finish_ge m a (done (err x)) p nonneg h e = cc
  finish_ge m a (done (ok t)) p nonneg h e = expected_time_ge m a t p nonneg (h t refl) (cc)

  pub start-IsSums : IsSums (start num)
  unfolding start
  start-IsSums = record { wait = laws.of_nat_nonneg 0; seq = laws.of_nat_nonneg 0 }

  -- what a model that returned has divided by is not zero
  pub returned :
      (m : OpTimeModel num) (a : Args num) (p : F)
      → reciprocal_throughput num (of_kind num probabilistic m) a ≡ done (ok p)
      → (same (accesses num a) (of_nat 0) ≡ false)
        × (finish num
              (of_kind num probabilistic m)
              a
              (outer_loop num (enough num m) (of_kind num probabilistic m) a 0 (start num))
            ≡ done (ok p))
  unfolding reciprocal_throughput combine
  returned m a p e = elim (Bool-cases (same (accesses num a) (of_nat 0))) [
    | inl zero_accesses ↦ cc (rw zero_accesses at e)
    | inr divides ↦ (divides, rw divides at e)
  ]

  -- The probabilistic model adds a waiting time that is not negative: where the number of memory
  -- accesses is not negative and it returns a number, that is at least the number of the base model.
  pub base-le-probabilistic :
      (m : OpTimeModel num) (a : Args num) (p : F)
      → IsNonneg num a.num_memory_accesses
      → reciprocal_throughput num (of_kind num probabilistic m) a ≡ done (ok p)
      → (x : F) × (reciprocal_throughput num (of_kind num base m) a ≡ done (ok x)) × Le num x p
  unfolding reciprocal_throughput combine memory_term io_term
  base-le-probabilistic m a p nonneg e =
      let m' = of_kind num probabilistic m in
      (
        add (memory_term num m a) (io_term num m a),
        refl,
        finish_ge m' a (outer_loop num (enough num m') m' a 0 (start num)) p nonneg
            (λ t. outer_loop-IsSums m' a (enough num m') 0 (start num) t nonneg start-IsSums)
            (returned m a p e).1,
      )
