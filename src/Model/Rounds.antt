-- ===== src/Model/Rounds.antt =====
-- The outer loop of the probabilistic model ends.
use cxlkvs.Prelude.{
  ◌⊎◌, ℕ, zero, suc, ◌+◌, ◌*◌, ◌<◌, ◌≡◌, refl, true, arith, Bool-cases, inl, inr, false,
}
use mathlib.Core.Path.{subst}
use cxlkvs.Model.Weights.{comb-lt-power}
use cxlkvs.Model.{
  Kind, base, worst, best, probabilistic, combine, finish, expected_time, reciprocal_throughput,
  accesses, limit, all_fit, and_then,
}
use cxlkvs.Py.Result.{ok, err, zero_division, overflow_error, ◌>>=◌}
use cxlkvs.Py.Num.{Num, power, true_div}
use cxlkvs.Model.{
  comb, done, OpTimeModel, Args, tolerance, p_io, rho, Sums, round, outer_loop, enough, start,
  reciprocal_throughput, combine, finish, Result, Kind,
}

-- a number, or one of the two exceptions
abbrev pub Returns : {A : Type 0} → Result A → Type 0
Returns {A = A} r = ((t : A) × (r ≡ ok t)) ⊎ ((r ≡ err zero_division) ⊎ (r ≡ err overflow_error))

module _ (num : Num) where
  -- With `x` at least 0, 1 / (x + 2) is at most a half, and so its power times a count is below the
  -- tolerance where the count over that power of 2 is below half of it: rounding moves it by far less
  -- than a factor of 2. The count is small enough for a float.
  pub record IsAccurate : Type 0 where
    pub small :
        (x : num.F) (c k : ℕ)
        → num.less x (num.of_nat 0) ≡ false
        → num.fits c ≡ true
        → 2 * (c * 1000000) < power 2 k
        → num.less
            (num.mul (num.of_nat c) (num.pow (num.div (num.of_nat 1) (num.add x (num.of_nat 2))) k))
            (tolerance num)
          ≡ true

  -- a weight that is computed breaks the loop
  abbrev Breaks : OpTimeModel num → Args num → ℕ → Type 0
  Breaks m a k =
      num.fits (comb (m.num_prefetches + k) k) ≡ true
      → num.less (rho num m a k) (tolerance num) ≡ true

  -- what the loop gives
  abbrev Ends : OpTimeModel num → Args num → ℕ → ℕ → Sums num → Type 0
  Ends m a fuel k s = (t : Result (Sums num)) × (outer_loop num fuel m a k s ≡ done t) × Returns t

  one_round :
      (m : OpTimeModel num) (a : Args num) (fuel k : ℕ) (s : Sums num)
      → (num.fits (comb (m.num_prefetches + k) k) ≡ true
          → num.less (rho num m a k) (tolerance num) ≡ false
          → Ends m a fuel (k + 1) (round num m a k s))
      → Ends m a (suc fuel) k s
  unfolding outer_loop
  one_round m a fuel k s later = elim (Bool-cases (num.fits (comb (m.num_prefetches + k) k))) [
    | inr large ↦ (err overflow_error, rw large, inr (inr refl))
    | inl small ↦ elim (Bool-cases (num.less (rho num m a k) (tolerance num))) [
      | inl broke ↦ (ok s, rw (small, broke), inl (s, refl))
      | inr more ↦ elim (Bool-cases (all_fit num m (m.num_prefetches + 1) 0)) [
        | inr large ↦ (err overflow_error, rw (small, more, large), inr (inr refl))
        | inl fit ↦ let (t, e, r) = later small more in (t, rw (small, more, fit, e), r)
      ]
    ]
  ]

  -- the loop ends in the rounds up to one that breaks
  outer_loop-done :
      (m : OpTimeModel num) (a : Args num) (left fuel k stop : ℕ) (s : Sums num)
      → stop ≡ k + left
      → left < fuel
      → Breaks m a stop
      → Ends m a fuel k s
  outer_loop-done m a left zero k stop s e h b = absurd (omega arith)
  outer_loop-done m a zero (suc fuel) k stop s e h b =
      let here : stop ≡ k = omega arith in
      one_round m a fuel k s (λ small more. cc ((subst (Breaks m a) here b) small, more))
  outer_loop-done m a (suc left) (suc fuel) k stop s e h b = one_round m a fuel k s (λ small more.
      outer_loop-done m a left fuel (k + 1) stop (round num m a k s) (omega arith) (omega arith) b)

  rho-small :
      IsAccurate
      → (m : OpTimeModel num) (a : Args num) → num.less a.num_memory_accesses (num.of_nat 0) ≡ false
      → Breaks m a (63 + 6 * m.num_prefetches)
  unfolding rho p_io
  rho-small acc m a nonneg fit =
      let k : ℕ = 63 + 6 * m.num_prefetches in
      acc.small a.num_memory_accesses (comb (m.num_prefetches + k) k) k nonneg fit
        (comb-lt-power m.num_prefetches k refl)

  true_div-Returns : (x y : num.F) → Returns (true_div num x y)
  true_div-Returns x y = elim (Bool-cases (num.same y (num.of_nat 0))) [
    | inl zero_divisor ↦ rw zero_divisor (inr (inl refl))
    | inr divides ↦ rw divides (inl (_, refl))
  ]

  bind-Returns :
      {A B : Type 0} (r : Result A) (f : A → B) → Returns r → Returns (r >>= λ x. ok (f x))
  bind-Returns (ok x) f h = inl (f x, refl)
  bind-Returns (err e) f h = elim h [
    | inl (t, same) ↦ cc same
    | inr (inl same) ↦ inr (inl (cc same))
    | inr (inr same) ↦ inr (inr (cc same))
  ]

  finish-Returns :
      (m : OpTimeModel num) (a : Args num) (t : Result (Sums num))
      → Returns t
      → (r : Result num.F) × (finish num m a (done t) ≡ done r) × Returns r
  unfolding finish expected_time and_then
  finish-Returns m a (ok s) h = (
    _,
    refl,
    bind-Returns (true_div num (accesses num a) s.expected_seq_length) _ (true_div-Returns _ _),
  )
  finish-Returns m a (err e) h = (
    err e,
    refl,
    elim h [
      | inl (t, same) ↦ cc same
      | inr (inl same) ↦ inr (inl (cc same))
      | inr (inr same) ↦ inr (inr (cc same))
    ],
  )

  -- The fuel of the outer loop, 64 + 6 * num_prefetches rounds, is enough for every model, where the
  -- number of memory accesses is not negative: each of the four classes returns a number or raises
  -- ZeroDivisionError or OverflowError. A weight that is computed is below 1e-6 whenever the exact bound
  -- on it is below half of that.
  pub reciprocal_throughput_ends :
      IsAccurate
      → (m : OpTimeModel num) (a : Args num) → num.less a.num_memory_accesses (num.of_nat 0) ≡ false
      → (r : Result num.F) × (reciprocal_throughput num m a ≡ done r) × Returns r
  unfolding reciprocal_throughput combine limit
  reciprocal_throughput_ends acc m a nonneg = ends m.kind
    where
      ends : (kind : Kind) → (r : Result num.F) × (combine num kind m a ≡ done r) × Returns r
      ends base = (_, refl, inl (_, refl))
      ends worst = (_, refl, bind-Returns (limit num m a) _ (true_div-Returns _ _))
      ends best = (_, refl, bind-Returns (limit num m a) _ (true_div-Returns _ _))
      ends probabilistic = elim (Bool-cases (num.same (accesses num a) (num.of_nat 0))) [
        | inl zero_accesses ↦ (err zero_division, rw zero_accesses, inr (inl refl))
        | inr divides ↦
            let (t, e, h) =
              outer_loop-done m a (63 + 6 * m.num_prefetches) (enough num m) 0
                (63 + 6 * m.num_prefetches) (start num) (omega arith) (omega arith)
                (rho-small acc m a nonneg) in
            let (r, f, g) = finish-Returns m a t h in (r, rw (divides, e, f), g)
      ]
