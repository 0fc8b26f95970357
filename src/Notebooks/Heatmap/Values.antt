-- ===== src/Notebooks/Heatmap/Values.antt =====
-- The values and the labels of an axis of notebooks/model.ipynb.
use cxlkvs.Prelude.{
  ℕ, zero, suc, ◌+◌, ◌-◌, ◌*◌, ◌%◌, ◌≤◌, ◌<◌, ◌≡◌, refl, true, false, List, [], ◌∷◌, ◌++◌, All,
  length, get_elem?, nat_eq, ◌==◌, if◌then◌else◌, arith, Bool-cases, inl, inr,
}
use mathlib.Core.Option
use native.Mathlib.Nat.{mul-mod_left}
use cxlkvs.Py.Text.{Text}
use cxlkvs.Py.Num.{Num}
use cxlkvs.Py.Result.{ok}
use cxlkvs.Model.Order.{Le, IsNonneg, IsMonotone}
use cxlkvs.Notebooks.Heatmap.{value_at, tick_at, set_values_from, set_values}
use cxlkvs.Notebooks.Heatmap.Falls.{Ascends}

-- `i` is a multiple, and `d + 1` before one
multiple : (s i m : ℕ) → i + 0 ≡ m * suc s → (i % suc s == 0) ≡ true
multiple s i m h = let e : i ≡ m * suc s = omega (arith, h) in rw (e, mul-mod_left m (suc s)) refl

no_multiple : (s i d m : ℕ) → i + suc d ≡ m * suc s → suc d < suc s → (i % suc s == 0) ≡ false
no_multiple s i d m h k = grind arith

module _ (num : Num) (start end : num.F) (resolution s : ℕ) (format : num.F → Text)
    (denominator : num.F) where
  open num use {F, of_nat, add, sub, mul, div, same}

  value : ℕ → F
  value i = add start (mul (sub end start) (div (of_nat i) (of_nat (resolution - 1))))

  label : F → Text
  label v = format (div v denominator)

  values : ℕ → ℕ → List F
  values zero i = []
  values (suc left) i = value i ∷ values left (i + 1)

  ticks : ℕ → ℕ → List Text
  ticks zero i = []
  ticks (suc left) i = (if i % suc s == 0 then label (value i) ∷ [] else []) ++ ticks left (i + 1)

  set_values_from-values :
      (left i : ℕ)
      → same (of_nat (resolution - 1)) (of_nat 0) ≡ false
      → same denominator (of_nat 0) ≡ false
      → set_values_from num start end resolution (suc s) format denominator left i
        ≡ ok (values left i, ticks left i)
  unfolding set_values_from value_at tick_at values ticks value label
  set_values_from-values zero i h k = refl
  set_values_from-values (suc left) i h k = elim (Bool-cases (i % suc s == 0)) [
    | inl e ↦ rw (h, e, k, set_values_from-values left (i + 1) h k)
    | inr e ↦ rw (h, e, set_values_from-values left (i + 1) h k)
  ]

  length-values : (left i : ℕ) → length (values left i) ≡ left
  unfolding values
  length-values zero i = refl
  length-values (suc left) i = omega (arith, length-values left (i + 1))

  module _ (laws : IsMonotone num) (nonneg : IsNonneg num (sub end start)) where
    value_mono : (i j : ℕ) → i ≤ j → Le num (value i) (value j)
    unfolding value
    value_mono i j le =
        rw (laws.add_comm start _, laws.add_comm start _)
          (laws.add_mono _ _ start (
            laws.mul_mono _ _ (sub end start) nonneg (
              laws.div_mono _ _ _ (laws.of_nat_nonneg (resolution - 1)) (laws.of_nat_mono i j le))))

    all_later : (i left j : ℕ) → i ≤ j → All (λ v. Le num (value i) v) (values left j)
    unfolding values
    all_later i zero j le = tt
    all_later i (suc left) j le = (value_mono i j le, all_later i left (j + 1) (omega arith))

    values-Ascends : (left i : ℕ) → Ascends num (values left i)
    unfolding values
    values-Ascends zero i = tt
    values-Ascends (suc left) i =
        (all_later i left (i + 1) (omega arith), values-Ascends left (i + 1))

  -- the labels from the round `i` stand at the multiples
  ticks-values :
      (left i d m k : ℕ)
      → i + d ≡ m * suc s
      → d < suc s
      → get_elem? (ticks left i) k ≡ Option.map label (get_elem? (values left i) (d + k * suc s))
  unfolding ticks values
  ticks-values zero i d m k h lt = refl
  ticks-values (suc left) i zero m zero h lt =
      let here : 0 + 0 * suc s ≡ 0 = omega arith in rw (multiple s i m h, here) refl
  ticks-values (suc left) i zero m (suc k) h lt =
      let next : 0 + suc k * suc s ≡ suc (s + k * suc s) = omega arith in
      rw (multiple s i m h, next)
        (ticks-values left (i + 1) s (m + 1) k (omega arith) (omega arith))
  ticks-values (suc left) i (suc d) m k h lt =
      let next : suc d + k * suc s ≡ suc (d + k * suc s) = omega arith in
      rw (no_multiple s i d m h lt, next)
        (ticks-values left (i + 1) d m k (omega arith) (omega arith))

  -- With at least two values, a step and a divisor that are not 0, and a difference between end and
  -- start that is not negative, `set_values` returns as many values as the resolution says, in ascending
  -- order, and the label `k` is that of the value `k * tick_step`, where there is one; there are no others.
  pub set_values-ticks :
      IsMonotone num
      → same (of_nat (resolution - 1)) (of_nat 0) ≡ false
      → same denominator (of_nat 0) ≡ false
      → IsNonneg num (sub end start)
      → (vs : List F) × (labels : List Text) × (set_values num start end resolution
            (suc s)
            format
            denominator
          ≡ ok (vs, labels))
        × (length vs ≡ resolution)
        × Ascends num vs
        × ((k : ℕ)
            → get_elem? labels k
              ≡ Option.map (λ v. format (div v denominator)) (get_elem? vs (k * suc s)))
  unfolding set_values label
  set_values-ticks laws h1 h2 h4 = (
    values resolution 0,
    ticks resolution 0,
    set_values_from-values resolution 0 h1 h2,
    length-values resolution 0,
    values-Ascends laws h4 resolution 0,
    λ k.
        let start_at : 0 + k * suc s ≡ k * suc s = omega arith in
        rw start_at at (ticks-values resolution 0 0 0 k (omega arith) (omega arith)),
  )
