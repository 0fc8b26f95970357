-- ===== src/Notebooks/Plot/Ordered.antt =====
-- The curves that `plot_with_models` of notebooks/utils/plot.py draws: best case above worst case.
use cxlkvs.Prelude.{
  length, ℕ, zero, suc, ◌≡◌, refl, sym, true, false, some, List, [], ◌∷◌, ◌<◌, inl, inr, Bool-cases,
  text_eq, nat_eq, ◌==◌, arith,
}
use cxlkvs.Py.Text.{Text, codes}
use cxlkvs.Py.Num.{Num}
use cxlkvs.Py.Result.{ok, Pointwise}
use cxlkvs.Py.Dict
use cxlkvs.Py.Dict.{Dict}
use cxlkvs.Model.{and_then, worst, best, probabilistic, done}
use cxlkvs.Model.Order.{IsAntitone, Le, IsMonotone, of_kind}
use cxlkvs.Notebooks.Plot.{
  Setting, model_list, model_perf, model_bars, bars, normalized, label_of, plot_from,
  plot_with_models,
}
use cxlkvs.Notebooks.Plot.Timed.{base_model, IsTimed, model_perf-Ordered}
use cxlkvs.Notebooks.Plot.Bars.{Pyplot, IsPyplot}
use cxlkvs.Notebooks.Plot.Lengths.{length-model_perf}

module _ (num : Num) where
  open num use {F, of_nat, add, div, less, same}

  -- the curves under their labels
  abbrev pub HasCurves : Text → List F → List F → List F → List F → Dict Text (List F) → Type 0
  HasCurves label throughputs ws ps bs d =
      (Dict.get (label_of (codes "worst")) d ≡ some ws)
      × (Dict.get (label_of (codes "prob")) d ≡ some ps)
      × (Dict.get (label_of (codes "best")) d ≡ some bs)
      × (Dict.get label d ≡ some throughputs)

  -- what four rounds leave
  abbrev put_all : List (Text × List F) → Dict Text (List F) → Dict Text (List F)
  put_all [] d = d
  put_all ((k, v) ∷ rest) d = put_all rest (Dict.put k v d)

  module _ (laws : IsMonotone num) (anti : IsAntitone num) (s : Setting num)
      (timed : IsTimed num s) where
    module _ (label : Text) (throughputs ps : List F)
        (not_worst : (label_of (codes "worst") == label) ≡ false)
        (not_prob : (label_of (codes "prob") == label) ≡ false)
        (not_best : (label_of (codes "best") == label) ≡ false) where
      flipped : (k : Text) → (k == label) ≡ false → (label == k) ≡ false
      flipped k h = elim (Bool-cases (label == k)) [
        | inl e ↦ cc ((text_eq.equal_iff k label).1 (sym ((text_eq.equal_iff label k).0 e)), h)
        | inr e ↦ e
      ]

      other_worst : (label == label_of (codes "worst")) ≡ false
      other_worst = flipped (label_of (codes "worst")) not_worst

      other_prob : (label == label_of (codes "prob")) ≡ false
      other_prob = flipped (label_of (codes "prob")) not_prob

      other_best : (label == label_of (codes "best")) ≡ false
      other_best = flipped (label_of (codes "best")) not_best

      same_label : (label == label) ≡ true
      same_label = (text_eq.equal_iff label label).1 refl

      abbrev first_order : List F → List F → Dict Text (List F)
      first_order ws bs =
          put_all
            ((label, throughputs)
              ∷ (label_of (codes "worst"), ws)
              ∷ (label_of (codes "prob"), ps)
              ∷ (label_of (codes "best"), bs)
              ∷ [])
            []

      first_order-HasCurves :
          (ws bs : List F) → HasCurves label throughputs ws ps bs (first_order ws bs)
      unfolding label_of
      first_order-HasCurves ws bs =
          simp (Dict.get-put, same_label, not_worst, not_prob, not_best) (refl, refl, refl, refl)

      abbrev second_order : List F → List F → Dict Text (List F)
      second_order ws bs =
          put_all
            ((label_of (codes "worst"), ws)
              ∷ (label, throughputs)
              ∷ (label_of (codes "prob"), ps)
              ∷ (label_of (codes "best"), bs)
              ∷ [])
            []

      second_order-HasCurves :
          (ws bs : List F) → HasCurves label throughputs ws ps bs (second_order ws bs)
      unfolding label_of
      second_order-HasCurves ws bs =
          simp (Dict.get-put, same_label, not_prob, not_best, other_worst) (refl, refl, refl, refl)

      abbrev third_order : List F → List F → Dict Text (List F)
      third_order ws bs =
          put_all
            ((label_of (codes "worst"), ws)
              ∷ (label_of (codes "prob"), ps)
              ∷ (label, throughputs)
              ∷ (label_of (codes "best"), bs)
              ∷ [])
            []

      third_order-HasCurves :
          (ws bs : List F) → HasCurves label throughputs ws ps bs (third_order ws bs)
      unfolding label_of
      third_order-HasCurves ws bs =
          simp (Dict.get-put, same_label, not_best, other_worst, other_prob)
            (refl, refl, refl, refl)

      abbrev last_order : List F → List F → Dict Text (List F)
      last_order ws bs =
          put_all
            ((label_of (codes "worst"), ws)
              ∷ (label_of (codes "prob"), ps)
              ∷ (label_of (codes "best"), bs)
              ∷ (label, throughputs)
              ∷ [])
            []

      last_order-HasCurves :
          (ws bs : List F) → HasCurves label throughputs ws ps bs (last_order ws bs)
      unfolding label_of
      last_order-HasCurves ws bs =
          simp (Dict.get-put, same_label, other_worst, other_prob, other_best)
            (refl, refl, refl, refl)

      -- that matplotlib draws all curves
      drawn :
          (plt : Pyplot F)
          → IsPyplot plt
          → (ls : List ℕ) (ws bs : List F) → length throughputs ≡ length ls
          → model_perf num s (of_kind num worst (base_model num s)) ls ≡ done (ok ws)
          → model_perf num s (of_kind num best (base_model num s)) ls ≡ done (ok bs)
          → model_perf num s (of_kind num probabilistic (base_model num s)) ls ≡ done (ok ps)
          → (plt.bar (length ls) throughputs ≡ ok tt)
            × (plt.bar (length ls) ws ≡ ok tt)
            × (plt.bar (length ls) ps ≡ ok tt)
            × (plt.bar (length ls) bs ≡ ok tt)
      drawn plt draws ls ws bs he we be pe = (
        draws.bar_ok _ _ he,
        draws.bar_ok _ _ (length-model_perf num s _ ls ws we),
        draws.bar_ok _ _ (length-model_perf num s _ ls ps pe),
        draws.bar_ok _ _ (length-model_perf num s _ ls bs be),
      )

      -- For one latency or more, as many measured values and each position of the measured curve, where
      -- its label is none of the models', times are not negative, the base time is above zero, there is
      -- at least one prefetch, the probabilistic model returns, arithmetic is monotone and matplotlib draws as many values as
      -- positions: without normalizing, `plot_with_models` returns the measured and the probabilistic
      -- curve and those of the worst and the best case under their labels, and at each latency the
      -- throughput of the worst case is at most that of the best case.
      pub plot_with_models-Ordered :
          (plt : Pyplot F)
          → IsPyplot plt
          → (l : ℕ) (ls : List ℕ) (pos : ℕ) → pos < 4
          → length throughputs ≡ length (l ∷ ls)
          → model_perf num s (of_kind num probabilistic (base_model num s)) (l ∷ ls) ≡ done (ok ps)
          → (ws bs : List F) × (d : Dict Text (List F)) × (plot_with_models num plt s
                (l ∷ ls)
                throughputs
                label
                pos
                false
              ≡ done (ok d))
            × HasCurves label throughputs ws ps bs d
            × Pointwise (Le num) ws bs
      unfolding plot_with_models plot_from bars model_bars model_list normalized and_then label_of
      plot_with_models-Ordered plt draws l ls zero h he pe =
          let (ws, bs, we, be, le) = model_perf-Ordered num laws anti s timed (l ∷ ls) in
          let (dt, dw, dp, db) = drawn plt draws (l ∷ ls) ws bs he we be pe in
          (
            ws,
            bs,
            first_order ws bs,
            rw (we, pe, be, dt, dw, dp, db),
            first_order-HasCurves ws bs,
            le,
          )
      plot_with_models-Ordered plt draws l ls (suc zero) h he pe =
          let (ws, bs, we, be, le) = model_perf-Ordered num laws anti s timed (l ∷ ls) in
          let (dt, dw, dp, db) = drawn plt draws (l ∷ ls) ws bs he we be pe in
          (
            ws,
            bs,
            second_order ws bs,
            rw (we, pe, be, dt, dw, dp, db),
            second_order-HasCurves ws bs,
            le,
          )
      plot_with_models-Ordered plt draws l ls (suc (suc zero)) h he pe =
          let (ws, bs, we, be, le) = model_perf-Ordered num laws anti s timed (l ∷ ls) in
          let (dt, dw, dp, db) = drawn plt draws (l ∷ ls) ws bs he we be pe in
          (
            ws,
            bs,
            third_order ws bs,
            rw (we, pe, be, dt, dw, dp, db),
            third_order-HasCurves ws bs,
            le,
          )
      plot_with_models-Ordered plt draws l ls (suc (suc (suc zero))) h he pe =
          let (ws, bs, we, be, le) = model_perf-Ordered num laws anti s timed (l ∷ ls) in
          let (dt, dw, dp, db) = drawn plt draws (l ∷ ls) ws bs he we be pe in
          (
            ws,
            bs,
            last_order ws bs,
            rw (we, pe, be, dt, dw, dp, db),
            last_order-HasCurves ws bs,
            le,
          )
      plot_with_models-Ordered plt draws l ls (suc (suc (suc (suc n)))) h he pe = ground arith
