-- ===== src/Notebooks/Plot/Raises.antt =====
-- The exceptions of `plot_with_models` in notebooks/utils/plot.py.
use cxlkvs.Prelude.{
  length, get_elem?, ◌<◌, ℕ, ◌≤◌, suc, ◌≡◌, refl, false, List, [], ◌∷◌, ◌<◌, text_eq, nat_eq, arith,
}
use cxlkvs.Py.Text.{Text}
use cxlkvs.Py.Num.{Num}
use cxlkvs.Py.Result.{ok, err, unbound_local, index_error}
use cxlkvs.Model.{and_then, probabilistic, done}
use cxlkvs.Model.Order.{IsAntitone, IsMonotone, of_kind}
use cxlkvs.Notebooks.Plot.{
  Setting, model_list, model_perf, model_bars, bars, normalized, plot_from, plot_with_models,
}
use cxlkvs.Notebooks.Plot.Timed.{IsTimed, base_model, model_perf-Ordered}
use cxlkvs.Notebooks.Plot.Bars.{Pyplot, IsPyplot}
use cxlkvs.Notebooks.Plot.Lengths.{length-model_perf}

module _ (num : Num) (laws : IsMonotone num) (anti : IsAntitone num) (s : Setting num)
    (timed : IsTimed num s) where
  open num use {F}

  bars_before :
      (ls : List ℕ) (throughputs : List F) (label : Text) (i pos : ℕ)
      → i < pos
      → bars num s ls throughputs label pos i ≡ model_bars num s ls (get_elem? (model_list num s) i)
  unfolding bars
  bars_before ls throughputs label i pos h = ground arith

  empty_raises :
      (plt : Pyplot F)
      → IsPyplot plt
      → (label : Text) → plot_with_models num plt s [] [] label 0 false ≡ done (err unbound_local)
  unfolding plot_with_models plot_from bars model_bars normalized and_then model_list
  empty_raises plt draws label = rw (draws.bar_ok 0 [] refl) refl

  no_latency_raises :
      (plt : Pyplot F) (throughputs : List F) (label : Text) (pos : ℕ)
      → plot_with_models num plt s [] throughputs label (suc pos) false ≡ done (err unbound_local)
  unfolding plot_with_models plot_from bars model_bars normalized and_then model_list
  no_latency_raises plt throughputs label pos = ground arith

  far_raises :
      (plt : Pyplot F)
      → IsPyplot plt
      → (throughputs ps : List F) (label : Text) (l : ℕ) (ls : List ℕ)
      → model_perf num s (of_kind num probabilistic (base_model num s)) (l ∷ ls) ≡ done (ok ps)
      → (pos : ℕ) → 4 ≤ pos
      → plot_with_models num plt s (l ∷ ls) throughputs label pos false ≡ done (err index_error)
  unfolding plot_with_models plot_from model_bars model_list normalized and_then
  far_raises plt draws throughputs ps label l ls pe pos h =
      let (ws, bs, we, be, le) = model_perf-Ordered num laws anti s timed (l ∷ ls) in
      let at_round : (i : ℕ)
          → i < 4
          → bars num s (l ∷ ls) throughputs label pos i
            ≡ model_bars num s (l ∷ ls) (get_elem? (model_list num s) i) =
        λ i lt. bars_before (l ∷ ls) throughputs label i pos (omega (arith, lt, h)) in
      rw (
        at_round 0 (omega arith),
        we,
        draws.bar_ok (length (l ∷ ls)) ws (length-model_perf num s _ (l ∷ ls) ws we),
        at_round 1 (omega arith),
        pe,
        draws.bar_ok (length (l ∷ ls)) ps (length-model_perf num s _ (l ∷ ls) ps pe),
        at_round 2 (omega arith),
        be,
        draws.bar_ok (length (l ∷ ls)) bs (length-model_perf num s _ (l ∷ ls) bs be),
        at_round 3 (omega arith),
      )

  -- Where matplotlib draws as many values as positions, arithmetic is monotone, times are not negative,
  -- the base time is above zero, there is at least one prefetch and the probabilistic model returns:
  -- without normalizing, `plot_with_models` raises UnboundLocalError without a latency, at the position
  -- 0 of the measured curve where nothing is measured, and at every later position whatever is measured;
  -- with one latency or more, and whatever is measured, it raises IndexError at every position from 4.
  pub plot_with_models_raises :
      (plt : Pyplot F)
      → IsPyplot plt
      → (throughputs ps : List F) (label : Text) (l : ℕ) (ls : List ℕ)
      → model_perf num s (of_kind num probabilistic (base_model num s)) (l ∷ ls) ≡ done (ok ps)
      → (plot_with_models num plt s [] [] label 0 false ≡ done (err unbound_local))
        × ((pos : ℕ)
            → plot_with_models num plt s [] throughputs label (suc pos) false
              ≡ done (err unbound_local))
        × ((pos : ℕ)
            → 4 ≤ pos
            → plot_with_models num plt s (l ∷ ls) throughputs label pos false
              ≡ done (err index_error))
  plot_with_models_raises plt draws throughputs ps label l ls pe = (
    empty_raises plt draws label,
    no_latency_raises plt throughputs label,
    far_raises plt draws throughputs ps label l ls pe,
  )
