-- ===== src/Notebooks/Plot/Tests.antt =====
-- `plot_with_models` of notebooks/utils/plot.py at numbers with eight decimal places.
use cxlkvs.Prelude.{ℕ, ◌≤◌, ◌≡◌, refl, false, List, [], ◌∷◌, arith, suc}
use cxlkvs.Py.Text.{Text, codes}
use cxlkvs.Py.Dict.{Dict}
use cxlkvs.Py.Result.{ok, err, unbound_local, index_error, Pointwise}
use cxlkvs.Model.{
  and_then, done, reciprocal_throughput, combine, outer_loop, round, finish, start, memory_term,
  io_term, comb, probabilistic, all_fit,
}
use cxlkvs.Model.Order.{Le, of_kind}
use cxlkvs.Model.Fixed.{fixed_num-IsAntitone, fixed_num, fixed_num-IsMonotone}
use cxlkvs.Notebooks.Plot.{Setting, model_perf, plotted_latency, plot_with_models, label_of}
use cxlkvs.Notebooks.Plot.Timed.{IsTimed, base_model}
use cxlkvs.Notebooks.Plot.Ordered.{HasCurves, plot_with_models-Ordered}
use cxlkvs.Notebooks.Plot.Bars.Exact.{exact, exact-IsPyplot}
use cxlkvs.Notebooks.Plot.Raises.{plot_with_models_raises}

abbrev setting : Setting fixed_num
setting = record {
  num_chases = 1000000000;
  memory_time = 2000000000;
  io_time_pre = 10000000000;
  io_time_post = 20000000000;
  switch_time = 500000000;
  num_prefetches = 4;
}

setting-IsTimed : IsTimed fixed_num setting
unfolding reciprocal_throughput combine memory_term io_term
setting-IsTimed = record {
  prefetches = refl;
  switch_time = refl;
  memory_time = refl;
  io_time_pre = refl;
  io_time_post = refl;
  base_time = λ latency t e. let same : 56000000000 ≡ t = cc e in rw (← same) refl;
}

abbrev prob_throughputs : List ℕ
prob_throughputs = 178571428571428 ∷ 37811381090590 ∷ []

prob_curve :
    model_perf fixed_num setting
      (of_kind fixed_num probabilistic (base_model fixed_num setting))
      (0 ∷ 1000 ∷ [])
    ≡ done (ok prob_throughputs)
unfolding reciprocal_throughput combine outer_loop all_fit round finish start memory_term io_term
    comb model_perf plotted_latency and_then
prob_curve = refl

abbrev measured : List ℕ
measured = 150000000000000 ∷ 30000000000000 ∷ []

plot_with_models-Ordered_example :
    (ws bs : List ℕ) × (d : Dict Text (List ℕ)) × (plot_with_models fixed_num exact setting
        (0 ∷ 1000 ∷ [])
        measured
        (codes "CacheLib")
        1
        false
      ≡ done (ok d))
    × HasCurves fixed_num (codes "CacheLib") measured ws prob_throughputs bs d
    × Pointwise (Le fixed_num) ws bs
unfolding label_of
plot_with_models-Ordered_example =
    plot_with_models-Ordered fixed_num fixed_num-IsMonotone fixed_num-IsAntitone setting
      setting-IsTimed (codes "CacheLib") measured prob_throughputs refl refl refl exact
      exact-IsPyplot 0 (1000 ∷ []) 1 (ground arith) refl prob_curve

plot_with_models_raises_example :
    (plot_with_models fixed_num exact setting [] [] (codes "CacheLib") 0 false
      ≡ done (err unbound_local))
    × ((pos : ℕ)
        → plot_with_models fixed_num exact setting [] measured (codes "CacheLib") (suc pos) false
          ≡ done (err unbound_local))
    × ((pos : ℕ)
        → 4 ≤ pos
        → plot_with_models fixed_num exact setting
            (0 ∷ 1000 ∷ [])
            measured
            (codes "CacheLib")
            pos
            false
          ≡ done (err index_error))
plot_with_models_raises_example =
    plot_with_models_raises fixed_num fixed_num-IsMonotone fixed_num-IsAntitone setting
      setting-IsTimed exact exact-IsPyplot measured prob_throughputs (codes "CacheLib") 0
      (1000 ∷ []) prob_curve
