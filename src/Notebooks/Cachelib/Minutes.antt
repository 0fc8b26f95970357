-- ===== src/Notebooks/Cachelib/Minutes.antt =====
-- notebooks/cachelib.ipynb: the curves over time, `plot_over_time` and the functions that it calls.
pub mod Curves
use cxlkvs.Prelude.{ℕ, List, [], ◌∷◌, ◌++◌, map}
use cxlkvs.Py.Text.{Text, codes}
use cxlkvs.Py.Decimal.{decimal}
use cxlkvs.Py.Num.{Num, max_num}
use cxlkvs.Py.Result.{Result, ok, err, value_error, ◌>>=◌, traverse}
use cxlkvs.Py.Dict.{Dict}
use cxlkvs.Cachelib.Parser.{Stats}
use cxlkvs.Cachelib.Analyzer.{values_of, to_num}
use cxlkvs.Notebooks.Plot.Bars.{Pyplot}

module _ (num : Num) (mean : List num.F → num.F) (plt : Pyplot num.F) where
  open num use {F, of_nat, mul, div}

  -- The curve of a number of threads.
  pub record TimeCurve : Type 0 where
    pub num_threads : ℕ
    pub times : List F
    pub values : List F

  -- the greatest value behind `m`
  unfoldable pub amax_from : F → List F → F
  amax_from m [] = m
  amax_from m (x ∷ xs) = amax_from (max_num num m x) xs

  -- `np.amax(ys)`
  unfoldable pub amax : List F → Result F
  unfolding amax_from
  amax [] = err value_error
  amax (x ∷ xs) = ok (amax_from x xs)

  -- The loop of the three functions below, which differ in the key and in the unit: the curves, and
  -- `vline_max`.
  unfoldable pub curves_from : Text → (F → F) → F → Dict ℕ (Stats num) → Result (List TimeCurve × F)
  unfolding values_of amax
  curves_from key unit vline_max [] = ok ([], vline_max)
  curves_from key unit vline_max ((n, stats) ∷ stats_dict) = do
    let ts = map (to_num num mean) (values_of num mean (codes "time") stats)
    let ys = map (λ x. unit (to_num num mean x)) (values_of num mean key stats)
    drawn ← plt.plot ts ys
    top ← amax ys
    r ← curves_from key unit (max_num num vline_max top) stats_dict
    ok ((record { num_threads = n; times = ts; values = ys }) ∷ r.0, r.1)

  -- millions of reads per second
  unfoldable pub plot_throughput_over_time : Dict ℕ (Stats num) → Result (List TimeCurve × F)
  unfolding curves_from
  plot_throughput_over_time =
      curves_from (codes "cache_gets")
        (λ x. mul (div x (of_nat 60)) (div (of_nat 1) (of_nat 1000000))) (of_nat 0)

  -- microseconds
  unfoldable pub plot_latency_over_time : Dict ℕ (Stats num) → ℕ → Result (List TimeCurve × F)
  unfolding curves_from
  plot_latency_over_time stats_dict percentile =
      curves_from (codes "find_p" ++ decimal percentile) (λ x. mul x (div (of_nat 1) (of_nat 1000)))
        (of_nat 0) stats_dict

  -- `'_' + tier if tier else ''`
  abbrev pub tier_suffix : Text → Text
  tier_suffix [] = []
  tier_suffix (c ∷ tier) = codes "_" ++ (c ∷ tier)

  -- percents
  unfoldable pub plot_hit_ratio_over_time : Dict ℕ (Stats num) → Text → Result (List TimeCurve × F)
  unfolding curves_from
  plot_hit_ratio_over_time stats_dict tier =
      curves_from (codes "hit" ++ tier_suffix tier) (λ x. x) (of_nat 0) stats_dict

  unfoldable pub plot_over_time : Dict ℕ (Stats num) → List ℕ → Result (List (List TimeCurve × F))
  unfolding plot_throughput_over_time plot_latency_over_time plot_hit_ratio_over_time
  plot_over_time stats_dict percentile_list = do
    t ← plot_throughput_over_time stats_dict
    ls ← traverse (plot_latency_over_time stats_dict) percentile_list
    h ← plot_hit_ratio_over_time stats_dict []
    r ← plot_hit_ratio_over_time stats_dict (codes "ram")
    n ← plot_hit_ratio_over_time stats_dict (codes "nvm")
    ok (t ∷ ls ++ h ∷ r ∷ n ∷ [])
