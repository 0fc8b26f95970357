-- ===== src/Notebooks/Cachelib/Large.antt =====
-- notebooks/cachelib.ipynb: the runs on 400M items, with 16 cores.
pub mod Returns
use cxlkvs.Prelude.{ℕ, zero, suc, ◌+◌, ◌*◌, List, [], ◌∷◌, ◌++◌, map, length, nat_eq, text_eq}
use cxlkvs.Py.Text.{Text, codes}
use cxlkvs.Py.Decimal.{decimal}
use cxlkvs.Py.Num.{Num}
use cxlkvs.Py.Result.{Result, ok, ◌>>=◌}
use cxlkvs.Py.Dict
use cxlkvs.Py.Dict.{Dict}
use cxlkvs.Py.Dict.Lists.{list_at}
use cxlkvs.Cachelib.Analyzer.{get_stats, get_throughput_and_latency}
use cxlkvs.Notebooks.Plot.Bars.{Pyplot, plot_throughputs, plot_latencies}
use cxlkvs.Notebooks.Cachelib.{num_threads_list, cxl_latency_list, mem_latency_list, get_op_ratio}
use cxlkvs.Notebooks.Cachelib.Minutes.{TimeCurve, plot_over_time}

abbrev pub num_cores : ℕ
num_cores = 16

abbrev pub percentile_list : List ℕ
percentile_list = 50 ∷ 90 ∷ 99 ∷ []

-- the time of the change `i`
abbrev pub time_of : ℕ → ℕ
time_of i = 320 + 30 * i

-- the same time for each number of threads
unfoldable pub same_time : ℕ → List ℕ → Dict ℕ ℕ → Dict ℕ ℕ
same_time t [] d = d
same_time t (num_threads ∷ rest) d = same_time t rest (Dict.put num_threads t d)

-- the times of the changes, of which `left` are left from the change `i`
unfoldable pub times_from : ℕ → ℕ → List (Dict ℕ ℕ)
unfolding same_time
times_from i zero = []
times_from i (suc left) = same_time (time_of i) num_threads_list [] ∷ times_from (i + 1) left

module _ (num : Num) (mean : List num.F → num.F) (one_decimal : num.F → Text)
    (plt : Pyplot num.F) where
  open num use {F, of_nat, div}

  -- What the cells draw: the curves over time with local memory and with CXL memory, the throughputs,
  -- and the latencies.
  pub record Drawn : Type 0 where
    pub dram_curves : List (List (TimeCurve num mean plt) × F)
    pub cxl_curves : List (List (TimeCurve num mean plt) × F)
    pub throughputs : List (Text × F)
    pub latencies : List (Text × List F)

  -- `opl['latency_p%d' % p]`
  abbrev pub latency_p : ℕ → Dict Text F → Result F
  latency_p p opl = Dict.index (codes "latency_p" ++ decimal p) opl

  unfoldable pub large_cells : (ℕ → ℕ → List Text) → (ℕ → ℕ → List Text) → Result Drawn
  unfolding times_from
  large_cells read_dram read_cxl = do
    dram_stats_dict ← get_stats num read_dram (num_cores ∷ []) num_threads_list
    cxl_stats_dict ← get_stats num read_cxl (num_cores ∷ []) num_threads_list
    dram ← Dict.index num_cores dram_stats_dict
    dram_curves ← plot_over_time num mean plt dram percentile_list
    cxl ← Dict.index num_cores cxl_stats_dict
    cxl_curves ← plot_over_time num mean plt cxl percentile_list
    r ←
        get_throughput_and_latency num mean dram cxl (times_from 0 (length cxl_latency_list))
          percentile_list
    throughputs ←
        plot_throughputs num one_decimal plt mem_latency_list
          (map (λ x. div x (get_op_ratio num mean)) (list_at 8 r.1.throughput_dict))
    latencies ←
        plot_latencies num one_decimal plt latency_p (of_nat 1000) mem_latency_list
          (list_at 8 r.1.get_latency_dict) percentile_list
    ok (record {
      dram_curves = dram_curves;
      cxl_curves = cxl_curves;
      throughputs = throughputs;
      latencies = latencies;
    })
