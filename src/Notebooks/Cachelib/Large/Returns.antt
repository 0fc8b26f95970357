-- ===== src/Notebooks/Cachelib/Large/Returns.antt =====
-- What the last cells of notebooks/cachelib.ipynb draw, from the logs of four runs.
use cxlkvs.Prelude.{ℕ, ◌≡◌, refl, List, [], ◌∷◌, ◌++◌, map, nat_eq, text_eq, string_eq, arith}
use cxlkvs.Py.Text.{Text, codes}
use cxlkvs.Py.Decimal.{decimal}
use cxlkvs.Py.Num.{Num}
use cxlkvs.Py.Result.{ok}
use cxlkvs.Py.Dict
use cxlkvs.Py.Dict.{Dict}
use cxlkvs.Py.Dict.Lists.{list_at, append_value}
use cxlkvs.Cachelib.Parser.{Stats, parse}
use cxlkvs.Cachelib.Analyzer.{
  get_stats, threads_stats, cores_stats, mean_stats, throughput_at, latencies_from, Locals, add_run,
  add_dram_runs, add_cxl_runs, add_changes, get_throughput_and_latency,
}
use cxlkvs.Notebooks.Plot.Bars.{
  Pyplot, IsPyplot, latency_label, tick_label, millionth, throughput_bars, plot_throughputs,
  plot_latencies,
}
use cxlkvs.Notebooks.Plot.Bars.Values.{plot_throughputs-throughput_bars, plot_latencies-bars_of}
use cxlkvs.Notebooks.Cachelib.{num_threads_list, mem_latency_list, get_op_ratio}
use cxlkvs.Notebooks.Cachelib.Minutes.Curves.{HasPart, parse-IsDrawn, plot_over_time-IsDrawn}
use cxlkvs.Notebooks.Cachelib.Large.{
  percentile_list, same_time, times_from, Drawn, latency_p, large_cells,
}

module _ (num : Num) (mean : List num.F → num.F) where
  open num use {F, of_nat, mul, div}

  -- A stage of the two runs: the latency, the run, and the minute behind which it is measured.
  abbrev pub Stage : Type 0
  Stage = ℕ × Stats num × ℕ

  -- with local memory, and with each latency of CXL memory
  abbrev pub stages : Stats num → Stats num → List Stage
  stages dram cxl =
      (0, dram, 0)
      ∷ (500, cxl, 320)
      ∷ (1000, cxl, 350)
      ∷ (2000, cxl, 380)
      ∷ (3000, cxl, 410)
      ∷ (4000, cxl, 440)
      ∷ (5000, cxl, 470)
      ∷ (10000, cxl, 500)
      ∷ []

  abbrev latencies_of : Stage → Dict Text F
  latencies_of s = latencies_from num mean percentile_list s.1 s.2 []

  stages-measured :
      (a b c d : Stats num)
      → (r : List F × Locals num) × (get_throughput_and_latency num mean
            ((8, a) ∷ (16, b) ∷ [])
            ((8, c) ∷ (16, d) ∷ [])
            (times_from 0 7)
            percentile_list
          ≡ ok r)
        × (list_at 8 r.1.throughput_dict ≡ map (λ s. throughput_at num mean s.1 s.2) (stages a c))
        × (list_at 8 r.1.get_latency_dict ≡ map latencies_of (stages a c))
  unfolding get_throughput_and_latency add_dram_runs add_changes add_cxl_runs add_run append_value
      list_at Dict.get Dict.put Dict.index times_from same_time
  stages-measured a b c d = (_, refl, refl, refl)

  -- the bar of a stage
  abbrev pub throughput_bar : (F → Text) → Pyplot F → Stage → Text × F
  throughput_bar one_decimal plt s = (
    tick_label num one_decimal plt s.0,
    mul (div (throughput_at num mean s.1 s.2) (get_op_ratio num mean))
        (millionth num one_decimal plt),
  )

  abbrev pub find_p : ℕ → Stage → F
  find_p p s = mean_stats num mean s.1 (codes "find_p" ++ decimal p) s.2

  -- the bars of a percentile
  abbrev pub latency_bar : List Stage → ℕ → Text × List F
  latency_bar ss p = (codes "P" ++ decimal p, map (λ s. div (find_p p s) (of_nat 1000)) ss)

  module _ (one_decimal : F → Text) (plt : Pyplot F) (draws : IsPyplot plt) where
    throughputs-drawn :
        (a c : Stats num)
        → plot_throughputs num one_decimal plt mem_latency_list (
            map
              (λ x. div x (get_op_ratio num mean))
              (map (λ s. throughput_at num mean s.1 s.2) (stages a c)))
          ≡ ok (map (throughput_bar one_decimal plt) (stages a c))
    unfolding throughput_bars latency_label
    throughputs-drawn a c =
        plot_throughputs-throughput_bars num one_decimal plt draws mem_latency_list (
          map (λ x. div x (get_op_ratio num mean))
            (map (λ s. throughput_at num mean s.1 s.2) (stages a c)))

    p50 : (s : Stage) → latency_p num mean one_decimal plt 50 (latencies_of s) ≡ ok (find_p 50 s)
    unfolding latencies_from Dict.put Dict.index Dict.get decimal
    p50 s = refl

    p90 : (s : Stage) → latency_p num mean one_decimal plt 90 (latencies_of s) ≡ ok (find_p 90 s)
    unfolding latencies_from Dict.put Dict.index Dict.get decimal
    p90 s = refl

    p99 : (s : Stage) → latency_p num mean one_decimal plt 99 (latencies_of s) ≡ ok (find_p 99 s)
    unfolding latencies_from Dict.put Dict.index Dict.get decimal
    p99 s = refl

    latencies-drawn :
        (a c : Stats num)
        → plot_latencies num one_decimal plt
            (latency_p num mean one_decimal plt)
            (of_nat 1000)
            mem_latency_list
            (map latencies_of (stages a c))
            percentile_list
          ≡ ok (map (latency_bar (stages a c)) percentile_list)
    latencies-drawn a c =
        plot_latencies-bars_of num one_decimal plt draws (latency_p num mean one_decimal plt)
          (of_nat 1000) latencies_of find_p mem_latency_list (stages a c) 50 (90 ∷ 99 ∷ []) refl
          (p50, (p90, (p99, tt))) (omega arith)

    module _ (read_dram read_cxl : ℕ → ℕ → List Text) where
      runs-read :
          (read : ℕ → ℕ → List Text) (a b : Stats num)
          → parse num (read 16 8) [] ≡ ok a
          → parse num (read 16 16) [] ≡ ok b
          → get_stats num read (16 ∷ []) num_threads_list ≡ ok ((16, (8, a) ∷ (16, b) ∷ []) ∷ [])
      unfolding get_stats cores_stats threads_stats Dict.put
      runs-read read a b e f = rw (e, f) refl

      -- Where the four logs of 16 cores are parsed and each has a part, and where matplotlib draws what has
      -- as many values as positions: the cells return. They draw for local memory and for each latency of
      -- CXL memory the throughput of the run with 8 threads, at the minute 0 and at the change to that
      -- latency, divided by the share of the reads, in millions; and for each percentile the latencies at
      -- the same stages, divided by 1000.
      pub large_cells-parse :
          (a b c d : Stats num)
          → parse num (read_dram 16 8) [] ≡ ok a
          → parse num (read_dram 16 16) [] ≡ ok b
          → parse num (read_cxl 16 8) [] ≡ ok c
          → parse num (read_cxl 16 16) [] ≡ ok d
          → HasPart (read_dram 16 8)
          → HasPart (read_dram 16 16)
          → HasPart (read_cxl 16 8)
          → HasPart (read_cxl 16 16)
          → (r : Drawn num mean one_decimal plt) × (large_cells num mean one_decimal plt read_dram
                read_cxl
              ≡ ok r)
            × (r.throughputs ≡ map (throughput_bar one_decimal plt) (stages a c))
            × (r.latencies ≡ map (latency_bar (stages a c)) percentile_list)
      unfolding large_cells Dict.index Dict.get
      large_cells-parse a b c d ea eb ec ed ha hb hc hd =
          let (l, e1) = plot_over_time-IsDrawn num mean plt draws a b (λ k m. (
            parse-IsDrawn num mean (read_dram 16 8) a k ea ha m,
            parse-IsDrawn num mean (read_dram 16 16) b k eb hb m,
          )) in
          let (x, e2) = plot_over_time-IsDrawn num mean plt draws c d (λ k m. (
            parse-IsDrawn num mean (read_cxl 16 8) c k ec hc m,
            parse-IsDrawn num mean (read_cxl 16 16) d k ed hd m,
          )) in
          let (r, e3, e4, e5) = stages-measured a b c d in
          (
            record {
              dram_curves = l;
              cxl_curves = x;
              throughputs = map (throughput_bar one_decimal plt) (stages a c);
              latencies = map (latency_bar (stages a c)) percentile_list;
            },
            rw
                (
                  runs-read read_dram a b ea eb,
                  runs-read read_cxl c d ec ed,
                  e1,
                  e2,
                  e3,
                  e4,
                  e5,
                  throughputs-drawn a c,
                  latencies-drawn a c,
                )
                refl,
            refl,
            refl,
          )
