-- ===== src/Notebooks/Cachelib/Tests.antt =====
-- The tables of notebooks/cachelib.ipynb from logs with two parts.
use cxlkvs.Prelude.{map, arith, ℕ, ◌+◌, ◌/◌, ◌≡◌, refl, List, [], ◌∷◌, length, nat_eq}
use mathlib.Core.Option
use cxlkvs.Py.Text.{Text, codes, split, int_digits, remove_char, strip}
use cxlkvs.Model.Fixed.{fixed_num}
use cxlkvs.Py.Result.{ok, err, traverse}
use cxlkvs.Py.Dict
use cxlkvs.Segments.{slices, line_indices, indices_from}
use cxlkvs.Py.Decimal.{decimal}
use cxlkvs.Py.Regex.{match_head}
use cxlkvs.Cachelib.Parser.{Stats, parse, is_header}
use cxlkvs.Cachelib.Parser.Format.{int_pattern, float_pattern}
use cxlkvs.Cachelib.Analyzer.{get_stats}
use cxlkvs.Notebooks.Rows.Zip.{zip}
use cxlkvs.Notebooks.Rows.Columns.{cell}
use cxlkvs.Notebooks.Cachelib.{
  num_cores_list, num_threads_list, mem_latency_list, StatsDict, core_list, get_op_ratio, tables,
}
use cxlkvs.Notebooks.Cachelib.Scaled.{tables-get_stats}
use cxlkvs.Notebooks.Plot.Bars.Exact.{exact, exact-IsPyplot}
use cxlkvs.Notebooks.Cachelib.Minutes.Curves.{HasPart}
use cxlkvs.Notebooks.Cachelib.Large.{Drawn, large_cells}
use cxlkvs.Notebooks.Cachelib.Large.Returns.{stages, throughput_bar, latency_bar, large_cells-parse}

abbrev log : ℕ → ℕ → List Text
log num_cores num_threads =
    codes "== Allocator Stats ==\n"
    ∷ codes "23:59:00       1.00M ops completed. Hit Ratio  95% (RAM  90%, NVM   5%)\n"
    ∷ codes "Cache Gets    : 60,000,000\n"
    ∷ codes "00:01:00       2.00M ops completed. Hit Ratio  95% (RAM  90%, NVM   5%)\n"
    ∷ []

abbrev stats : Stats fixed_num
stats = elim (parse fixed_num (log 1 8) []) [ ok s ↦ s | err e ↦ [] ]

abbrev runs : StatsDict fixed_num
runs =
    (1, (8, stats) ∷ (16, stats) ∷ [])
    ∷ (2, (8, stats) ∷ (16, stats) ∷ [])
    ∷ (4, (8, stats) ∷ (16, stats) ∷ [])
    ∷ (8, (8, stats) ∷ (16, stats) ∷ [])
    ∷ (16, (8, stats) ∷ (16, stats) ∷ [])
    ∷ []

log-parsed : parse fixed_num (log 1 8) [] ≡ ok stats
unfolding parse split int_digits slices line_indices int_pattern remove_char float_pattern strip
    Dict.get Dict.put
log-parsed = refl

logs-parsed : get_stats fixed_num log num_cores_list num_threads_list ≡ ok runs
unfolding get_stats Dict.put
logs-parsed = rw log-parsed

-- `numpy.mean`, rounded down
abbrev mean : List ℕ → ℕ
mean xs = sum xs / length xs
  where
    sum : List ℕ → ℕ
    sum [] = 0
    sum (y ∷ ys) = y + sum ys

tables-get_stats_example :
    (lists rows : List (List ℕ)) × (traverse (core_list fixed_num mean runs runs) num_cores_list
      ≡ ok lists)
    × (tables fixed_num mean log log ≡ ok (zip num_cores_list lists, zip mem_latency_list rows))
    × ((i j : ℕ)
        → cell rows i j
          ≡ Option.map (λ x. fixed_num.div x (get_op_ratio fixed_num mean)) (cell lists j i))
tables-get_stats_example = tables-get_stats fixed_num mean log log runs runs logs-parsed logs-parsed

log-HasPart : HasPart (log 16 8)
unfolding indices_from is_header match_head
log-HasPart = ground arith

large_cells-parse_example :
    (r : Drawn fixed_num mean decimal exact) × (large_cells fixed_num mean decimal exact log log
      ≡ ok r)
    × (r.throughputs
        ≡ map (throughput_bar fixed_num mean decimal exact) (stages fixed_num mean stats stats))
    × (r.latencies
        ≡ map (latency_bar fixed_num mean (stages fixed_num mean stats stats)) (50 ∷ 90 ∷ 99 ∷ []))
large_cells-parse_example =
    large_cells-parse fixed_num mean decimal exact exact-IsPyplot log log stats stats stats stats
      log-parsed log-parsed log-parsed log-parsed log-HasPart log-HasPart log-HasPart log-HasPart
