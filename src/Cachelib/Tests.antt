-- ===== src/Cachelib/Tests.antt =====
-- The theorems about the CacheLib scripts at concrete inputs.
use cxlkvs.Prelude.{
  nat_eq, zero, suc, ◌/◌, ◌++◌, ℕ, ◌+◌, ◌*◌, ◌<◌, ◌≤◌, ◌≡◌, refl, List, [], ◌∷◌, All, length,
}
use cxlkvs.Py.Result.{ok, err}
use cxlkvs.Py.Dict.{get, put}
use cxlkvs.Py.Text.{Text, codes, split, int_digits, remove_char, strip}
use cxlkvs.Py.Num.{nat_num}
use cxlkvs.Py.Dict
use cxlkvs.Py.Dict.{Dict}
use cxlkvs.Py.Dict.Lists.{list_at}
use cxlkvs.Cachelib.Analyzer.{throughput_at, Locals, get_throughput_and_latency}
use cxlkvs.Cachelib.Analyzer.Series.{
  th, lat, dram_series, cxl_series, get_throughput_and_latency-series,
}
use cxlkvs.Segments.{indices_from, slices, line_indices}
use cxlkvs.Cachelib.Parser.{int, Stat, float, Stats, calls, values_at, parse, is_header}
use cxlkvs.Cachelib.Parser.Format.{dif_time, int_pattern, float_pattern}
use cxlkvs.Cachelib.Parser.Clock.{dif_time_lem}
use cxlkvs.Cachelib.Parser.Aligned.{item_names, parse-calls}

dif_time_lem_example :
    (days : ℕ) × (86340 + dif_time 86340 60 ≡ 60 + days * 86400)
    × (86340 ≤ 60 → days ≡ 0)
    × (60 < 86340 → dif_time 86340 60 < 86400)
dif_time_lem_example = dif_time_lem 86340 60

abbrev log : List Text
log =
    codes "== Allocator Stats ==\n"
    ∷ codes "23:59:00       1.00M ops completed. Hit Ratio  95% (RAM  90%, NVM   5%)\n"
    ∷ codes "Items in RAM  : 1,234\n"
    ∷ codes "Cache Gets    : 100\n"
    ∷ codes "Cache Gets    : 60\n"
    ∷ codes "00:01:00       2.00M ops completed. Hit Ratio  95% (RAM  90%, NVM   5%)\n"
    ∷ codes "Cache Find API latency p50   :    7\n"
    ∷ []

abbrev stats : Stats nat_num
stats = elim (parse nat_num log []) [ ok s ↦ s | err e ↦ [] ]

values_at-parse : values_at nat_num "time" stats ≡ float 0 ∷ float 2 ∷ []
unfolding parse split int_digits slices line_indices int_pattern remove_char float_pattern strip
    values_at get put
values_at-parse = refl

parse-calls_example :
    All
      (λ k. length (values_at nat_num k stats) ≡ length (indices_from is_header 0 log))
      ("time" ∷ item_names calls)
unfolding parse split int_digits slices line_indices int_pattern remove_char float_pattern strip
parse-calls_example = parse-calls nat_num log stats refl

-- `numpy.mean`, rounded down
abbrev mean : List ℕ → ℕ
mean xs = sum xs / length xs
  where
    sum : List ℕ → ℕ
    sum [] = 0
    sum (y ∷ ys) = y + sum ys

abbrev minutes : ℕ → ℕ → List (Stat nat_num)
minutes zero v = []
minutes (suc n) v = int v ∷ minutes n v

abbrev local_runs : Dict ℕ (Stats nat_num)
local_runs =
    (4, ("cache_gets", minutes 10 600 ++ minutes 10 1200) ∷ ("find_p99", minutes 20 7) ∷ []) ∷ []

-- a mean over the last twenty values, less the last five
mean_stats-local_runs :
    throughput_at nat_num mean (("cache_gets", minutes 10 600 ++ minutes 10 1200) ∷ []) 0 ≡ 13
unfolding throughput_at
mean_stats-local_runs = refl

abbrev times : List (Dict ℕ ℕ)
times = ((4, 20) ∷ []) ∷ []

abbrev result : List ℕ × Locals nat_num
result = elim (get_throughput_and_latency nat_num mean local_runs local_runs times (99 ∷ [])) [
  | ok r ↦ r
  | err e ↦ ([], record { max_throughput = 0; throughput_dict = []; get_latency_dict = [] })
]

get_throughput_and_latency-series_example :
    (length result.0 ≡ 2)
    × ((n : ℕ)
        → (list_at n result.1.throughput_dict
            ≡ dram_series nat_num (th nat_num mean (99 ∷ [])) n local_runs
              ++ cxl_series nat_num (th nat_num mean (99 ∷ [])) n times local_runs)
          × (list_at n result.1.get_latency_dict
              ≡ dram_series nat_num (lat nat_num mean (99 ∷ [])) n local_runs
                ++ cxl_series nat_num (lat nat_num mean (99 ∷ [])) n times local_runs))
unfolding get_throughput_and_latency Dict.index
get_throughput_and_latency-series_example =
    get_throughput_and_latency-series nat_num mean (99 ∷ []) local_runs local_runs times result refl
