-- ===== src/Notebooks/Cachelib.antt =====
-- notebooks/cachelib.ipynb: the greatest throughputs for each number of cores, and for each latency.
-- `read_dram` and `read_cxl` open the log of a number of cores and one of threads.
pub mod Scaled
pub mod Minutes
pub mod Large
mod Tests
use cxlkvs.Prelude.{ℕ, zero, suc, ◌+◌, ◌*◌, List, [], ◌∷◌, ◌++◌, map, length, nat_eq}
use cxlkvs.Py.Text.{Text}
use cxlkvs.Py.Num.{Num}
use cxlkvs.Py.Result.{Result, ok, ◌>>=◌}
use cxlkvs.Py.Dict
use cxlkvs.Py.Dict.{Dict}
use cxlkvs.Cachelib.Parser.{Stats}
use cxlkvs.Cachelib.Analyzer.{get_stats, get_throughput_and_latency}
use cxlkvs.Notebooks.Rows.{item, at_core, add_cores, add_rows}

abbrev pub num_cores_list : List ℕ
num_cores_list = 1 ∷ 2 ∷ 4 ∷ 8 ∷ 16 ∷ []

abbrev pub num_threads_list : List ℕ
num_threads_list = 8 ∷ 16 ∷ []

abbrev pub dram_latency_list : List ℕ
dram_latency_list = 0 ∷ []

abbrev pub cxl_latency_list : List ℕ
cxl_latency_list = 500 ∷ 1000 ∷ 2000 ∷ 3000 ∷ 4000 ∷ 5000 ∷ 10000 ∷ []

abbrev pub mem_latency_list : List ℕ
mem_latency_list = dram_latency_list ++ cxl_latency_list

abbrev pub change_time_base : Dict ℕ (List ℕ)
change_time_base =
    (1, 390 ∷ 390 ∷ [])
    ∷ (2, 240 ∷ 240 ∷ [])
    ∷ (4, 150 ∷ 150 ∷ [])
    ∷ (8, 100 ∷ 100 ∷ [])
    ∷ (16, 90 ∷ 90 ∷ [])
    ∷ []

abbrev pub change_time_step : ℕ
change_time_step = 30

-- the loop over the numbers of threads, from the round `j`
unfoldable pub change_time : ℕ → ℕ → ℕ → List ℕ → Dict ℕ ℕ → Result (Dict ℕ ℕ)
unfolding item
change_time num_cores i j [] d = ok d
change_time num_cores i j (num_threads ∷ rest) d = do
  bases ← Dict.index num_cores change_time_base
  base ← item bases j
  change_time num_cores i (j + 1) rest (Dict.put num_threads (base + change_time_step * i) d)

-- the times of the changes, of which `left` are left from the change `i`
unfoldable pub change_times : ℕ → ℕ → ℕ → Result (List (Dict ℕ ℕ))
unfolding change_time
change_times num_cores i zero = ok []
change_times num_cores i (suc left) = do
  d ← change_time num_cores i 0 num_threads_list []
  rest ← change_times num_cores (i + 1) left
  ok (d ∷ rest)

abbrev pub StatsDict : Num → Type 0
StatsDict num = Dict ℕ (Dict ℕ (Stats num))

module _ (num : Num) (mean : List num.F → num.F) where
  open num use {F, of_nat, div}

  -- the body of the loop over the numbers of cores
  unfoldable pub core_list : StatsDict num → StatsDict num → ℕ → Result (List F)
  unfolding change_times
  core_list dram_stats_dict cxl_stats_dict num_cores = do
    times ← change_times num_cores 0 (length cxl_latency_list)
    dram ← Dict.index num_cores dram_stats_dict
    cxl ← Dict.index num_cores cxl_stats_dict
    r ← get_throughput_and_latency num mean dram cxl times []
    ok r.0

  unfoldable pub max_throughput_dict : StatsDict num → StatsDict num → Result (Dict ℕ (List F))
  unfolding core_list
  max_throughput_dict dram_stats_dict cxl_stats_dict =
      add_cores (core_list dram_stats_dict cxl_stats_dict) num_cores_list []

  -- GET_OP_RATIO
  abbrev pub get_op_ratio : F
  get_op_ratio = div (of_nat 65) (of_nat 100)

  -- `max_throughput_dict[num_cores][i] / GET_OP_RATIO`
  unfoldable pub scaled_at_core : Dict ℕ (List F) → ℕ → ℕ → ℕ → Result F
  scaled_at_core max_dict i lat num_cores = do
    x ← at_core max_dict i lat num_cores
    ok (div x get_op_ratio)

  unfoldable pub throughput_dict : Dict ℕ (List F) → Result (Dict ℕ (List F))
  unfolding scaled_at_core
  throughput_dict max_dict = add_rows (scaled_at_core max_dict) num_cores_list 0 mem_latency_list []

  unfoldable pub tables :
      (ℕ → ℕ → List Text) → (ℕ → ℕ → List Text) → Result (Dict ℕ (List F) × Dict ℕ (List F))
  unfolding max_throughput_dict throughput_dict
  tables read_dram read_cxl = do
    dram_stats_dict ← get_stats num read_dram num_cores_list num_threads_list
    cxl_stats_dict ← get_stats num read_cxl num_cores_list num_threads_list
    max_dict ← max_throughput_dict dram_stats_dict cxl_stats_dict
    d ← throughput_dict max_dict
    ok (max_dict, d)
