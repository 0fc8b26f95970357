-- ===== src/Notebooks/Rocksdb.antt =====
-- notebooks/rocksdb.ipynb: what it reads from a `RocksDBParser`, and what it plots and stores of it.
pub mod Jobs
pub mod Measured
use cxlkvs.Prelude.{ℕ, List, [], ◌∷◌}
use cxlkvs.Py.Text.{Text, codes}
use cxlkvs.Py.Num.{Num}
use cxlkvs.Py.Result.{Result, ok, ◌>>=◌, traverse}
use cxlkvs.Py.Dict.{Dict}
use cxlkvs.Rocksdb.Parser.{Perf, Stats, get_perf, get_max_throughput}
use cxlkvs.Notebooks.Rows.{add_rows}

abbrev pub num_cores_list : List ℕ
num_cores_list = 1 ∷ 2 ∷ 4 ∷ 8 ∷ 16 ∷ []

abbrev pub latency_list : List ℕ
latency_list = 0 ∷ 500 ∷ 1000 ∷ 2000 ∷ 3000 ∷ 4000 ∷ 5000 ∷ 10000 ∷ []

module _ (num : Num) where
  -- The data of the plots, in their order.
  pub record Figures : Type 0 where
    pub single_core : List ℕ
    pub scaling : Dict ℕ (List ℕ)
    pub all_cores : List ℕ
    pub mixed : List ℕ
    pub latencies : List (Perf num)

module _ (num : Num) (stats : Stats num) where
  -- the loop that fills `throughputs`
  unfoldable pub max_throughputs : Text → ℕ → Result (List ℕ)
  max_throughputs test num_cores =
      traverse (λ latency. get_max_throughput num stats test num_cores latency) latency_list

  unfoldable pub throughput_dict : Result (Dict ℕ (List ℕ))
  throughput_dict =
      add_rows (λ i lat num_cores. get_max_throughput num stats (codes "readrandom") num_cores lat)
        num_cores_list 0 latency_list []

  unfoldable pub op_latencies : Result (List (Perf num))
  op_latencies =
      traverse (λ latency. get_perf num stats (codes "readrandomwriterandom") 16 latency 2048)
        latency_list

  unfoldable pub notebook : Result (Figures num)
  unfolding max_throughputs throughput_dict op_latencies
  notebook = do
    single_core ← max_throughputs (codes "readrandom") 1
    scaling ← throughput_dict
    all_cores ← max_throughputs (codes "readrandom") 16
    mixed ← max_throughputs (codes "readrandomwriterandom") 16
    latencies ← op_latencies
    ok (record {
      single_core = single_core;
      scaling = scaling;
      all_cores = all_cores;
      mixed = mixed;
      latencies = latencies;
    })
