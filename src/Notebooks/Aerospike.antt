-- ===== src/Notebooks/Aerospike.antt =====
-- notebooks/aerospike.ipynb: the greatest throughputs for each number of cores, and for each latency.
pub mod Transposed
pub mod Mixed
mod Tests
use cxlkvs.Prelude.{ℕ, Option, none, some, List, [], ◌∷◌, ◌++◌, get_elem?, nat_eq}
use cxlkvs.Py.Text.{Text, codes}
use cxlkvs.Py.Decimal.{decimal}
use cxlkvs.Py.Num.{Num}
use cxlkvs.Py.Result.{Result, ok, err, index_error, ◌>>=◌, traverse}
use cxlkvs.Py.Dict
use cxlkvs.Py.Dict.{Dict}
use cxlkvs.Aerospike.Analyzer.{LogFile, LogDict, parse_logs, analyze_given_mem_latency_and_batch}
use cxlkvs.Notebooks.Rows.{add_rows, add_cores, at_core}

abbrev pub batch : ℕ
batch = 10

abbrev pub num_cores_list : List ℕ
num_cores_list = 1 ∷ 2 ∷ 4 ∷ 8 ∷ 16 ∷ []

abbrev pub dram_latency_list : List ℕ
dram_latency_list = 0 ∷ []

abbrev pub cxl_latency_list : List ℕ
cxl_latency_list = 500 ∷ 1000 ∷ 2000 ∷ 3000 ∷ 4000 ∷ 5000 ∷ 10000 ∷ []

abbrev pub mem_latency_list : List ℕ
mem_latency_list = dram_latency_list ++ cxl_latency_list

-- `data.update(d)`
unfoldable pub update : LogDict → LogDict → LogDict
update log_data [] = log_data
update log_data ((k, v) ∷ d) = update (Dict.put k v log_data) d

-- 'run-act-ro-dram-%dcore-log' and 'run-act-ro-cxl-%dcore-log'
unfoldable pub dram_dir : ℕ → Text
dram_dir num_cores = codes "run-act-ro-dram-" ++ decimal num_cores ++ codes "core-log"

unfoldable pub cxl_dir : ℕ → Text
cxl_dir num_cores = codes "run-act-ro-cxl-" ++ decimal num_cores ++ codes "core-log"

-- the logs of a directory without CXL and of one with it, where `glob` gives the logs of a directory
unfoldable pub load_data : (Text → List LogFile) → Text → Text → Result LogDict
unfolding update
load_data glob dram_log_dir cxl_log_dir = do
  log_data ← parse_logs (glob dram_log_dir) dram_latency_list
  d ← parse_logs (glob cxl_log_dir) cxl_latency_list
  ok (update log_data d)

unfoldable pub max_throughput_list : (num : Num) → LogDict → Result (List num.F)
max_throughput_list num log_data =
    traverse
      (λ mem_latency. do
        s ← analyze_given_mem_latency_and_batch num log_data mem_latency batch
        ok s.max_throughput)
      mem_latency_list

module _ (num : Num) (glob : Text → List LogFile) where
  open num use {F}

  -- the body of the loop over the numbers of cores
  unfoldable pub core_list : ℕ → Result (List F)
  unfolding load_data dram_dir cxl_dir max_throughput_list
  core_list num_cores = do
    log_data ← load_data glob (dram_dir num_cores) (cxl_dir num_cores)
    max_throughput_list num log_data

  unfoldable pub max_throughput_dict : Result (Dict ℕ (List F))
  unfolding add_cores core_list
  max_throughput_dict = add_cores core_list num_cores_list []

module _ {V : Type 0} where
  unfoldable pub throughput_dict : Dict ℕ (List V) → Result (Dict ℕ (List V))
  unfolding at_core
  throughput_dict max_dict = add_rows (at_core max_dict) num_cores_list 0 mem_latency_list []
