-- ===== src/Rocksdb/Tests.antt =====
-- The theorems about the RocksDB scripts at concrete inputs.
use cxlkvs.Prelude.{ℕ, ◌≡◌, refl, true, false, none, some, List, [], ◌∷◌, All, map, arith}
use cxlkvs.Py.Result.{err, ok}
use cxlkvs.Py.Dict
use cxlkvs.Py.Decimal.{decimal}
use cxlkvs.Py.Text.{starts_with, int_digits, split, strip, int_text, Text, codes}
use cxlkvs.Py.Num.{nat_num}
use cxlkvs.Py.Dict
use cxlkvs.Py.Sort.{sort}
use cxlkvs.Rocksdb.Batch.{
  Job, Step, change_num_cores, run_benchmark, job_id, steps, jobs_of, num_cores_list,
  num_threads_per_core_list, latency_list,
}
use cxlkvs.Rocksdb.Batch.Header.{builds}
use cxlkvs.Rocksdb.Batch.Header.Built.{header, IsSingle, IsOwn, builds-steps}
use cxlkvs.Py.Regex.{match_head}
use cxlkvs.Py.Regex.Sub.{rest_behind}
use cxlkvs.Rocksdb.Parser.{
  Perf, Stats, parse, parse_file, read_names, get_perf, get_max_throughput, get_num_threads_list,
}
use cxlkvs.Rocksdb.Parser.JobName.{names_of, read_names-job_id}
use cxlkvs.Rocksdb.Parser.Suffix.{IsName}
use cxlkvs.Rocksdb.Parser.Lookup.{dir_of, distinct, IsLogged, parse-get_perf}
use cxlkvs.Rocksdb.Parser.Maximum.{IsMax, get_max_throughput-IsMax}

abbrev local_job : Job
local_job = record {
  workload = codes "readrandom";
  num_cores = 8;
  num_threads = 128;
  use_cxl = false;
  latency = 0;
}

abbrev cxl_job : Job
cxl_job = record {
  workload = codes "readrandom";
  num_cores = 8;
  num_threads = 128;
  use_cxl = true;
  latency = 0;
}

word-IsName : IsName (codes "readrandom")
word-IsName = (λ e. cc e, ground arith)

job_id-cxl_job : job_id cxl_job ≡ codes "readrandom_core8_threads128_cxl0"
unfolding job_id decimal
job_id-cxl_job = refl

read_names-job_id_example :
    read_names (job_id cxl_job) none
    ≡ ok (
        some
          (record { test = codes "readrandom"; num_cores = 8; num_threads = 128; latency = 500 }))
unfolding names_of
read_names-job_id_example = read_names-job_id cxl_job none word-IsName

abbrev log : Job → List Text
log j =
    codes "readrandom : 14.5 micros/op 68900 ops/sec 180.0 seconds\n"
    ∷ codes "Percentiles: P50: 14 P75: 16 P90: 20 P99: 31 P99.9: 40\n"
    ∷ []

abbrev perf : Job → Perf nat_num
perf j = record {
  throughput = 68900;
  latency_p50 = some 14;
  latency_p90 = some 20;
  latency_p99 = some 31;
}

log-perf : parse_file nat_num (log local_job) (codes "readrandom") ≡ ok (perf local_job)
unfolding parse_file starts_with int_digits split strip int_text
log-perf = refl

jobs_IsLogged : All (IsLogged nat_num log perf) (local_job ∷ cxl_job ∷ [])
jobs_IsLogged = ((word-IsName, log-perf), ((word-IsName, log-perf), tt))

parse-get_perf_example :
    (stats : Stats nat_num) × (parse nat_num
        (map (dir_of nat_num log perf) (local_job ∷ cxl_job ∷ []))
      ≡ ok stats)
    × All
        (λ j.
          get_perf nat_num stats
            (names_of j).test
            (names_of j).num_cores
            (names_of j).latency
            (names_of j).num_threads
          ≡ ok (perf j))
        (local_job ∷ cxl_job ∷ [])
unfolding names_of
parse-get_perf_example =
    parse-get_perf nat_num log perf (local_job ∷ cxl_job ∷ []) jobs_IsLogged refl

-- no two runs of the script have the same key
distinct-steps :
    elim (steps num_cores_list num_threads_per_core_list latency_list) [
      | ok ss ↦ distinct (map names_of (jobs_of ss))
      | err e ↦ false
    ]
    ≡ true
unfolding steps names_of
distinct-steps = refl

abbrev stats : Stats nat_num
stats =
    (codes "readrandom", (8, (500, (128, perf cxl_job) ∷ (64, perf cxl_job) ∷ []) ∷ []) ∷ []) ∷ []

get_max_throughput-IsMax_example :
    (r : ℕ) × (get_max_throughput nat_num stats (codes "readrandom") 8 500 ≡ ok r)
    × IsMax nat_num stats (codes "readrandom") 8 500 (64 ∷ 128 ∷ []) r
unfolding get_num_threads_list Dict.index sort
get_max_throughput-IsMax_example =
    get_max_throughput-IsMax nat_num stats (codes "readrandom") 8 500 (64 ∷ 128 ∷ []) refl

abbrev run_on : Text → ℕ → ℕ → Step
run_on workload num_cores num_threads = run_benchmark (record {
  workload = workload;
  num_cores = num_cores;
  num_threads = num_threads;
  use_cxl = false;
  latency = 0;
})

abbrev some_steps : List Step
some_steps =
    change_num_cores 1
    ∷ run_on (codes "readrandom") 1 16
    ∷ change_num_cores 16
    ∷ run_on (codes "readrandomwriterandom") 16 1024
    ∷ run_on (codes "readrandomwriterandom") 16 2048
    ∷ []

abbrev class_head : Text
class_head = codes "class PhotonEnv {\n  "

abbrev class_end : Text
class_end = codes "\n};\n"

class-IsSingle : IsSingle class_head class_end
unfolding rest_behind match_head
class-IsSingle = record { free_before = λ m. ground arith; free_behind = ground arith }

-- where db_bench is its header
builds-steps_example : All (IsOwn class_head class_end (λ h. h)) (
    builds (λ h. h) (record { header = header class_head class_end 1; db_bench = none }) some_steps)
unfolding steps
builds-steps_example =
    builds-steps class_head class_end (λ h. h) class-IsSingle 1 (1 ∷ []) (16 ∷ []) [] some_steps
      refl
