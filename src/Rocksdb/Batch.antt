-- ===== src/Rocksdb/Batch.antt =====
-- rocksdb/batch.py: the runs of db_bench, in their order, with the directory and the environment of
-- each. Starting a process is a step by name only; what `change_num_cores` does is in Header.
pub mod Builds
pub mod Header
use cxlkvs.Prelude.{
  nat_eq, string_eq, ℕ, ◌*◌, ◌+◌, Bool, true, false, String, Option, none, some, List, [], ◌∷◌,
  ◌++◌, if◌then◌else◌, ◌==◌,
}
use cxlkvs.Py.Text.{Text, codes}
use cxlkvs.Py.Result.{Result, ok, err, name_error}
use cxlkvs.Py.Decimal.{decimal}
use cxlkvs.Py.Dict
use cxlkvs.Py.Dict.{Dict}

-- The arguments of `run_benchmark`.
pub record Job : Type 0 where
  pub workload : Text
  pub num_cores : ℕ
  pub num_threads : ℕ
  pub use_cxl : Bool
  pub latency : ℕ

-- '_core%d_threads%d', with any text behind it
unfoldable pub cores_and_threads : ℕ → ℕ → Text → Text
cores_and_threads num_cores num_threads rest =
    codes "_core" ++ (decimal num_cores ++ (codes "_threads" ++ (decimal num_threads ++ rest)))

-- '_cxl%d' or '_dram'
unfoldable pub memory_suffix : Bool → ℕ → Text
memory_suffix true latency = codes "_cxl" ++ decimal latency
memory_suffix false latency = codes "_dram"

unfoldable pub job_id : Job → Text
unfolding cores_and_threads memory_suffix
job_id j =
    j.workload ++ cores_and_threads j.num_cores j.num_threads (memory_suffix j.use_cxl j.latency)

-- `CXL_NODEMASK` is `(1 << 2) | (1 << 3)`.
unfoldable pub nodemask : Bool → ℕ
nodemask true = 4 + 8
nodemask false = 1

-- The environment of the process, from that of the script and from its working directory.
unfoldable pub job_environment : Dict String Text → Text → Job → Dict String Text
unfolding job_id nodemask
job_environment environ working_dir j =
    let set = λ (name : String) (value : Text) (env : Dict String Text). Dict.put name value env in
    let out = set "OUTPUT_DIR" (working_dir ++ (codes "/log/" ++ job_id j)) environ in
    let dirs = set "WAL_DIR" (codes "wal") (set "DB_DIR" (codes "data") out) in
    let keys = set "COMPRESSION_TYPE" (codes "none") (set "NUM_KEYS" (decimal 1000000000) dirs) in
    let read =
      set "READ_RANDOM_ZIPF_EXPONENT" (codes "0.99") (set "USE_O_DIRECT" (codes "1") keys) in
    let cxl = set "USE_CXL" (decimal (nodemask j.use_cxl)) (set "DURATION" (codes "180") read) in
    let delay =
      set "CXL_SET_LATENCY_PATH" (codes "~/set_latency.sh")
        (set "CXL_LATENCY" (decimal j.latency) cxl) in
    let cache =
      set "CACHE_NUMSHARDBITS" (codes "10")
        (set "CACHE_SIZE" (decimal (32 * 1024 * 1024 * 1024)) delay) in
    set "WRITE_BUFFER_SIZE_MB" (codes "4096") (set "NUM_THREADS" (decimal j.num_threads) cache)

-- A call of the script's body.
pub data Step : Type 0 where
  change_num_cores : ℕ → Step
  run_benchmark : Job → Step

-- `for x in xs:`, where the body makes a list of calls
unfoldable pub for_each : {A : Type 0} → List A → (A → List Step) → List Step
for_each [] body = []
for_each (x ∷ xs) body = body x ++ for_each xs body

abbrev dram_job : Text → ℕ → ℕ → Step
dram_job workload num_cores num_threads = run_benchmark (record {
  workload = workload;
  num_cores = num_cores;
  num_threads = num_threads;
  use_cxl = false;
  latency = 0;
})

abbrev cxl_job : Text → ℕ → ℕ → ℕ → Step
cxl_job workload num_cores num_threads latency = run_benchmark (record {
  workload = workload;
  num_cores = num_cores;
  num_threads = num_threads;
  use_cxl = true;
  latency = latency;
})

-- one workload with one number of threads, without and with CXL
unfoldable pub memory_sweep : List ℕ → Text → ℕ → ℕ → List Step
unfolding for_each
memory_sweep latency_list workload num_cores num_threads =
    dram_job workload num_cores num_threads
    ∷ for_each latency_list λ latency. cxl_job workload num_cores num_threads latency ∷ []

unfoldable pub read_only : List ℕ → List ℕ → List ℕ → List Step
unfolding for_each memory_sweep
read_only num_cores_list num_threads_per_core_list latency_list =
    for_each num_cores_list λ num_cores.
      change_num_cores num_cores
      ∷ for_each num_threads_per_core_list λ num_threads_per_core.
        memory_sweep latency_list (codes "readrandom") num_cores (num_threads_per_core * num_cores)

-- the variable of a loop, behind it
unfoldable pub last_value : List ℕ → Option ℕ
last_value [] = none
last_value (x ∷ []) = some x
last_value (x ∷ y ∷ xs) = last_value (y ∷ xs)

-- the second part, where `num_cores` is what the first has left
unfoldable pub read_write_mix : ℕ → List ℕ → List Step
unfolding for_each memory_sweep
read_write_mix num_cores latency_list =
    let n = if num_cores == 16 then num_cores else 16 in
    (if num_cores == 16 then [] else change_num_cores 16 ∷ [])
    ++ for_each (1024 ∷ 2048 ∷ [])
        λ num_threads. memory_sweep latency_list (codes "readrandomwriterandom") n num_threads

-- the script, for its three lists
unfoldable pub steps : List ℕ → List ℕ → List ℕ → Result (List Step)
unfolding read_only last_value read_write_mix
steps num_cores_list num_threads_per_core_list latency_list = elim (last_value num_cores_list) [
  | none ↦ err name_error
  | some num_cores ↦ ok (
      read_only num_cores_list num_threads_per_core_list latency_list
      ++ read_write_mix num_cores latency_list)
]

-- the runs among the calls
abbrev pub jobs_of : List Step → List Job
jobs_of [] = []
jobs_of (change_num_cores n ∷ ss) = jobs_of ss
jobs_of (run_benchmark j ∷ ss) = j ∷ jobs_of ss

abbrev pub num_cores_list : List ℕ
num_cores_list = 1 ∷ 2 ∷ 4 ∷ 8 ∷ 16 ∷ []

abbrev pub num_threads_per_core_list : List ℕ
num_threads_per_core_list = 16 ∷ 32 ∷ 64 ∷ 128 ∷ []

abbrev pub latency_list : List ℕ
latency_list = 0 ∷ 1000 ∷ 2000 ∷ 3000 ∷ 4000 ∷ 5000 ∷ 10000 ∷ []
