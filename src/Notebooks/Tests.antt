-- ===== src/Notebooks/Tests.antt =====
-- The theorems about the notebooks at concrete inputs.
use cxlkvs.Prelude.{
  ◌≡◌, refl, Bool, true, ◌&&◌, ◌||◌, ◌⊎◌, inl, inr, some, List, [], ◌∷◌, ◌++◌, All, map, arith,
  ◌==◌, text_eq, Bool-cases, ℕ,
}
use cxlkvs.Py.Text.{Text, codes, starts_with, int_digits, split, strip, int_text}
use cxlkvs.Py.Num.{nat_num}
use cxlkvs.Py.Result.{ok, traverse}
use cxlkvs.Rocksdb.Batch.{Job, steps}
use cxlkvs.Rocksdb.Parser.{Perf, Stats, parse, parse_file}
use cxlkvs.Rocksdb.Parser.JobName.{names_of}
use cxlkvs.Rocksdb.Parser.Lookup.{dir_of, distinct, IsLogged, and_parts}
use cxlkvs.Py.Dict
use cxlkvs.Py.Dict.{Dict}
use cxlkvs.Py.Regex.{search_any}
use cxlkvs.Segments.{slices, line_indices}
use cxlkvs.Aerospike.Parser as Act
use cxlkvs.Aerospike.Parser.{is_hosts}
use cxlkvs.Aerospike.Parser.Items.{first_group}
use cxlkvs.Aerospike.Parser.Ops.{parse_workload}
use cxlkvs.Aerospike.Analyzer.{LogFile, parse_logs, is_kept, analyze_given_mem_latency_and_batch}
use cxlkvs.Notebooks.Aerospike.{
  num_cores_list, mem_latency_list, core_list, max_throughput_dict, throughput_dict,
}
use cxlkvs.Notebooks.Rows.Columns.{cell}
use cxlkvs.Notebooks.Aerospike.Transposed.{throughput_dict-max_throughput_dict}
use cxlkvs.Notebooks.Rows.Zip.{zip}
use cxlkvs.Notebooks.Rocksdb.{Figures, notebook}
use cxlkvs.Notebooks.Rocksdb.Jobs.{script_jobs}
use cxlkvs.Notebooks.Multicore.{Curve, through_json, curve}
use cxlkvs.Notebooks.Plot.Bars.Exact.{exact, exact-IsPyplot}
use cxlkvs.Notebooks.Multicore.Stored.{curve-scaling, Shows}
use cxlkvs.Notebooks.Rocksdb.Measured.{Row, IsMeasured, parse-notebook}

abbrev log : Job → List Text
log j =
    (j.workload ++ codes " : 14.5 micros/op 68900 ops/sec 180.0 seconds\n")
    ∷ codes "Percentiles: P50: 14 P75: 16 P90: 20 P99: 31 P99.9: 40\n"
    ∷ []

abbrev perf : Job → Perf nat_num
perf j = record {
  throughput = 68900;
  latency_p50 = some 14;
  latency_p90 = some 20;
  latency_p99 = some 31;
}

abbrev is_workload : Text → Bool
is_workload w = w == codes "readrandom" || w == codes "readrandomwriterandom"

abbrev all_workloads : List Job → Bool
all_workloads [] = true
all_workloads (j ∷ js) = is_workload j.workload && all_workloads js

workload-cases :
    (w : Text)
    → is_workload w ≡ true
    → (w ≡ codes "readrandom") ⊎ (w ≡ codes "readrandomwriterandom")
workload-cases w h = elim (Bool-cases (w == codes "readrandom")) [
  | inl e ↦ inl ((text_eq.equal_iff w (codes "readrandom")).0 e)
  | inr e ↦ inr ((text_eq.equal_iff w (codes "readrandomwriterandom")).0 (rw e at h))
]

job-IsLogged : (j : Job) → is_workload j.workload ≡ true → IsLogged nat_num log perf j
unfolding parse_file starts_with int_digits split strip int_text
job-IsLogged j h = elim (workload-cases j.workload h) [
  | inl e ↦ rw e ((λ x. cc x, ground arith), refl)
  | inr e ↦ rw e ((λ x. cc x, ground arith), refl)
]

jobs-IsLogged : (js : List Job) → all_workloads js ≡ true → All (IsLogged nat_num log perf) js
jobs-IsLogged [] h = tt
jobs-IsLogged (j ∷ js) h =
    let (a, b) = and_parts (is_workload j.workload) (all_workloads js) h in
    (job-IsLogged j a, jobs-IsLogged js b)

script-IsLogged : All (IsLogged nat_num log perf) script_jobs
unfolding steps
script-IsLogged = jobs-IsLogged script_jobs refl

script-distinct : distinct (map names_of script_jobs) ≡ true
unfolding steps names_of
script-distinct = refl

parse-notebook_example :
    (st : Stats nat_num) × (parse nat_num (map (dir_of nat_num log perf) script_jobs) ≡ ok st)
    × (f : Figures nat_num) × (notebook nat_num st ≡ ok f)
    × IsMeasured nat_num log perf script_jobs f
parse-notebook_example =
    parse-notebook nat_num log perf script_jobs script-distinct (λ j i. i) script-IsLogged

abbrev figures : Figures nat_num
figures = (parse-notebook nat_num log perf script_jobs script-distinct (λ j i. i) script-IsLogged).2

figures-IsMeasured : IsMeasured nat_num log perf script_jobs figures
figures-IsMeasured =
    (parse-notebook nat_num log perf script_jobs script-distinct (λ j i. i) script-IsLogged).4

curve-scaling_example :
    (r1 r2 r4 r8 r16 : ℕ) × (c : Curve ℕ) × (curve nat_num exact (through_json figures.scaling)
      ≡ ok c)
    × Shows nat_num r1 r2 r4 r8 r16 c
    × Row nat_num log perf script_jobs 5000 (r1 ∷ r2 ∷ r4 ∷ r8 ∷ r16 ∷ [])
curve-scaling_example =
    curve-scaling nat_num log perf script_jobs exact exact-IsPyplot figures figures-IsMeasured

-- an insertion with more threads, and then a measured run
abbrev act_log : LogFile
act_log = record {
  name = codes "act-4.log";
  lines =
      codes "hosts: localhost\n"
      ∷ codes "  batch-write-size: 1\n"
      ∷ codes "  batch-read-size: 1\n"
      ∷ codes "  threads: 2,048\n"
      ∷ codes "  async: false\n"
      ∷ codes "hosts: localhost\n"
      ∷ codes "  batch-write-size: 10\n"
      ∷ codes "  batch-read-size: 10\n"
      ∷ codes "  threads: 1,024\n"
      ∷ codes "  async: false\n"
      ∷ codes "hdr: read  2024-05-06T07:08:09Z 60, 1000, 1, 99, 10, 20, 30, 40, 50\n"
      ∷ [];
}

abbrev one_log : Text → List LogFile
one_log dir = act_log ∷ []

abbrev row : List ℕ
row = 166 ∷ 166 ∷ 0 ∷ 0 ∷ 0 ∷ 0 ∷ 0 ∷ 0 ∷ []

abbrev maxima : Dict ℕ (List ℕ)
maxima = (1, row) ∷ (2, row) ∷ (4, row) ∷ (8, row) ∷ (16, row) ∷ []

maxima-max_throughput_dict : max_throughput_dict nat_num one_log ≡ ok maxima
unfolding max_throughput_dict parse_logs search_any first_group int_digits Act.parse slices
    line_indices is_hosts parse_workload is_kept traverse analyze_given_mem_latency_and_batch
    Dict.get Dict.put
maxima-max_throughput_dict = refl

throughput_dict-max_throughput_dict_example :
    (lists rows : List (List ℕ)) × (traverse (core_list nat_num one_log) num_cores_list ≡ ok lists)
    × (throughput_dict maxima ≡ ok (zip mem_latency_list rows))
    × ((i j : ℕ) → cell rows i j ≡ cell lists j i)
throughput_dict-max_throughput_dict_example =
    throughput_dict-max_throughput_dict nat_num one_log maxima maxima-max_throughput_dict
