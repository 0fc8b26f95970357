-- ===== src/Notebooks/Rocksdb/Measured.antt =====
-- rocksdb/batch.py measures whatever notebooks/rocksdb.ipynb reads.
use cxlkvs.Prelude.{
  ℕ, ◌≡◌, refl, none, true, List, [], ◌∷◌, All, All_every, In, map, arith, nat_eq, text_eq,
}
use cxlkvs.Py.Text.{Text, codes}
use cxlkvs.Py.Num.{Num}
use cxlkvs.Py.Result.{
  ok, traverse, traverse-Pointwise, traverse-map, traverse_from-Pointwise, Pointwise,
}
use cxlkvs.Rocksdb.Batch.{Job}
use cxlkvs.Rocksdb.Parser.{Perf, Stats, parse, get_max_throughput}
use cxlkvs.Rocksdb.Parser.JobName.{names_of}
use cxlkvs.Rocksdb.Parser.Suffix.{All-map}
use cxlkvs.Rocksdb.Parser.Lookup.{distinct, dir_of, IsLogged, get_perf-lookup, add_dirs-collect}
use cxlkvs.Rocksdb.Parser.Best.{IsBest, stats, run-found, get_max_throughput-IsBest}
use cxlkvs.Notebooks.Rows.Zip.{zip, add_rows-zip}
use cxlkvs.Notebooks.Rocksdb.Jobs.{
  script_jobs, read_only_job, read_only_jobs, mixed_job, mixed_jobs,
}
use cxlkvs.Notebooks.Rocksdb.{
  num_cores_list, latency_list, max_throughputs, throughput_dict, op_latencies, Figures, notebook,
}

module _ (num : Num) (logs : Job → List Text) (perf : Job → Perf num) (js : List Job) where
  -- the fastest run for each latency
  abbrev pub Fastest : Text → ℕ → List ℕ → Type 0
  Fastest test num_cores rs = Pointwise (IsBest num logs perf js test num_cores) latency_list rs

  -- a row for each latency, and in it the fastest run on each number of cores
  abbrev pub Row : ℕ → List ℕ → Type 0
  Row latency rs =
      Pointwise (λ num_cores r. IsBest num logs perf js (codes "readrandom") num_cores latency r)
        num_cores_list rs

  -- What the notebook shows: the fastest runs for each latency, on one core and on 16, the rows for the
  -- numbers of cores, and the figures of the runs with 2048 threads.
  pub record IsMeasured (f : Figures num) : Type 0 where
    pub single_core : Fastest (codes "readrandom") 1 f.single_core
    pub scaling :
        (rows : List (List ℕ)) × (f.scaling ≡ zip latency_list rows)
        × Pointwise Row latency_list rows
    pub all_cores : Fastest (codes "readrandom") 16 f.all_cores
    pub mixed : Fastest (codes "readrandomwriterandom") 16 f.mixed
    pub latencies : f.latencies ≡ map (λ latency. perf (mixed_job latency)) latency_list

module _ (num : Num) (logs : Job → List Text) (perf : Job → Perf num) (js : List Job)
    (h : distinct (map names_of js) ≡ true)
    (all_there : (j : Job) → In j script_jobs → In j js) where
  max_throughputs-Fastest :
      (i : Job)
      → In i js
      → (rs : List ℕ) × (max_throughputs num (stats num logs perf js) i.workload i.num_cores
          ≡ ok rs)
        × Fastest num logs perf js i.workload i.num_cores rs
  unfolding max_throughputs names_of
  max_throughputs-Fastest i there =
      traverse-Pointwise (IsBest num logs perf js i.workload i.num_cores) _ latency_list (
        All_every _ latency_list λ latency.
          get_max_throughput-IsBest num logs perf js h i.workload i.num_cores latency i there refl
            refl)

  scaling-Row :
      (latency : ℕ)
      → (rs : List ℕ) × (traverse
            (λ num_cores.
              get_max_throughput num
                (stats num logs perf js)
                (codes "readrandom")
                num_cores
                latency)
            num_cores_list
          ≡ ok rs)
        × Row num logs perf js latency rs
  unfolding names_of
  scaling-Row latency =
      traverse-Pointwise
        (λ num_cores r. IsBest num logs perf js (codes "readrandom") num_cores latency r) _
        num_cores_list
        (All-map
          (λ c there.
            get_max_throughput-IsBest num logs perf js h (codes "readrandom") c latency
              (read_only_job c) (all_there (read_only_job c) there) refl refl)
          num_cores_list read_only_jobs)

  throughput_dict-Row :
      (rows : List (List ℕ)) × (throughput_dict num (stats num logs perf js)
        ≡ ok (zip latency_list rows))
      × Pointwise (Row num logs perf js) latency_list rows
  unfolding throughput_dict
  throughput_dict-Row =
      let value = λ (i lat num_cores : ℕ).
        get_max_throughput num (stats num logs perf js) (codes "readrandom") num_cores lat in
      let row = λ (j lat : ℕ). traverse (value j lat) num_cores_list in
      let (rows, e, p) = traverse_from-Pointwise (Row num logs perf js) row 0 latency_list (
        All_every
          (λ lat. (j : ℕ) → (rs : List ℕ) × (row j lat ≡ ok rs) × Row num logs perf js lat rs)
          latency_list λ lat j. scaling-Row lat) in
      (rows, add_rows-zip value 1 (2 ∷ 4 ∷ 8 ∷ 16 ∷ []) latency_list rows (ground arith) e, p)

  -- the figures of the run itself
  op_latencies-perf :
      op_latencies num (stats num logs perf js)
      ≡ ok (map (λ latency. perf (mixed_job latency)) latency_list)
  unfolding op_latencies names_of
  op_latencies-perf =
      traverse-map _ (λ latency. perf (mixed_job latency)) latency_list
        (All-map
          (λ (latency : ℕ)
              (here : In (mixed_job latency) script_jobs
                × ((names_of (mixed_job latency)).latency ≡ latency)).
            let j = mixed_job latency in
            rw here.1 at (
              get_perf-lookup num (names_of j) (perf j) (stats num logs perf js) (
                run-found num logs perf js h j.workload j.num_cores latency j
                  (all_there j here.0))))
          latency_list mixed_jobs)

  notebook-IsMeasured :
      (f : Figures num) × (notebook num (stats num logs perf js) ≡ ok f)
      × IsMeasured num logs perf js f
  unfolding notebook
  notebook-IsMeasured =
      let (one, e1, p1) =
        max_throughputs-Fastest (read_only_job 1) (all_there (read_only_job 1) read_only_jobs.0) in
      let (rows, e2, p2) = throughput_dict-Row in
      let (many, e3, p3) =
        max_throughputs-Fastest (read_only_job 16)
          (all_there (read_only_job 16) read_only_jobs.1.1.1.1.0) in
      let (mix, e4, p4) =
        max_throughputs-Fastest (mixed_job 0) (all_there (mixed_job 0) mixed_jobs.0.0) in
      (
        record {
          single_core = one;
          scaling = zip latency_list rows;
          all_cores = many;
          mixed = mix;
          latencies = map (λ latency. perf (mixed_job latency)) latency_list;
        },
        rw (e1, e2, e3, e4, op_latencies-perf),
        record {
          single_core = p1;
          scaling = (rows, refl, p2);
          all_cores = p3;
          mixed = p4;
          latencies = refl;
        },
      )

  -- Where every run of rocksdb/batch.py has left its log directory, with a log that is parsed, the parser and the
  -- notebook both return, whatever the order of the directories.
  pub parse-notebook :
      All (IsLogged num logs perf) js
      → (st : Stats num) × (parse num (map (dir_of num logs perf) js) ≡ ok st)
        × (f : Figures num) × (notebook num st ≡ ok f)
        × IsMeasured num logs perf js f
  unfolding parse
  parse-notebook k =
      let (f, e, p) = notebook-IsMeasured in
      (stats num logs perf js, add_dirs-collect num logs perf js none [] k, f, e, p)
