-- ===== src/Notebooks/Rocksdb/Jobs.antt =====
-- The runs of rocksdb/batch.py that notebooks/rocksdb.ipynb reads.
use cxlkvs.Prelude.{
  ℕ, ◌≡◌, refl, Bool, true, false, not, ◌&&◌, List, [], ◌∷◌, All, In, arith, ◌==◌, nat_eq, text_eq,
  ◌*◌, if◌then◌else◌, inl, inr, Bool-cases,
}
use cxlkvs.Py.Text.{codes}
use cxlkvs.Py.Result.{Result, ok, err}
use cxlkvs.Rocksdb.Batch
use cxlkvs.Rocksdb.Batch.{Job, Step, steps, jobs_of, num_threads_per_core_list}
use cxlkvs.Rocksdb.Parser.JobName.{names_of}
use cxlkvs.Rocksdb.Parser.Lookup.{and_parts}
use cxlkvs.Notebooks.Rocksdb.{num_cores_list, latency_list}

abbrev xor : Bool → Bool → Bool
xor true b = not b
xor false b = b

not-xor : (a b : Bool) → not (xor a b) ≡ true → a ≡ b
not-xor a b h = ground arith

abbrev same_job : Job → Job → Bool
same_job i j =
    i.workload == j.workload
    && (i.num_cores == j.num_cores
        && (i.num_threads == j.num_threads
            && (not (xor i.use_cxl j.use_cxl) && i.latency == j.latency)))

abbrev has_job : Job → List Job → Bool
has_job i [] = false
has_job i (j ∷ js) = if same_job i j then true else has_job i js

abbrev jobs_in : Result (List Step) → List Job
jobs_in (ok ss) = jobs_of ss
jobs_in (err e) = []

-- the runs of the script
abbrev pub script_jobs : List Job
script_jobs = jobs_in (steps Batch.num_cores_list num_threads_per_core_list Batch.latency_list)

same_job_equal : (i j : Job) → same_job i j ≡ true → i ≡ j
same_job_equal i j h =
    let (a, h1) = and_parts (i.workload == j.workload) _ h in
    let (b, h2) = and_parts (i.num_cores == j.num_cores) _ h1 in
    let (c, h3) = and_parts (i.num_threads == j.num_threads) _ h2 in
    let (d, e) = and_parts (not (xor i.use_cxl j.use_cxl)) _ h3 in
    λ k. record {
      workload = (text_eq.equal_iff i.workload j.workload).0 a k;
      num_cores = (nat_eq.equal_iff i.num_cores j.num_cores).0 b k;
      num_threads = (nat_eq.equal_iff i.num_threads j.num_threads).0 c k;
      use_cxl = not-xor i.use_cxl j.use_cxl d k;
      latency = (nat_eq.equal_iff i.latency j.latency).0 e k;
    }

In-has_job : (i : Job) (js : List Job) → has_job i js ≡ true → In i js
In-has_job i [] h = cc h
In-has_job i (j ∷ js) h = elim (Bool-cases (same_job i j)) [
  | inl e ↦ inl (same_job_equal i j e)
  | inr e ↦ inr (In-has_job i js (rw e at h))
]

-- a run of the first part, on this number of cores
abbrev pub read_only_job : ℕ → Job
read_only_job num_cores = record {
  workload = codes "readrandom";
  num_cores = num_cores;
  num_threads = 16 * num_cores;
  use_cxl = false;
  latency = 0;
}

-- the run of the second part that the latencies are read from
abbrev pub mixed_job : ℕ → Job
mixed_job latency = record {
  workload = codes "readrandomwriterandom";
  num_cores = 16;
  num_threads = 2048;
  use_cxl = not (latency == 0);
  latency = if latency == 500 then 0 else latency;
}

pub read_only_jobs : All (λ c. In (read_only_job c) script_jobs) num_cores_list
unfolding steps
read_only_jobs = (
  In-has_job (read_only_job 1) script_jobs refl,
  (
    In-has_job (read_only_job 2) script_jobs refl,
    (
      In-has_job (read_only_job 4) script_jobs refl,
      (
        In-has_job (read_only_job 8) script_jobs refl,
        (In-has_job (read_only_job 16) script_jobs refl, tt),
      ),
    ),
  ),
)

pub mixed_jobs :
    All (λ l. In (mixed_job l) script_jobs × ((names_of (mixed_job l)).latency ≡ l)) latency_list
unfolding steps names_of
mixed_jobs = (
  (In-has_job (mixed_job 0) script_jobs refl, refl),
  (
    (In-has_job (mixed_job 500) script_jobs refl, refl),
    (
      (In-has_job (mixed_job 1000) script_jobs refl, refl),
      (
        (In-has_job (mixed_job 2000) script_jobs refl, refl),
        (
          (In-has_job (mixed_job 3000) script_jobs refl, refl),
          (
            (In-has_job (mixed_job 4000) script_jobs refl, refl),
            (
              (In-has_job (mixed_job 5000) script_jobs refl, refl),
              ((In-has_job (mixed_job 10000) script_jobs refl, refl), tt),
            ),
          ),
        ),
      ),
    ),
  ),
)
