-- ===== src/Notebooks/Aerospike/Mixed/Points.antt =====
-- The runs that the cells on reads and writes of notebooks/aerospike.ipynb draw.
use cxlkvs.Prelude.{ℕ, ◌≡◌, true, some, List, [], ◌∷◌, ◌++◌, All, map, nat_eq, if◌then◌else◌, ◌==◌}
use cxlkvs.Py.Text.{Text, codes}
use cxlkvs.Py.Decimal.{decimal}
use cxlkvs.Py.Num.{Num}
use cxlkvs.Py.Result.{ok, bind_ok, ok_injective}
use cxlkvs.Py.Dict
use cxlkvs.Py.Dict.{Dict}
use cxlkvs.Aerospike.Parser.Ops.{OpStats}
use cxlkvs.Aerospike.Analyzer.{
  Entry, LogFile, LogDict, Summary, entries_at, runs_of_batch, throughput_of, of_int, parse_logs,
  analyze_given_mem_latency_and_batch,
}
use cxlkvs.Aerospike.Analyzer.Filed.{filed}
use cxlkvs.Aerospike.Analyzer.Kept.{
  IsKept, AllKept, parse_logs-filed, filed-AllKept, put-AllKept, filed-cons,
}
use cxlkvs.Aerospike.Analyzer.Last.{any_at, IsLast}
use cxlkvs.Notebooks.Aerospike.{batch, dram_latency_list, cxl_latency_list, update, load_data}

update-AllKept : (a b : LogDict) → AllKept a → All IsKept (filed b) → AllKept (update a b)
unfolding update
update-AllKept a [] h k = h
update-AllKept a ((j, es) ∷ b) h k =
    let (x, y) = filed-cons j es b k in
    update-AllKept (Dict.put j es a) b (put-AllKept j es a x h) y

pub load_data-AllKept :
    (glob : Text → List LogFile) (d c : Text) (log_data : LogDict)
    → load_data glob d c ≡ ok log_data
    → AllKept log_data
unfolding load_data
load_data-AllKept glob d c log_data e =
    let (x, (e1, e2)) = bind_ok (parse_logs (glob d) dram_latency_list) _ log_data e in
    let (y, (e3, e4)) = bind_ok (parse_logs (glob c) cxl_latency_list) _ log_data e2 in
    rw (← ok_injective e4) (
      update-AllKept x y (filed-AllKept x (parse_logs-filed (glob d) dram_latency_list x e1))
        (parse_logs-filed (glob c) cxl_latency_list y e3))

-- the runs with batches of 10 at a latency
abbrev pub runs_at : LogDict → ℕ → List Entry
runs_at log_data lat = runs_of_batch batch (entries_at lat log_data)

module _ (num : Num) where
  open num use {F, of_nat, div}

  -- What is drawn for a latency: the last of its runs with 512 threads of both kinds, what that run
  -- reads, and its throughput.
  pub record IsPoint (log_data : LogDict) (lat : ℕ) (q : Entry × OpStats × F) : Type 0 where
    pub last : IsLast 512 512 (runs_at log_data lat) q.0
    pub reads : q.0.workload.read ≡ some q.1
    pub measured : throughput_of num q.0 ≡ ok q.2

  -- A latency where the analysis returns and a run has 512 threads of both kinds.
  abbrev pub IsAnalyzed : LogDict → ℕ → Type 0
  IsAnalyzed log_data lat =
      ((s : Summary num) × (analyze_given_mem_latency_and_batch num log_data lat batch ≡ ok s))
      × (any_at 512 512 (runs_at log_data lat) ≡ true)

  -- a percentile of the reads of a point
  abbrev pub read_percentile : ℕ → Entry × OpStats × F → F
  read_percentile p q =
      of_int num
        (if p == 50 then q.1.latency_p50 else if p == 90 then q.1.latency_p90 else q.1.latency_p99)

  -- the bars of a percentile
  abbrev pub read_bar : List (Entry × OpStats × F) → ℕ → Text × List F
  read_bar qs p = (codes "P" ++ decimal p, map (λ q. div (read_percentile p q) (of_nat batch)) qs)
