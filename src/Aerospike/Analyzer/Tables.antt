-- ===== src/Aerospike/Analyzer/Tables.antt =====
-- The summary of the runs at one memory latency: the maximum and the tables.
use cxlkvs.Prelude.{
  ℕ, ◌≡◌, ap, ◌∙◌, ◌⊎◌, inl, inr, refl, true, false, ◌&&◌, Option, some, List, [], ◌∷◌, All, ◌==◌,
  nat_eq, if◌then◌else◌, Bool-cases,
}
use cxlkvs.Py.Result.{ok, Result-cases}
use cxlkvs.Py.Num.{Num, IsOrdered}
use cxlkvs.Py.Dict.{get_nested, put_nested, get_nested-put_nested}
use cxlkvs.Aerospike.Analyzer.{
  Entry, LogDict, entries_at, throughput_of, Summary, add_runs, runs_of_batch,
  analyze_given_mem_latency_and_batch,
}

module _ (num : Num) where
  open num use {F, of_nat, less}

  -- the runs with their throughputs
  abbrev pub Measured : List Entry → List F → Type 0
  Measured [] [] = Unit
  Measured (d ∷ ds) (t ∷ ts) = (throughput_of num d ≡ ok t) × Measured ds ts
  Measured _ _ = ⊥

  -- the last run with these threads, if there is one
  abbrev pub last_run :
      {V : Type 0} → (Entry → F → V) → ℕ → ℕ → List Entry → List F → Option V → Option V
  last_run value c s [] ts found = found
  last_run value c s (d ∷ ds) [] found = found
  last_run value c s (d ∷ ds) (t ∷ ts) found =
      last_run value c s ds ts (
        if d.workload.client_threads == c && d.server_threads == s then some (value d t) else found)

  -- the maximum and its threads are those of one of the runs
  abbrev pub Attains : List Entry → List F → Summary num → Type 0
  Attains [] ts r = ⊥
  Attains (d ∷ ds) [] r = ⊥
  Attains (d ∷ ds) (t ∷ ts) r =
      ((r.max_throughput ≡ t)
        × (r.max_server_threads ≡ d.server_threads)
        × (r.max_client_threads ≡ d.workload.client_threads))
      ⊎ Attains ds ts r

  abbrev pub SameMax : Summary num → Summary num → Type 0
  SameMax r s =
      (r.max_throughput ≡ s.max_throughput)
      × (r.max_server_threads ≡ s.max_server_threads)
      × (r.max_client_threads ≡ s.max_client_threads)

  -- What `r` tells of the runs, after a start from `s`.
  pub record Tells (ds : List Entry) (ts : List F) (s r : Summary num) : Type 0 where
    pub measured : Measured ds ts
    pub above : All (λ t. less r.max_throughput t ≡ false) ts
    pub above_start : less r.max_throughput s.max_throughput ≡ false
    pub attained : SameMax r s ⊎ Attains ds ts r
    pub throughputs :
        (c k : ℕ)
        → get_nested c k r.throughput_dict
          ≡ last_run (λ d t. t) c k ds ts (get_nested c k s.throughput_dict)
    pub read_latencies :
        (c k : ℕ)
        → get_nested c k r.rd_latency_dict
          ≡ last_run (λ d t. d.workload.read) c k ds ts (get_nested c k s.rd_latency_dict)
    pub write_latencies :
        (c k : ℕ)
        → get_nested c k r.wr_latency_dict
          ≡ last_run (λ d t. d.workload.write) c k ds ts (get_nested c k s.wr_latency_dict)

  abbrev after : Entry → F → Summary num → Summary num
  after d t s =
      let is_more = less s.max_throughput t in
      record {
        max_throughput = if is_more then t else s.max_throughput;
        max_server_threads = if is_more then d.server_threads else s.max_server_threads;
        max_client_threads = if is_more then d.workload.client_threads else s.max_client_threads;
        throughput_dict = put_nested d.workload.client_threads d.server_threads t s.throughput_dict;
        rd_latency_dict =
            put_nested d.workload.client_threads d.server_threads d.workload.read s.rd_latency_dict;
        wr_latency_dict =
            put_nested d.workload.client_threads d.server_threads d.workload.write
              s.wr_latency_dict;
      }

  -- the summary before the loop
  abbrev pub nothing : Summary num
  nothing = record {
    max_throughput = of_nat 0;
    max_server_threads = 0;
    max_client_threads = 0;
    throughput_dict = [];
    rd_latency_dict = [];
    wr_latency_dict = [];
  }

  module _ (laws : IsOrdered num) where
    less_asym : (a b : F) → less a b ≡ true → less b a ≡ false
    less_asym a b h = elim (Bool-cases (less b a)) [
      | inr ge ↦ ge
      | inl lt ↦ cc (laws.less_trans a b a h lt, laws.less_irrefl a)
    ]

    -- the greater of the two is above both
    step_above :
        (m t : F)
        → (less (if less m t then t else m) t ≡ false)
          × (less (if less m t then t else m) m ≡ false)
    step_above m t = elim (Bool-cases (less m t)) [
      | inl lt ↦ rw lt (laws.less_irrefl t, less_asym m t lt)
      | inr ge ↦ rw ge (ge, laws.less_irrefl m)
    ]

    step_attained :
        (d : Entry) (t : F) (ds : List Entry) (ts : List F) (s r : Summary num)
        → SameMax r (after d t s) ⊎ Attains ds ts r
        → SameMax r s ⊎ Attains (d ∷ ds) (t ∷ ts) r
    step_attained d t ds ts s r (inr later) = inr (inr later)
    step_attained d t ds ts s r (inl same) = elim (Bool-cases (less s.max_throughput t)) [
      | inl lt ↦ inr (inl (rw lt at same))
      | inr ge ↦ inl (rw ge at same)
    ]

    add_runs-Tells :
        (ds : List Entry) (s r : Summary num)
        → add_runs num ds s ≡ ok r
        → (ts : List F) × Tells ds ts s r
    unfolding add_runs
    add_runs-Tells [] s r e =
        let same : s ≡ r = cc e in
        (
          [],
          rw (← same) (record {
            measured = tt;
            above = tt;
            above_start = laws.less_irrefl s.max_throughput;
            attained = inl (refl, refl, refl);
            throughputs = λ c k. refl;
            read_latencies = λ c k. refl;
            write_latencies = λ c k. refl;
          }),
        )
    add_runs-Tells (d ∷ ds) s r e = elim (Result-cases (throughput_of num d)) [
      | inr (x, f) ↦ cc (rw f at e)
      | inl (t, f) ↦
          let (ts, h) = add_runs-Tells ds (after d t s) r (rw f at e) in
          let c_th = d.workload.client_threads in
          let s_th = d.server_threads in
          let high = step_above s.max_throughput t in
          (
            t ∷ ts,
            record {
              measured = (f, h.measured);
              above = (laws.not_less_trans _ _ t h.above_start high.0, h.above);
              above_start = laws.not_less_trans _ _ s.max_throughput h.above_start high.1;
              attained = step_attained d t ds ts s r h.attained;
              throughputs = λ c k.
                  h.throughputs c k
                  ∙ ap (last_run (λ d t. t) c k ds ts)
                      (get_nested-put_nested c_th c s_th k t s.throughput_dict);
              read_latencies = λ c k.
                  h.read_latencies c k
                  ∙ ap (last_run (λ d t. d.workload.read) c k ds ts)
                      (get_nested-put_nested c_th c s_th k d.workload.read s.rd_latency_dict);
              write_latencies = λ c k.
                  h.write_latencies c k
                  ∙ ap (last_run (λ d t. d.workload.write) c k ds ts)
                      (get_nested-put_nested c_th c s_th k d.workload.write s.wr_latency_dict);
            },
          )
    ]

    -- Where numbers are ordered and the analysis returns, each run of the batch has a throughput. No
    -- throughput and not 0 is above the maximum, which is that of a run whose threads are returned with
    -- it, or else 0 with threads 0. Each table has for two numbers of threads the value of the last run with them, and
    -- no value where there is no such run.
    pub analyze-Tells :
        (log_dict : LogDict) (mem_latency batch : ℕ) (r : Summary num)
        → analyze_given_mem_latency_and_batch num log_dict mem_latency batch ≡ ok r
        → (ts : List F) × Tells (runs_of_batch batch (entries_at mem_latency log_dict)) ts nothing r
    unfolding analyze_given_mem_latency_and_batch
    analyze-Tells log_dict mem_latency batch r e =
        add_runs-Tells (runs_of_batch batch (entries_at mem_latency log_dict)) nothing r e
