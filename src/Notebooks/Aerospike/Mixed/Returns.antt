-- ===== src/Notebooks/Aerospike/Mixed/Returns.antt =====
-- What the cells on reads and writes of notebooks/aerospike.ipynb draw.
use cxlkvs.Prelude.{
  ℕ, ◌≡◌, ◌∙◌, refl, ap, true, none, some, List, [], ◌∷◌, All, All-In, map, length, nat_eq, arith,
  suc,
}
use cxlkvs.Py.Text.{Text}
use cxlkvs.Py.Num.{Num, IsOrdered}
use cxlkvs.Py.Result.{ok, traverse-Pointwise, Pointwise}
use cxlkvs.Py.Dict
use cxlkvs.Py.Dict.{Dict}
use cxlkvs.Aerospike.Parser.Ops.{OpStats}
use cxlkvs.Aerospike.Analyzer.{
  Entry, LogFile, LogDict, Summary, entries_at, analyze_given_mem_latency_and_batch,
}
use cxlkvs.Aerospike.Analyzer.Tables.{analyze-Tells}
use cxlkvs.Aerospike.Analyzer.Kept.{IsKept, AllKept, runs_of_batch-IsKept, IsKept-read}
use cxlkvs.Aerospike.Analyzer.Last.{
  any_at, any_at-IsLast, IsLast-measured, IsLast-last_run, IsLast-In,
}
use cxlkvs.Notebooks.Plot.Bars.{Pyplot, IsPyplot, throughput_bars}
use cxlkvs.Notebooks.Plot.Bars.Values.{plot_throughputs-throughput_bars, plot_latencies-bars_of}
use cxlkvs.Notebooks.Aerospike.{batch, mem_latency_list, load_data}
use cxlkvs.Notebooks.Aerospike.Mixed.{
  dram_log_dir, cxl_log_dir, op_latency, Point, point_at, read_latency, mixed_cells,
}
use cxlkvs.Notebooks.Aerospike.Mixed.Points.{
  load_data-AllKept, runs_at, IsPoint, IsAnalyzed, read_percentile, read_bar,
}
use cxlkvs.Notebooks.Aerospike.Mixed.Drawn.{at_threads-get, plot_all_throughputs_ok}

module _ (num : Num) (one_decimal : num.F → Text) (plt : Pyplot num.F) (draws : IsPyplot plt) where
  open num use {F, of_nat, div}

  abbrev Found : LogDict → ℕ → Point num one_decimal plt → Type 0
  Found log_data lat pt =
      (q : Entry × OpStats × F) × IsPoint num log_data lat q
      × (pt.throughput ≡ q.2)
      × (pt.rd_latency ≡ some q.1)

  point_at-Found :
      IsOrdered num
      → (log_data : LogDict) (lat : ℕ) (s : Summary num) → AllKept log_data
      → analyze_given_mem_latency_and_batch num log_data lat batch ≡ ok s
      → any_at 512 512 (runs_at log_data lat) ≡ true
      → (pt : Point num one_decimal plt) × (point_at num one_decimal plt log_data lat ≡ ok pt)
        × Found log_data lat pt
  unfolding point_at Dict.get_nested Dict.get
  point_at-Found laws log_data lat s k e h =
      let (ts, tells) = analyze-Tells num laws log_data lat batch s e in
      let (d, l) = any_at-IsLast 512 512 (runs_at log_data lat) h in
      let (t, f) = IsLast-measured 512 512 num (runs_at log_data lat) d ts l tells.measured in
      let (o, r) = IsKept-read d (
        All-In IsKept d (runs_at log_data lat)
          (runs_of_batch-IsKept batch (entries_at lat log_data) (k lat))
          (IsLast-In 512 512 (runs_at log_data lat) d l)) in
      let th =
        tells.throughputs 512 512
        ∙ IsLast-last_run 512 512 num (λ x u. u) (runs_at log_data lat) d t ts none l f
            tells.measured in
      let rd =
        tells.read_latencies 512 512
        ∙ IsLast-last_run 512 512 num (λ x u. x.workload.read) (runs_at log_data lat) d t ts none l
            f tells.measured in
      let wr =
        tells.write_latencies 512 512
        ∙ IsLast-last_run 512 512 num (λ x u. x.workload.write) (runs_at log_data lat) d t ts none l
            f tells.measured in
      let (row, (row_there, rest)) = Dict.get-or_empty 512 512 t s.throughput_dict th in
      let (drawn, p) =
        plot_all_throughputs_ok num one_decimal plt draws 512 row s.throughput_dict row_there in
      (
        record { throughput = t; rd_latency = d.workload.read; wr_latency = d.workload.write },
        rw
            (
              e,
              p,
              at_threads-get t s.throughput_dict th,
              at_threads-get d.workload.read s.rd_latency_dict rd,
              at_threads-get d.workload.write s.wr_latency_dict wr,
            )
            refl,
        ((d, o, t), record { last = l; reads = r; measured = f }, refl, r),
      )

  points_Found :
      IsOrdered num
      → (log_data : LogDict) (lats : List ℕ) → AllKept log_data
      → All (IsAnalyzed num log_data) lats
      → All
          (λ lat.
            (pt : Point num one_decimal plt) × (point_at num one_decimal plt log_data lat ≡ ok pt)
            × Found log_data lat pt)
          lats
  points_Found laws log_data [] k h = tt
  points_Found laws log_data (lat ∷ lats) k h =
      let ((s, e), any) = h.0 in
      (point_at-Found laws log_data lat s k e any, points_Found laws log_data lats k h.1)

  collected :
      (log_data : LogDict) (lats : List ℕ) (pts : List (Point num one_decimal plt))
      → Pointwise (Found log_data) lats pts
      → (qs : List (Entry × OpStats × F)) × Pointwise (IsPoint num log_data) lats qs
        × (map (λ p. p.throughput) pts ≡ map (λ q. q.2) qs)
        × (map (λ p. p.rd_latency) pts ≡ map (λ q. some q.1) qs)
        × (length lats ≡ length qs)
  collected log_data [] [] h = ([], tt, refl, refl, refl)
  collected log_data (lat ∷ lats) (pt ∷ pts) h =
      let (q, is, t, r) = h.0 in
      let (qs, all, ts, rs, n) = collected log_data lats pts h.1 in
      (q ∷ qs, (is, all), rw (t, ts) refl, rw (r, rs) refl, ap suc n)
  collected log_data [] (pt ∷ pts) h = absurd h
  collected log_data (lat ∷ lats) [] h = absurd h

  percentiles :
      All
        (λ p.
          (q : Entry × OpStats × F)
          → read_latency num one_decimal plt p (some q.1) ≡ ok (read_percentile num p q))
        (50 ∷ 90 ∷ 99 ∷ [])
  unfolding op_latency
  percentiles = ((λ q. refl), ((λ q. refl), ((λ q. refl), tt)))

  -- Where the logs are parsed, the analysis of each latency returns and has a run with 512 threads of
  -- the server and of the client, and matplotlib draws what has as many values as positions: the cells
  -- return. For each latency they draw the throughput and the latencies of the reads of the last such
  -- run, which has an operation of reading.
  pub mixed_cells-IsPoint :
      IsOrdered num
      → (glob : Text → List LogFile) (log_data : LogDict)
      → load_data glob dram_log_dir cxl_log_dir ≡ ok log_data
      → All (IsAnalyzed num log_data) mem_latency_list
      → (qs : List (Entry × OpStats × F)) × Pointwise (IsPoint num log_data) mem_latency_list qs
        × (mixed_cells num one_decimal plt glob
            ≡ ok (
              throughput_bars num one_decimal plt mem_latency_list (map (λ q. q.2) qs),
              map (read_bar num qs) (50 ∷ 90 ∷ 99 ∷ []),
            ))
  unfolding mixed_cells
  mixed_cells-IsPoint laws glob log_data e h =
      let k = load_data-AllKept glob dram_log_dir cxl_log_dir log_data e in
      let (pts, f, found) =
        traverse-Pointwise (Found log_data) (point_at num one_decimal plt log_data) mem_latency_list
          (points_Found laws log_data mem_latency_list k h) in
      let (qs, all, ts, rs, n) = collected log_data mem_latency_list pts found in
      let drawn =
        plot_throughputs-throughput_bars num one_decimal plt draws mem_latency_list
          (map (λ q. q.2) qs) in
      let bars =
        plot_latencies-bars_of num one_decimal plt draws (read_latency num one_decimal plt)
          (of_nat batch) (λ (q : Entry × OpStats × F). some q.1) (read_percentile num)
          mem_latency_list qs 50 (90 ∷ 99 ∷ []) n percentiles (omega arith) in
      (qs, all, rw (e, f, ts, rs, drawn, bars) refl)
