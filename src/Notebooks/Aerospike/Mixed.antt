-- ===== src/Notebooks/Aerospike/Mixed.antt =====
-- notebooks/aerospike.ipynb: the runs with reads and writes, on 8 cores.
pub mod Points
pub mod Drawn
pub mod Returns
use cxlkvs.Prelude.{
  ℕ, Option, none, some, List, [], ◌∷◌, ◌++◌, map, length, ltb, nat_eq, ◌==◌, if◌then◌else◌,
}
use cxlkvs.Prelude.Int.{ℤ}
use cxlkvs.Py.Text.{Text, codes}
use cxlkvs.Py.Decimal.{decimal}
use cxlkvs.Py.Num.{Num}
use cxlkvs.Py.Result.{Result, ok, err, type_error, key_error, ◌>>=◌, traverse}
use cxlkvs.Py.Sort.{sort}
use cxlkvs.Py.Dict
use cxlkvs.Py.Dict.{Dict}
use cxlkvs.Aerospike.Parser.Ops.{OpStats}
use cxlkvs.Aerospike.Analyzer.{LogFile, LogDict, Table, of_int, analyze_given_mem_latency_and_batch}
use cxlkvs.Notebooks.Rows.{item}
use cxlkvs.Notebooks.Plot.Bars.{Pyplot, plot_throughputs, plot_latencies}
use cxlkvs.Notebooks.Aerospike.{batch, mem_latency_list, load_data}

abbrev pub dram_log_dir : Text
dram_log_dir = codes "run-act-rw-dram-8core-log"

abbrev pub cxl_log_dir : Text
cxl_log_dir = codes "run-act-rw-cxl-8core-log"

abbrev pub server_threads : ℕ
server_threads = 512

abbrev pub client_threads : ℕ
client_threads = 512

abbrev pub keys {ℓ} : {V : Type ℓ} → Dict ℕ V → List ℕ
keys d = map (λ entry. entry.0) d

-- `table[client_threads][server_threads]`
unfoldable pub at_threads : {V : Type 0} → Table V → Result V
at_threads table = do row ← Dict.index client_threads table; Dict.index server_threads row

-- `opl['latency_p%d' % p]`, where `opl` is `None` without the operation
unfoldable pub op_latency : ℕ → Option OpStats → Result ℤ
op_latency p none = err type_error
op_latency p (some o) =
    if p == 50
    then ok o.latency_p50
    else if p == 90
    then ok o.latency_p90
    else if p == 99
    then ok o.latency_p99
    else if p == 999
    then ok o.latency_p999
    else if p == 9999
    then ok o.latency_p9999
    else err key_error

module _ (num : Num) (one_decimal : num.F → Text) (plt : Pyplot num.F) where
  open num use {F, of_nat}

  abbrev or_zero : Option F → F
  or_zero none = of_nat 0
  or_zero (some t) = t

  -- the inner loop of `plot_all_throughputs`
  unfoldable pub heights : Dict ℕ F → List ℕ → List F
  heights row [] = []
  heights row (s_th ∷ rest) = or_zero (Dict.get s_th row) ∷ heights row rest

  -- the outer loop
  unfoldable pub client_bars : List ℕ → List ℕ → Table F → Result (List (Text × List F))
  unfolding heights
  client_bars server_threads_list [] d = ok []
  client_bars server_threads_list (c_th ∷ rest) d = do
    row ← Dict.index c_th d
    let y = heights row server_threads_list
    drawn ← plt.bar (length server_threads_list) y
    bars ← client_bars server_threads_list rest d
    ok ((decimal c_th ++ codes " clients", y) ∷ bars)

  -- the numbers of server threads, and the bars of each number of client threads
  unfoldable pub plot_all_throughputs : Table F → Result (List ℕ × List (Text × List F))
  unfolding client_bars item
  plot_all_throughputs d = do
    let client_threads_list = sort ltb (keys d)
    c_th ← item client_threads_list 0
    row ← Dict.index c_th d
    let server_threads_list = sort ltb (keys row)
    bars ← client_bars server_threads_list client_threads_list d
    ok (server_threads_list, bars)

  -- What the loop appends for a latency.
  pub record Point : Type 0 where
    pub throughput : F
    pub rd_latency : Option OpStats
    pub wr_latency : Option OpStats

  -- the body of the loop; BATCH is 10 here too
  unfoldable pub point_at : LogDict → ℕ → Result Point
  unfolding plot_all_throughputs at_threads
  point_at log_data mem_latency = do
    s ← analyze_given_mem_latency_and_batch num log_data mem_latency batch
    drawn ← plot_all_throughputs s.throughput_dict
    t ← at_threads s.throughput_dict
    r ← at_threads s.rd_latency_dict
    w ← at_threads s.wr_latency_dict
    ok (record { throughput = t; rd_latency = r; wr_latency = w })

  abbrev pub read_latency : ℕ → Option OpStats → Result F
  read_latency p opl = do x ← op_latency p opl; ok (of_int num x)

  -- The bars of the throughputs, and those of the latencies of the reads.
  unfoldable pub mixed_cells :
      (Text → List LogFile) → Result (List (Text × F) × List (Text × List F))
  unfolding point_at op_latency
  mixed_cells glob = do
    log_data ← load_data glob dram_log_dir cxl_log_dir
    points ← traverse (point_at log_data) mem_latency_list
    throughputs ←
        plot_throughputs num one_decimal plt mem_latency_list (map (λ p. p.throughput) points)
    latencies ←
        plot_latencies num one_decimal plt read_latency (of_nat batch) mem_latency_list
          (map (λ p. p.rd_latency) points) (50 ∷ 90 ∷ 99 ∷ [])
    ok (throughputs, latencies)
