-- ===== src/Notebooks/Aerospike/Tests.antt =====
-- The cells on reads and writes of notebooks/aerospike.ipynb, from two logs.
use cxlkvs.Prelude.{
  ℕ, zero, suc, ◌≡◌, refl, List, [], ◌∷◌, ◌++◌, All, map, ◌==◌, text_eq, if◌then◌else◌,
}
use cxlkvs.Py.Text.{Text, codes, int_digits}
use cxlkvs.Py.Decimal.{decimal}
use cxlkvs.Py.Num.{nat_num, nat_num-IsOrdered}
use cxlkvs.Py.Result.{ok, err, Pointwise}
use cxlkvs.Py.Dict
use cxlkvs.Py.Regex.{search_any}
use cxlkvs.Segments.{slices, line_indices}
use cxlkvs.Aerospike.Parser as Act
use cxlkvs.Aerospike.Parser.{is_hosts}
use cxlkvs.Aerospike.Parser.Items.{first_group}
use cxlkvs.Aerospike.Parser.Ops.{OpStats, parse_workload}
use cxlkvs.Aerospike.Analyzer.{
  Entry, LogFile, LogDict, parse_logs, is_kept, analyze_given_mem_latency_and_batch,
}
use cxlkvs.Notebooks.Plot.Bars.{throughput_bars}
use cxlkvs.Notebooks.Plot.Bars.Exact.{exact, exact-IsPyplot}
use cxlkvs.Notebooks.Aerospike.{mem_latency_list, load_data, update}
use cxlkvs.Notebooks.Aerospike.Mixed.{dram_log_dir, cxl_log_dir, mixed_cells}
use cxlkvs.Notebooks.Aerospike.Mixed.Points.{IsPoint, IsAnalyzed, read_bar}
use cxlkvs.Notebooks.Aerospike.Mixed.Returns.{mixed_cells-IsPoint}

-- an insertion with more threads, and then a measured run
abbrev runs : List Text
runs =
    codes "hosts: localhost\n"
    ∷ codes "  batch-write-size: 1\n"
    ∷ codes "  batch-read-size: 1\n"
    ∷ codes "  threads: 2,048\n"
    ∷ codes "  async: false\n"
    ∷ codes "hosts: localhost\n"
    ∷ codes "  batch-write-size: 10\n"
    ∷ codes "  batch-read-size: 10\n"
    ∷ codes "  threads: 512\n"
    ∷ codes "  async: false\n"
    ∷ codes "hdr: read  2024-05-06T07:08:09Z 60, 1000, 1, 99, 10, 20, 30, 40, 50\n"
    ∷ codes "hdr: write  2024-05-06T07:08:09Z 60, 500, 1, 99, 15, 25, 35, 45, 55\n"
    ∷ []

-- for a number of latencies
abbrev log : ℕ → List Text
log zero = []
log (suc n) = runs ++ log n

abbrev glob : Text → List LogFile
glob dir =
    (record { name = codes "act-512.log"; lines = log (if dir == dram_log_dir then 1 else 7) }) ∷ []

abbrev log_data : LogDict
log_data = elim (load_data glob dram_log_dir cxl_log_dir) [ ok d ↦ d | err e ↦ [] ]

log_data_read : load_data glob dram_log_dir cxl_log_dir ≡ ok log_data
unfolding load_data parse_logs search_any first_group int_digits Act.parse slices line_indices
    is_hosts parse_workload is_kept Dict.get Dict.put update
log_data_read = refl

analyzed : All (IsAnalyzed nat_num log_data) mem_latency_list
unfolding load_data parse_logs search_any first_group int_digits Act.parse slices line_indices
    is_hosts parse_workload is_kept Dict.get Dict.put update analyze_given_mem_latency_and_batch
analyzed = (
  ((_, refl), refl),
  (
    ((_, refl), refl),
    (
      ((_, refl), refl),
      (
        ((_, refl), refl),
        (((_, refl), refl), (((_, refl), refl), (((_, refl), refl), (((_, refl), refl), tt)))),
      ),
    ),
  ),
)

mixed_cells-IsPoint_example :
    (qs : List (Entry × OpStats × ℕ)) × Pointwise (IsPoint nat_num log_data) mem_latency_list qs
    × (mixed_cells nat_num decimal exact glob
        ≡ ok (
          throughput_bars nat_num decimal exact mem_latency_list (map (λ q. q.2) qs),
          map (read_bar nat_num qs) (50 ∷ 90 ∷ 99 ∷ []),
        ))
mixed_cells-IsPoint_example =
    mixed_cells-IsPoint nat_num decimal exact exact-IsPyplot nat_num-IsOrdered glob log_data
      log_data_read analyzed
