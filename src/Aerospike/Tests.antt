-- ===== src/Aerospike/Tests.antt =====
-- The theorems about the Aerospike scripts at concrete inputs.
use cxlkvs.Prelude.{◌==◌, nat_eq, ℕ, ◌≡◌, ◌↔◌, refl, none, some, List, [], ◌∷◌, ◌++◌}
use cxlkvs.Prelude.Int.{pos}
use cxlkvs.Py.Result.{ok}
use cxlkvs.Py.Dict
use cxlkvs.Py.Regex.{search_any}
use cxlkvs.Py.Text.{int_digits, Text, codes}
use cxlkvs.Segments.{line_indices, slices}
use cxlkvs.Segments.Blocks.{blocks}
use cxlkvs.Aerospike.Parser.{is_hosts, parse}
use cxlkvs.Aerospike.Parser.Items.{first_group, int_pattern, convert_int, parse_items}
use cxlkvs.Aerospike.Parser.Items.Outcome.{matches, outcome, parse_items-outcome}
use cxlkvs.Aerospike.Parser.Ops.{OpStats, Workload, parse_workload}
use cxlkvs.Aerospike.Analyzer.{
  is_kept, LogFile, parse_logs, LogDict, Summary, entries_at, runs_of_batch,
  analyze_given_mem_latency_and_batch,
}
use cxlkvs.Aerospike.Analyzer.Filed.{tally, filed, kept, parse_logs-kept}
use cxlkvs.Aerospike.Analyzer.Tables.{Tells, nothing, analyze-Tells}
use cxlkvs.Py.Num.{nat_num, nat_num-IsOrdered}
use cxlkvs.Aerospike.Parser.Blockwise.{Reads, parse-Reads}

abbrev log : List Text
log =
    codes "hosts: localhost\n"
    ∷ codes "  batch-write-size: 10\n"
    ∷ codes "  batch-read-size: 10\n"
    ∷ codes "  threads: 1,024\n"
    ∷ codes "  async: false\n"
    ∷ codes "hdr: read  2024-05-06T07:08:09Z 60, 1000, 1, 99, 10, 20, 30, 40, 50\n"
    ∷ []

abbrev stats : OpStats
stats = record {
  timestamp = record { year = 2024; month = 5; day = 6; hour = 7; minute = 8; second = 9 };
  runtime = pos 60;
  num_ops = pos 1000;
  latency_min = pos 1;
  latency_max = pos 99;
  latency_p50 = pos 10;
  latency_p90 = pos 20;
  latency_p99 = pos 30;
  latency_p999 = pos 40;
  latency_p9999 = pos 50;
}

abbrev workload : Workload
workload = record {
  batch_write = 10;
  batch_read = 10;
  client_threads = 1024;
  is_async = codes "false";
  write = none;
  read = some stats;
}

parse-log : parse (log ++ log) ≡ ok (workload ∷ workload ∷ [])
unfolding parse line_indices slices is_hosts parse_workload
parse-log = refl

parse-Reads_example :
    (parse (log ++ log) ≡ ok (workload ∷ workload ∷ []))
    ↔ Reads (blocks is_hosts (log ++ log)) (workload ∷ workload ∷ [])
parse-Reads_example = parse-Reads (log ++ log) (workload ∷ workload ∷ [])

parse_items-outcome_example :
    parse_items (log ++ log) (int_pattern "threads") convert_int
    ≡ outcome convert_int (matches (int_pattern "threads") (log ++ log))
parse_items-outcome_example = parse_items-outcome (log ++ log) (int_pattern "threads") convert_int

abbrev runs : LogDict
runs = (500, record { workload = workload; server_threads = 4 } ∷ []) ∷ []

abbrev summary : Summary nat_num
summary = record {
  max_throughput = 166;
  max_server_threads = 4;
  max_client_threads = 1024;
  throughput_dict = (1024, (4, 166) ∷ []) ∷ [];
  rd_latency_dict = (1024, (4, some stats) ∷ []) ∷ [];
  wr_latency_dict = (1024, (4, none) ∷ []) ∷ [];
}

analyze-Tells_example :
    (ts : List ℕ) × Tells nat_num
      (runs_of_batch 10 (entries_at 500 runs))
      ts
      (nothing nat_num)
      summary
unfolding analyze_given_mem_latency_and_batch Dict.get Dict.put_nested Dict.put
analyze-Tells_example = analyze-Tells nat_num nat_num-IsOrdered runs 500 10 summary refl

-- an insertion with more threads, and then a measured run
abbrev file : LogFile
file = record {
  name = codes "act-4.log";
  lines =
      codes "hosts: localhost\n"
      ∷ codes "  batch-write-size: 1\n"
      ∷ codes "  batch-read-size: 1\n"
      ∷ codes "  threads: 2,048\n"
      ∷ codes "  async: false\n"
      ∷ log;
}

parse_logs-kept_example :
    tally (λ d. d.server_threads == 4) (filed runs)
    ≡ tally (λ d. d.server_threads == 4) (kept (file ∷ []))
unfolding parse_logs search_any first_group int_digits parse slices line_indices is_hosts
    parse_workload is_kept Dict.put Dict.get
parse_logs-kept_example =
    parse_logs-kept (λ d. d.server_threads == 4) (file ∷ []) (500 ∷ 1000 ∷ []) runs refl
