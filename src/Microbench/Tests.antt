-- ===== src/Microbench/Tests.antt =====
-- The theorems about the microbenchmark at concrete inputs.
use cxlkvs.Prelude.{In, ℕ, true, ◌≡◌, ◌↔◌, refl, [], ◌∷◌, length, map, arith}
use cxlkvs.Py.Result.{ok, err, value_error, ◌>>=◌}
use cxlkvs.Py.Dict
use cxlkvs.Py.Text.{int_digits, strip, codes, Text}
use cxlkvs.Py.Regex.{search_any}
use cxlkvs.Py.Num.{nat_num}
use cxlkvs.Microbench.Batch.Params.{Params, Ranges, param_rows, write_param_file}
use cxlkvs.Microbench.Batch.Params.Count.{IsChosen, param_rows_iff, length-write_param_file}
use cxlkvs.Microbench.Batch.Output.{parse_output}
use cxlkvs.Microbench.Batch.Output.Printed.{Measured, print_log, IsPrinted}
use cxlkvs.Microbench.Batch.Output.RoundTrip.{run_of, parse_output-print_log}
use cxlkvs.Microbench.Parser.Picks.{Picks, get_perf-Picks}
use cxlkvs.Prelude.Int.{pos}
use cxlkvs.Microbench.Batch.Output.{num, text, Run}
use cxlkvs.Microbench.Parser.{MicrobenchParser, int, is_perf, get_perf, make_parser}
use cxlkvs.Microbench.Parser.Peeks.{make_parser-parse_output}

abbrev ranges : Ranges
ranges = record {
  prefetch_modes = 0 ∷ 1 ∷ [];
  num_chases_list = 10 ∷ 15 ∷ [];
  memory_times = 1 ∷ [];
  io_times_pre = 0 ∷ [];
  io_times_post = 0 ∷ 1000 ∷ [];
  latencies = 500 ∷ [];
  num_threads_list = 32 ∷ 64 ∷ 128 ∷ [];
}

abbrev params : Params
params = record {
  count = 1000;
  num_threads = 64;
  num_xstreams = 1;
  latency = 500;
  num_chases = 15;
  memory_time = 1;
  io_time_pre = 0;
  io_time_post = 1000;
  io_mode = 1;
  prefetch_mode = 1;
}

length-write_param_file_example : length (write_param_file 1000 1 1 ranges) ≡ 24
length-write_param_file_example = length-write_param_file 1000 1 1 ranges

param_rows_iff_example : In params (param_rows 1000 1 1 ranges) ↔ IsChosen 1000 1 1 ranges params
param_rows_iff_example = param_rows_iff 1000 1 1 ranges params

abbrev run_a : Measured
run_a = record {
  noise = codes "file size: 4096\n" ∷ [];
  params = params;
  script = codes "bash set_latency.sh 500\n" ∷ [];
  total = 1000;
  elapsed = codes "0.125";
  throughput = codes "8.0";
  percentiles = record {
    p50 = codes "1.5";
    p90 = codes "2.5";
    p99 = codes "3.0";
    p999 = codes "4.0";
    p9999 = codes "5.0";
    p99999 = codes "6.0";
  };
  mean = codes "1.75";
  peeks = codes "1.0";
}

run_a-IsPrinted : IsPrinted run_a
unfolding search_any
run_a-IsPrinted = record {
  noise = (record { no_param = refl; no_elapsed = refl; no_latency = refl; no_peeks = refl }, tt);
  script = (record { no_param = refl; no_elapsed = refl; no_latency = refl; no_peeks = refl }, tt);
  elapsed = ground arith;
  throughput = ground arith;
  p50 = ground arith;
  p90 = ground arith;
  p99 = ground arith;
  p999 = ground arith;
  p9999 = ground arith;
  p99999 = ground arith;
  mean = ground arith;
  peeks = ground arith;
}

parse_output-print_log_example :
    parse_output (codes "/dev/nvme0n1") 1024 4096 (print_log (run_a ∷ run_a ∷ []) [])
    ≡ ok (map (run_of (codes "/dev/nvme0n1") 1024 4096) (run_a ∷ run_a ∷ []))
parse_output-print_log_example =
    parse_output-print_log (codes "/dev/nvme0n1") 1024 4096 (run_a ∷ run_a ∷ []) []
      (run_a-IsPrinted, (run_a-IsPrinted, tt)) tt

make_parser-parse_output_example :
    (do
      runs ← parse_output (codes "/dev/nvme0n1") 1024 4096 (print_log (run_a ∷ []) [])
      make_parser nat_num (runs ∷ []))
    ≡ err value_error
make_parser-parse_output_example =
    make_parser-parse_output nat_num (codes "/dev/nvme0n1") 1024 4096 run_a [] [] []
      (run_a-IsPrinted, tt) tt refl

-- two runs that differ in their latency
abbrev latency_run : ℕ → Text → Run
latency_run latency time =
    ("latency", num latency) ∷ ("num_threads", num 2) ∷ ("time", text time) ∷ []

abbrev two_runs : MicrobenchParser nat_num
two_runs = record {
  tests = latency_run 0 (codes "30") ∷ latency_run 500 (codes "40") ∷ [];
  key_set = [];
  val_set_dict = [];
}

get_perf-Picks_example :
    (is_perf "time" ≡ true)
    × Picks nat_num
        (("latency", int (pos 500)) ∷ [])
        "time"
        ("num_threads" ∷ [])
        two_runs.tests
        (40 ∷ [])
unfolding get_perf Dict.get Dict.index int_digits strip
get_perf-Picks_example =
    get_perf-Picks nat_num (("latency", int (pos 500)) ∷ []) "time" ("num_threads" ∷ []) two_runs
      (40 ∷ []) refl
