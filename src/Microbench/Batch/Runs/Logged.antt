-- ===== src/Microbench/Batch/Runs/Logged.antt =====
-- A run of microbench/batch.py whose command runs microbench/src/main.c on the parameter file.
use cxlkvs.Prelude.{ℕ, ◌≡◌, some, List, All, map, text_eq}
use cxlkvs.Py.Text.{Text}
use cxlkvs.Py.Result.{ok}
use cxlkvs.Py.Dict
use cxlkvs.Microbench.Batch.Params.{Params, param_rows, write_param_file}
use cxlkvs.Microbench.Batch.Output.{Run, parse_output}
use cxlkvs.Microbench.Batch.Output.Printed.{Measured, IsNoise, IsPrinted}
use cxlkvs.Microbench.Batch.Output.RoundTrip.{run_of, parse_output-print_log}
use cxlkvs.Microbench.Main.{main_log}
use cxlkvs.Microbench.Main.Scan.{measured_from, runs_from-param_line, measured_from-IsPrinted}
use cxlkvs.Microbench.Batch.Runs.{Files, Env, Setup, use_cxl, command, library_env, run_benchmark}

-- The shell, `taskset` and `tee` run `main` on the parameter file, and leave what it prints in the log;
-- what it measures are numbers, and no pattern matches the other lines.
module _ (shell : Text → Env → Files → Files) (environ : Env) where
  pub record RunsMain (measure : ℕ → Params → Measured) (tail : List Text) (s : Setup) (cxl : ℕ)
      : Type 0 where
    pub logged :
        (files : Files) (lines : List Text)
        → Dict.get s.param_file files ≡ some lines
        → Dict.get s.log_file (shell (command s cxl) (library_env environ) files)
          ≡ some (main_log measure lines tail)
    pub printed : (i : ℕ) (p : Params) → IsPrinted (measure i p)
    pub quiet : All IsNoise tail

-- a run for each combination of the parameters, in the order of the loops
abbrev pub expected_runs : (ℕ → Params → Measured) → Setup → List Run
expected_runs measure s =
    map (run_of s.filename s.chain_size s.access_size)
      (measured_from measure 0 (param_rows s.count s.num_xstreams s.io_mode s.ranges))

parse_output-main_log :
    (measure : ℕ → Params → Measured) (tail : List Text) (s : Setup)
    → ((i : ℕ) (p : Params) → IsPrinted (measure i p))
    → All IsNoise tail
    → parse_output s.filename s.chain_size s.access_size
        (main_log measure (write_param_file s.count s.num_xstreams s.io_mode s.ranges) tail)
      ≡ ok (expected_runs measure s)
unfolding main_log write_param_file
parse_output-main_log measure tail s h k =
    let rows = param_rows s.count s.num_xstreams s.io_mode s.ranges in
    rw (runs_from-param_line measure 0 rows) (
      parse_output-print_log s.filename s.chain_size s.access_size (measured_from measure 0 rows)
        tail (measured_from-IsPrinted measure h 0 rows) k)

module _ (shell : Text → Env → Files → Files) (environ : Env) where
  -- the files that the command leaves
  abbrev pub files_after : Setup → ℕ → Files → Files
  files_after s cxl files =
      shell (command s cxl) (library_env environ)
        (Dict.put s.param_file (write_param_file s.count s.num_xstreams s.io_mode s.ranges) files)

  -- Where the test of the latencies passes and the command runs `main` on the parameter file, the call
  -- returns one run for each combination of the parameters, in the order of the loops, each with its own
  -- parameters and with what `main` measured for it.
  pub run_benchmark-main_log :
      (measure : ℕ → Params → Measured) (tail : List Text) (s : Setup) (cxl : ℕ) (files : Files)
      → use_cxl s.ranges.latencies ≡ ok cxl
      → RunsMain shell environ measure tail s cxl
      → run_benchmark shell environ s files ≡ ok (files_after s cxl files, expected_runs measure s)
  unfolding run_benchmark
  run_benchmark-main_log measure tail s cxl files e h =
      let rows = write_param_file s.count s.num_xstreams s.io_mode s.ranges in
      let there =
        h.logged (Dict.put s.param_file rows files) rows
          (Dict.get-put_same s.param_file rows files) in
      rw (e, there) (rw (parse_output-main_log measure tail s h.printed h.quiet))
