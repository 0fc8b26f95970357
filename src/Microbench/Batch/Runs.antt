-- ===== src/Microbench/Batch/Runs.antt =====
-- `run_benchmark`, and the script of microbench/batch.py. The process that a command starts is the
-- parameter `shell`: it takes the files to the files that it leaves.
pub mod Logged
use cxlkvs.Prelude.{
  ℕ, String, Option, none, some, List, [], ◌∷◌, ◌++◌, length, ltb, ◌==◌, nat_eq, text_eq, string_eq,
  if◌then◌else◌,
}
use cxlkvs.Py.Text.{Text, codes}
use cxlkvs.Py.Decimal.{decimal}
use cxlkvs.Py.Result.{Result, ok, err, index_error, system_exit, file_not_found, file_exists, ◌>>=◌}
use cxlkvs.Py.Dict
use cxlkvs.Py.Dict.{Dict}
use cxlkvs.Microbench.Batch.Params.{Ranges, write_param_file}
use cxlkvs.Microbench.Batch.Output.{Run, parse_output}

-- The files, by their names, with the lines of each.
abbrev pub Files : Type 0
Files = Dict Text (List Text)

abbrev pub Env : Type 0
Env = Dict String Text

-- The arguments of `run_benchmark`; the lists are `ranges`.
pub record Setup : Type 0 where
  pub param_file : Text
  pub log_file : Text
  pub filename : Text
  pub chain_size : ℕ
  pub access_size : ℕ
  pub count : ℕ
  pub num_xstreams : ℕ
  pub io_mode : ℕ
  pub ranges : Ranges

-- the test of `latency_list[0]`
unfoldable pub use_cxl : List ℕ → Result ℕ
use_cxl [] = err index_error
use_cxl (latency ∷ rest) =
    if latency == 0
    then (if ltb 1 (length (latency ∷ rest)) then err system_exit else ok 0)
    else ok 1

-- `cpu_ids`
unfoldable pub cpu_ids : ℕ → Text
cpu_ids num_xstreams = if ltb 1 num_xstreams then codes "1-" ++ decimal num_xstreams else codes "1"

-- './src/main %s %d %d %d %s', with `taskset` before and `tee` behind it
unfoldable pub command : Setup → ℕ → Text
unfolding cpu_ids
command s cxl =
    codes "taskset -c "
    ++ (cpu_ids s.num_xstreams
        ++ (codes " ./src/main "
            ++ (s.filename
                ++ (codes " "
                    ++ (decimal s.chain_size
                        ++ (codes " "
                            ++ (decimal s.access_size
                                ++ (codes " "
                                    ++ (decimal cxl
                                        ++ (codes " "
                                            ++ (s.param_file
                                                ++ (codes " 2>&1 | tee " ++ s.log_file))))))))))))

-- the library path: set where it is missing or empty, and else extended
abbrev extend_path : Option Text → Env → Env
extend_path none env = Dict.put "LD_LIBRARY_PATH" (codes "./argobots/src/.libs") env
extend_path (some path) env =
    Dict.put "LD_LIBRARY_PATH"
      (if path == [] then codes "./argobots/src/.libs" else path ++ codes ":./argobots/src/.libs")
      env

unfoldable pub library_env : Env → Env
library_env env = extend_path (Dict.get "LD_LIBRARY_PATH" env) env

abbrev pub or_not_found : Option (List Text) → Result (List Text)
or_not_found none = err file_not_found
or_not_found (some lines) = ok lines

module _ (shell : Text → Env → Files → Files) (environ : Env) where
  -- The files behind the run, and the runs that its log holds.
  unfoldable pub run_benchmark : Setup → Files → Result (Files × List Run)
  unfolding use_cxl command library_env
  run_benchmark s files = do
    let rows = write_param_file s.count s.num_xstreams s.io_mode s.ranges
    let written = Dict.put s.param_file rows files
    cxl ← use_cxl s.ranges.latencies
    let left = shell (command s cxl) (library_env environ) written
    log ← or_not_found (Dict.get s.log_file left)
    results ← parse_output s.filename s.chain_size s.access_size log
    ok (left, results)
