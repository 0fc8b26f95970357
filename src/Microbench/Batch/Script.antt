-- ===== src/Microbench/Batch/Script.antt =====
-- The script of microbench/batch.py: seven batches, whose runs three JSON files hold.
pub mod Written
pub mod Again
use cxlkvs.Prelude.{ℕ, Bool, false, List, [], ◌∷◌, ◌++◌, ◌==◌, ◌||◌, if◌then◌else◌, map, text_eq}
use cxlkvs.Py.Text.{Text, codes}
use cxlkvs.Py.Result.{Result, ok, err, system_exit, file_exists, ◌>>=◌}
use cxlkvs.Py.Dict
use cxlkvs.Py.Dict.{Dict}
use cxlkvs.Microbench.Batch.Params.{Ranges}
use cxlkvs.Microbench.Batch.Output.{Run}
use cxlkvs.Microbench.Batch.Runs.{Files, Env, Setup, run_benchmark}

abbrev pub num_threads_list : List ℕ
num_threads_list = 32 ∷ 64 ∷ 128 ∷ []

abbrev pub num_chases_list : List ℕ
num_chases_list = 10 ∷ 15 ∷ []

abbrev pub memory_time_list : List ℕ
memory_time_list = 1 ∷ 3 ∷ 5 ∷ []

abbrev pub latency_list : List ℕ
latency_list = 500 ∷ 1000 ∷ 2000 ∷ 3000 ∷ 4000 ∷ 5000 ∷ 10000 ∷ []

abbrev pub io_time_list : List ℕ
io_time_list = 0 ∷ 1000 ∷ 2000 ∷ []

-- 1024 * 1024 * 1024
abbrev pub chain_size : ℕ
chain_size = 1073741824

abbrev pub access_size : ℕ
access_size = 4096

abbrev pub log_dir : Text
log_dir = codes "log"

-- `log_path.joinpath(name)`
unfoldable pub join_path : Text → Text
join_path name = log_dir ++ b'/' ∷ name

-- The two files of a batch, by its name.
abbrev files_of : Text → Text × Text
files_of name = (
  join_path (codes "param_" ++ name ++ codes ".txt"),
  join_path (codes "log_" ++ name ++ codes ".txt"),
)

-- a setup with the constants of the script: the name, the size of the chain, the count and the I/O mode
abbrev setup : Text → Text → ℕ → ℕ → ℕ → Ranges → Setup
setup filename name chain count io_mode ranges = record {
  param_file = (files_of name).0;
  log_file = (files_of name).1;
  filename = filename;
  chain_size = chain;
  access_size = access_size;
  count = count;
  num_xstreams = 1;
  io_mode = io_mode;
  ranges = ranges;
}

module _ (filename : Text) where
  unfoldable pub dram : Setup
  dram = setup filename (codes "dram") chain_size 1000000 1 (record {
    latencies = 0 ∷ [];
    num_threads_list = num_threads_list;
    num_chases_list = num_chases_list;
    memory_times = memory_time_list;
    io_times_pre = io_time_list;
    io_times_post = io_time_list;
    prefetch_modes = 0 ∷ 1 ∷ [];
  })

  unfoldable pub cxl : Setup
  cxl = setup filename (codes "cxl") chain_size 1000000 1 (record {
    latencies = latency_list;
    num_threads_list = num_threads_list;
    num_chases_list = num_chases_list;
    memory_times = memory_time_list;
    io_times_pre = io_time_list;
    io_times_post = io_time_list;
    prefetch_modes = 1 ∷ [];
  })

  unfoldable pub pause : Setup
  pause = setup filename (codes "pause") 2 1000000 0 (record {
    latencies = 0 ∷ [];
    num_threads_list = 1 ∷ [];
    num_chases_list = 1 ∷ [];
    memory_times = 1000 ∷ [];
    io_times_pre = 0 ∷ [];
    io_times_post = 0 ∷ [];
    prefetch_modes = 0 ∷ [];
  })

  unfoldable pub pause2 : Setup
  pause2 = setup filename (codes "pause2") chain_size 1000000 0 (record {
    latencies = 0 ∷ [];
    num_threads_list = 1 ∷ [];
    num_chases_list = num_chases_list;
    memory_times = memory_time_list;
    io_times_pre = 0 ∷ [];
    io_times_post = 0 ∷ [];
    prefetch_modes = 0 ∷ [];
  })

  unfoldable pub pause3 : Setup
  pause3 = setup filename (codes "pause3") chain_size 1000000 0 (record {
    latencies = 0 ∷ [];
    num_threads_list = num_threads_list;
    num_chases_list = num_chases_list;
    memory_times = memory_time_list;
    io_times_pre = 0 ∷ [];
    io_times_post = 0 ∷ [];
    prefetch_modes = 1 ∷ [];
  })

  unfoldable pub io : Setup
  io = setup filename (codes "io") chain_size 1000000 1 (record {
    latencies = 0 ∷ [];
    num_threads_list = num_threads_list ++ 1 ∷ 2 ∷ [];
    num_chases_list = 0 ∷ [];
    memory_times = 0 ∷ [];
    io_times_pre = 0 ∷ [];
    io_times_post = 0 ∷ [];
    prefetch_modes = 0 ∷ [];
  })

  unfoldable pub pref : Setup
  pref = setup filename (codes "pref") chain_size 1000 0 (record {
    latencies = 50000 ∷ 100000 ∷ [];
    num_threads_list = num_threads_list;
    num_chases_list = 1000 ∷ [];
    memory_times = 0 ∷ [];
    io_times_pre = 0 ∷ [];
    io_times_post = 0 ∷ [];
    prefetch_modes = 1 ∷ [];
  })

-- What the script reads and writes: the directories, the text files, and the JSON files with their runs.
pub record World : Type 0 where
  pub dirs : List Text
  pub files : Files
  pub reports : Dict Text (List Run)

abbrev pub is_in : Text → List Text → Bool
is_in name [] = false
is_in name (other ∷ names) = name == other || is_in name names

-- `log_path.mkdir()`: the name is not yet that of a directory or of a file
unfoldable pub mkdir : Text → World → Result World
mkdir dir w =
    if is_in dir w.dirs || is_in dir (map (λ file. file.0) w.files)
    then err file_exists
    else ok (record w { dirs = dir ∷ w.dirs })

-- `sys.argv[1]`, behind the test of the number of arguments
unfoldable pub filename_of : List Text → Result Text
filename_of (prog ∷ filename ∷ rest) = ok filename
filename_of argv = err system_exit

module _ (shell : Text → Env → Files → Files) (environ : Env) where
  -- the batches, one after the other, and the JSON files
  unfoldable pub run_batches : Text → World → Result World
  unfolding run_benchmark
  run_batches filename w = do
    results_dram ← run_benchmark shell environ (dram filename) w.files
    results_cxl ← run_benchmark shell environ (cxl filename) results_dram.0
    calib_pause ← run_benchmark shell environ (pause filename) results_cxl.0
    calib_pause2 ← run_benchmark shell environ (pause2 filename) calib_pause.0
    calib_pause3 ← run_benchmark shell environ (pause3 filename) calib_pause2.0
    calib_io ← run_benchmark shell environ (io filename) calib_pause3.0
    calib_pref ← run_benchmark shell environ (pref filename) calib_io.0
    ok (record w {
      files = calib_pref.0;
      reports =
          Dict.put (join_path (codes "calib.json"))
            (calib_pause.1 ++ calib_pause2.1 ++ calib_pause3.1 ++ calib_io.1 ++ calib_pref.1)
            (Dict.put (join_path (codes "cxl.json")) results_cxl.1
              (Dict.put (join_path (codes "dram.json")) results_dram.1 w.reports));
    })

  -- The script on its arguments: what it leaves, or the exception that ends it.
  unfoldable pub main : List Text → World → Result World
  unfolding filename_of mkdir run_batches
  main argv w0 = do filename ← filename_of argv; w ← mkdir log_dir w0; run_batches filename w
