-- ===== src/Microbench/Batch/Tests.antt =====
-- The theorems about the runs and the script of microbench/batch.py at concrete inputs.
use cxlkvs.Prelude.{
  ℕ, ◌≡◌, refl, Option, some, none, List, [], ◌∷◌, ◌++◌, All, arith, text_eq, ◌==◌, if◌then◌else◌,
}
use cxlkvs.Py.Text.{Text, codes}
use cxlkvs.Py.Result.{ok, err, file_exists}
use cxlkvs.Py.Dict
use cxlkvs.Py.Decimal.{decimal}
use cxlkvs.Microbench.Batch.Params.{Params}
use cxlkvs.Microbench.Batch.Output.Printed.{Measured, IsPrinted}
use cxlkvs.Microbench.Main.{main_log}
use cxlkvs.Microbench.Batch.Runs.{Files, Env, Setup, use_cxl, command, library_env, run_benchmark}
use cxlkvs.Microbench.Batch.Runs.Logged.{
  RunsMain, expected_runs, files_after, run_benchmark-main_log,
}
use cxlkvs.Microbench.Batch.Script.{
  World, log_dir, join_path, mkdir, dram, cxl, pause, pause2, pause3, io, pref, main,
}
use cxlkvs.Microbench.Batch.Script.Written.{batches, BatchRuns, runs_of, main-reports}
use cxlkvs.Microbench.Batch.Script.Again.{main-main}

abbrev run_a : Params → Measured
run_a p = record {
  noise = [];
  params = p;
  script = [];
  total = 1000;
  elapsed = codes "0.125";
  throughput = codes "8.0";
  percentiles = record {
    p50 = codes "1.5";
    p90 = codes "2.5";
    p99 = codes "3.0";
    p999 = codes "4.0";
    p9999 = codes "5.0";
    p99999 = codes "6.0";
  };
  mean = codes "1.75";
  peeks = codes "1.0";
}

abbrev measure : ℕ → Params → Measured
measure i p = run_a p

run_a-IsPrinted : (p : Params) → IsPrinted (run_a p)
run_a-IsPrinted p = record {
  noise = tt;
  script = tt;
  elapsed = ground arith;
  throughput = ground arith;
  p50 = ground arith;
  p90 = ground arith;
  p99 = ground arith;
  p999 = ground arith;
  p9999 = ground arith;
  p99999 = ground arith;
  mean = ground arith;
  peeks = ground arith;
}

abbrev device : Text
device = codes "/dev/nvme0n1"

abbrev or_none : Option (List Text) → List Text
or_none none = []
or_none (some lines) = lines

-- a run of `main` on the parameter file of a batch
abbrev run_main : Setup → Files → Files
run_main s files =
    Dict.put s.log_file (main_log measure (or_none (Dict.get s.param_file files)) []) files

-- a shell that knows the commands of some batches
abbrev shell_of : List (Setup × ℕ) → Text → Env → Files → Files
shell_of [] cmd env files = files
shell_of (b ∷ bs) cmd env files =
    if command b.0 b.1 == cmd then run_main b.0 files else shell_of bs cmd env files

abbrev shell : Text → Env → Files → Files
shell = shell_of (batches device)

shell-RunsMain :
    (s : Setup) (c : ℕ)
    → ((files : Files) → shell (command s c) (library_env []) files ≡ run_main s files)
    → RunsMain shell [] measure [] s c
shell-RunsMain s c same = record {
  logged = λ files lines e.
      rw (same files, e) (Dict.get-put_same s.log_file (main_log measure lines []) files);
  printed = λ i p. run_a-IsPrinted p;
  quiet = tt;
}

all_run : All (BatchRuns shell [] (λ s. measure) (λ s. [])) (batches device)
unfolding command dram cxl pause pause2 pause3 io pref Dict.put decimal join_path
all_run = (
  shell-RunsMain (dram device) 0 λ files. refl,
  (
    shell-RunsMain (cxl device) 1 λ files. refl,
    (
      shell-RunsMain (pause device) 0 λ files. refl,
      (
        shell-RunsMain (pause2 device) 0 λ files. refl,
        (
          shell-RunsMain (pause3 device) 0 λ files. refl,
          (
            shell-RunsMain (io device) 0 λ files. refl,
            (shell-RunsMain (pref device) 1 λ files. refl, tt),
          ),
        ),
      ),
    ),
  ),
)

run_benchmark-main_log_example :
    run_benchmark shell [] (pause device) []
    ≡ ok (files_after shell [] (pause device) 0 [], expected_runs measure (pause device))
unfolding command dram cxl pause Dict.put decimal join_path use_cxl
run_benchmark-main_log_example =
    run_benchmark-main_log shell [] measure [] (pause device) 0 [] refl
      (shell-RunsMain (pause device) 0 λ files. refl)

abbrev empty : World
empty = record { dirs = []; files = []; reports = [] }

abbrev made : World
made = record { dirs = log_dir ∷ []; files = []; reports = [] }

mkdir-empty : mkdir log_dir empty ≡ ok made
unfolding mkdir
mkdir-empty = refl

main-reports_example :
    (w' : World) × ((main shell [] (codes "batch.py" ∷ device ∷ []) empty ≡ ok w')
      × ((Dict.get (join_path (codes "dram.json")) w'.reports
            ≡ some (runs_of (λ s. measure) (dram device)))
          × ((Dict.get (join_path (codes "cxl.json")) w'.reports
                ≡ some (runs_of (λ s. measure) (cxl device)))
              × (Dict.get (join_path (codes "calib.json")) w'.reports
                  ≡ some (
                      runs_of (λ s. measure) (pause device)
                      ++ runs_of (λ s. measure) (pause2 device)
                      ++ runs_of (λ s. measure) (pause3 device)
                      ++ runs_of (λ s. measure) (io device)
                      ++ runs_of (λ s. measure) (pref device))))))
main-reports_example =
    main-reports shell [] (λ s. measure) (λ s. []) (codes "batch.py") device [] empty made
      mkdir-empty all_run

abbrev left : World
left =
    (main-reports shell [] (λ s. measure) (λ s. []) (codes "batch.py") device [] empty made
      mkdir-empty all_run).0

main-main_example : main shell [] (codes "batch.py" ∷ codes "/dev/sda" ∷ []) left ≡ err file_exists
main-main_example =
    main-main shell [] (codes "batch.py" ∷ device ∷ []) [] (codes "batch.py") (codes "/dev/sda")
      empty left
      (main-reports shell [] (λ s. measure) (λ s. []) (codes "batch.py") device [] empty made
        mkdir-empty all_run).1.0
