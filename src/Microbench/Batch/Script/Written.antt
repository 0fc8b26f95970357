-- ===== src/Microbench/Batch/Script/Written.antt =====
-- What the script of microbench/batch.py leaves, and its second start.
use cxlkvs.Prelude.{ℕ, ◌≡◌, ◌∙◌, refl, some, List, [], ◌∷◌, ◌++◌, All, text_eq}
use cxlkvs.Py.Text.{Text, codes}
use cxlkvs.Py.Result.{ok}
use cxlkvs.Py.Dict
use cxlkvs.Microbench.Batch.Params.{Params}
use cxlkvs.Microbench.Batch.Output.{Run}
use cxlkvs.Microbench.Batch.Output.Printed.{Measured}
use cxlkvs.Microbench.Batch.Runs.{Files, Env, Setup, use_cxl, run_benchmark}
use cxlkvs.Microbench.Batch.Runs.Logged.{
  RunsMain, expected_runs, files_after, run_benchmark-main_log,
}
use cxlkvs.Microbench.Batch.Script.{
  World, log_dir, join_path, mkdir, dram, cxl, pause, pause2, pause3, io, pref, main,
}

-- the runs of a batch, where each batch has its own measurements
abbrev pub runs_of : (Setup → ℕ → Params → Measured) → Setup → List Run
runs_of measure s = expected_runs (measure s) s

-- the batches, each with what `use_cxl` is for it
abbrev pub batches : Text → List (Setup × ℕ)
batches filename =
    (dram filename, 0)
    ∷ (cxl filename, 1)
    ∷ (pause filename, 0)
    ∷ (pause2 filename, 0)
    ∷ (pause3 filename, 0)
    ∷ (io filename, 0)
    ∷ (pref filename, 1)
    ∷ []

module _ (shell : Text → Env → Files → Files) (environ : Env) where
  module _ (measure : Setup → ℕ → Params → Measured) (tail : Setup → List Text) where
    abbrev pub BatchRuns : Setup × ℕ → Type 0
    BatchRuns b = RunsMain shell environ (measure b.0) (tail b.0) b.0 b.1

    abbrev after_all : Files → List (Setup × ℕ) → Files
    after_all files [] = files
    after_all files (b ∷ bs) = after_all (files_after shell environ b.0 b.1 files) bs

    abbrev left_by : Text → World → World
    left_by filename w = record w {
      files = after_all w.files (batches filename);
      reports =
          Dict.put (join_path (codes "calib.json"))
            (runs_of measure (pause filename)
              ++ runs_of measure (pause2 filename)
              ++ runs_of measure (pause3 filename)
              ++ runs_of measure (io filename)
              ++ runs_of measure (pref filename))
            (Dict.put (join_path (codes "cxl.json")) (runs_of measure (cxl filename)) (
              Dict.put (join_path (codes "dram.json")) (runs_of measure (dram filename))
                w.reports));
    }

    batch_runs :
        (b : Setup × ℕ) (files : Files)
        → use_cxl b.0.ranges.latencies ≡ ok b.1
        → BatchRuns b
        → run_benchmark shell environ b.0 files
          ≡ ok (files_after shell environ b.0 b.1 files, runs_of measure b.0)
    batch_runs b files e h =
        run_benchmark-main_log shell environ (measure b.0) (tail b.0) b.0 b.1 files e h

    main-left_by :
        (prog filename : Text) (rest : List Text) (w0 w : World)
        → mkdir log_dir w0 ≡ ok w
        → All BatchRuns (batches filename)
        → main shell environ (prog ∷ filename ∷ rest) w0 ≡ ok (left_by filename w)
    unfolding main use_cxl dram cxl pause pause2 pause3 io pref
    main-left_by prog filename rest w0 w e h =
        let f1 = files_after shell environ (dram filename) 0 w.files in
        let f2 = files_after shell environ (cxl filename) 1 f1 in
        let f3 = files_after shell environ (pause filename) 0 f2 in
        let f4 = files_after shell environ (pause2 filename) 0 f3 in
        let f5 = files_after shell environ (pause3 filename) 0 f4 in
        let f6 = files_after shell environ (io filename) 0 f5 in
        rw (
          e,
          batch_runs (dram filename, 0) w.files refl h.0,
          batch_runs (cxl filename, 1) f1 refl h.1.0,
          batch_runs (pause filename, 0) f2 refl h.1.1.0,
          batch_runs (pause2 filename, 0) f3 refl h.1.1.1.0,
          batch_runs (pause3 filename, 0) f4 refl h.1.1.1.1.0,
          batch_runs (io filename, 0) f5 refl h.1.1.1.1.1.0,
          batch_runs (pref filename, 1) f6 refl h.1.1.1.1.1.1.0,
        )

    -- In a directory without `log`, and where each of the seven commands runs `main` on its parameter file,
    -- the script ends without an exception; the JSON files hold the runs of the DRAM, the CXL
    -- and the five calibration batches, one run for each combination of the batch's parameters, in order.
    pub main-reports :
        (prog filename : Text) (rest : List Text) (w0 w : World)
        → mkdir log_dir w0 ≡ ok w
        → All BatchRuns (batches filename)
        → (w' : World) × ((main shell environ (prog ∷ filename ∷ rest) w0 ≡ ok w')
            × ((Dict.get (join_path (codes "dram.json")) w'.reports
                  ≡ some (runs_of measure (dram filename)))
                × ((Dict.get (join_path (codes "cxl.json")) w'.reports
                      ≡ some (runs_of measure (cxl filename)))
                    × (Dict.get (join_path (codes "calib.json")) w'.reports
                        ≡ some (
                            runs_of measure (pause filename)
                            ++ runs_of measure (pause2 filename)
                            ++ runs_of measure (pause3 filename)
                            ++ runs_of measure (io filename)
                            ++ runs_of measure (pref filename))))))
    unfolding join_path
    main-reports prog filename rest w0 w e h = (
      left_by filename w,
      (
        main-left_by prog filename rest w0 w e h,
        (
          Dict.get-put_other _ _ _ _ refl
              ∙ (Dict.get-put_other _ _ _ _ refl ∙ Dict.get-put_same _ _ _),
          (Dict.get-put_other _ _ _ _ refl ∙ Dict.get-put_same _ _ _, Dict.get-put_same _ _ _),
        ),
      ),
    )
