-- ===== src/Microbench/Batch/Script/Again.antt =====
-- The script of microbench/batch.py where the directory `log` is there.
use cxlkvs.Prelude.{◌≡◌, refl, true, Bool-cases, inl, inr, List, ◌∷◌, ◌||◌, map, text_eq}
use cxlkvs.Py.Text.{Text}
use cxlkvs.Py.Result.{
  ok, err, file_exists, ◌>>=◌, Ensures, Ensures-bind, Ensures-every, Ensures_ok, Ensures-weaken,
  Result,
}
use cxlkvs.Microbench.Batch.Output.{Run}
use cxlkvs.Microbench.Batch.Runs.{Files, Env, Setup, run_benchmark}
use cxlkvs.Microbench.Batch.Script.{
  World, log_dir, is_in, mkdir, filename_of, dram, cxl, pause, pause2, pause3, io, pref,
  run_batches, main,
}

abbrev IsMade : World → Type 0
IsMade w = is_in log_dir w.dirs ≡ true

mkdir-IsMade : (w : World) → Ensures IsMade (mkdir log_dir w)
unfolding mkdir
mkdir-IsMade w =
    elim (Bool-cases (is_in log_dir w.dirs || is_in log_dir (map (λ file. file.0) w.files))) [
      | inl there ↦ rw there tt
      | inr absent ↦ rw absent refl
    ]

mkdir-there : (w : World) → is_in log_dir w.dirs ≡ true → mkdir log_dir w ≡ err file_exists
unfolding mkdir
mkdir-there w e = rw e

module _ (shell : Text → Env → Files → Files) (environ : Env) where
  run_then :
      (s : Setup) (files : Files) (next : Files × List Run → Result World)
      → ((r : Files × List Run) → Ensures IsMade (next r))
      → Ensures IsMade (run_benchmark shell environ s files >>= next)
  run_then s files next h =
      let r = run_benchmark shell environ s files in
      Ensures-bind IsMade r next (Ensures-every (λ a. Ensures IsMade (next a)) r h)

  batches-IsMade :
      (filename : Text) (w : World)
      → IsMade w
      → Ensures IsMade (run_batches shell environ filename w)
  unfolding run_batches
  batches-IsMade filename w made = run_then (dram filename) w.files _ λ a.
      run_then (cxl filename) a.0 _ λ b. run_then (pause filename) b.0 _ λ c.
        run_then (pause2 filename) c.0 _ λ d.
          run_then (pause3 filename) d.0 _
            λ e. run_then (io filename) e.0 _ λ f. run_then (pref filename) f.0 _ λ g. made

  main-IsMade : (argv : List Text) (w0 : World) → Ensures IsMade (main shell environ argv w0)
  unfolding main
  main-IsMade argv w0 = Ensures-bind IsMade (filename_of argv) _ (
      Ensures-every _ (filename_of argv) λ filename.
        Ensures-bind IsMade (mkdir log_dir w0) _
          (Ensures-weaken IsMade _ (mkdir log_dir w0) (batches-IsMade filename) (mkdir-IsMade w0)))

  -- Where the script has ended without an exception, a second start on what it leaves is refused by `mkdir`, whatever block
  -- device its command line names: no batch overwrites the logs and the JSON files of the first.
  pub main-main :
      (argv rest : List Text) (prog filename : Text) (w0 w' : World)
      → main shell environ argv w0 ≡ ok w'
      → main shell environ (prog ∷ filename ∷ rest) w' ≡ err file_exists
  unfolding main filename_of
  main-main argv rest prog filename w0 w' e =
      let made : IsMade w' =
        Ensures_ok IsMade (main shell environ argv w0) w' e (main-IsMade argv w0) in
      rw (mkdir-there w' made)
