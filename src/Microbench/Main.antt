-- ===== src/Microbench/Main.antt =====
-- microbench/src/main.c: the loop of `main` over the lines of the parameter file. The numbers are below
-- 2^31 and without a sign, and the lines shorter than the buffer, as microbench/batch.py writes them.
pub mod Scan
pub mod Threads
pub mod Operation
use cxlkvs.Prelude.{ℕ, ◌+◌, ◌≡◌, Option, none, some, List, [], ◌∷◌, ◌++◌, if◌then◌else◌}
use cxlkvs.Py.Text.{Text, is_digit, int_digits, lstrip}
use cxlkvs.Py.Result.{ok, err, Result}
use cxlkvs.Microbench.Batch.Params.{Params}
use cxlkvs.Microbench.Batch.Output.Printed.{Measured, print_log}

-- the digits at the head, and the rest
unfoldable pub span_digits : Text → Text × Text
span_digits [] = ([], [])
span_digits (c ∷ s) =
    let (digits, rest) = span_digits s in if is_digit c then (c ∷ digits, rest) else ([], c ∷ s)

abbrev with_rest : Result ℕ → Text → Option (ℕ × Text)
with_rest (ok n) rest = some (n, rest)
with_rest (err e) rest = none

-- `%d`: white space, and then at least one digit
unfoldable pub scan_number : Text → Option (ℕ × Text)
unfolding span_digits lstrip
scan_number s = let (digits, rest) = span_digits (lstrip s) in with_rest (int_digits digits) rest

abbrev pub then_scan {ℓ} : {A : Type ℓ} → Option (ℕ × Text) → (ℕ → Text → Option A) → Option A
then_scan none next = none
then_scan (some (n, rest)) next = next n rest

-- `sscanf(buf, "%d %d %d %d %d %d %d %d %d %d", …) == 10`
unfoldable pub scan_params : Text → Option Params
scan_params s0 = then_scan (scan_number s0) λ count s1. then_scan (scan_number s1) λ num_threads s2.
    then_scan (scan_number s2) λ num_xstreams s3. then_scan (scan_number s3) λ latency s4.
      then_scan (scan_number s4) λ num_chases s5. then_scan (scan_number s5) λ memory_time s6.
        then_scan (scan_number s6) λ io_time_pre s7. then_scan (scan_number s7) λ io_time_post s8.
          then_scan (scan_number s8) λ io_mode s9. then_scan (scan_number s9) λ prefetch_mode s10.
            some (record {
              count = count;
              num_threads = num_threads;
              num_xstreams = num_xstreams;
              latency = latency;
              num_chases = num_chases;
              memory_time = memory_time;
              io_time_pre = io_time_pre;
              io_time_post = io_time_post;
              io_mode = io_mode;
              prefetch_mode = prefetch_mode;
            })

-- What the runs measure is not modelled: `measure` gives it for the number of a run and its parameters.
module _ (measure : ℕ → Params → Measured) where
  -- `run_mbench` for a line with ten numbers; the other lines are passed over
  abbrev pub run_line : ℕ → Option Params → List Measured → List Measured
  run_line i none later = later
  run_line i (some p) later = record (measure i p) { params = p } ∷ later

  abbrev next_run : ℕ → Option Params → ℕ
  next_run i none = i
  next_run i (some p) = i + 1

  -- the loop, from the run with number `i`
  unfoldable pub runs_from : ℕ → List Text → List Measured
  runs_from i [] = []
  runs_from i (line ∷ lines) =
      run_line i (scan_params line) (runs_from (next_run i (scan_params line)) lines)

  -- What is printed: the runs, and `tail`, the output of the last call of `set_latency`.
  unfoldable pub main_log : List Text → List Text → List Text
  unfolding runs_from
  main_log param_file tail = print_log (runs_from 0 param_file) tail
