-- ===== src/Microbench/Main/Scan.antt =====
-- `main` reads back the parameters of every line that microbench/batch.py writes.
use cxlkvs.Prelude.{Option, ◌+◌, ℕ, ◌≡◌, refl, some, [], ◌∷◌, ◌++◌, List, map, ap}
use cxlkvs.Py.Text.{Text, is_digit, is_space, lstrip}
use cxlkvs.Py.Decimal.{decimal, decimal-IsDigits, int_digits-decimal, IsDigits}
use cxlkvs.Py.Regex.Laws.{Stops}
use cxlkvs.Py.Regex.Fields.{decimal-Stops_space}
use cxlkvs.Microbench.Batch.Params.{Params, row_then, param_line}
use cxlkvs.Prelude.{All}
use cxlkvs.Microbench.Batch.Output.Printed.{Measured, IsPrinted}
use cxlkvs.Microbench.Main.{
  then_scan, span_digits, scan_number, then_scan, scan_params, then_scan, runs_from,
}

span_digits-append :
    (xs rest : Text) → IsDigits xs → Stops is_digit rest → span_digits (xs ++ rest) ≡ (xs, rest)
unfolding span_digits
span_digits-append [] [] h k = refl
span_digits-append [] (c ∷ rest) h k = rw k
span_digits-append (x ∷ xs) rest h k = rw (h.0, span_digits-append xs rest h.1 k)

lstrip-Stops : (s : Text) → Stops is_space s → lstrip s ≡ s
unfolding lstrip
lstrip-Stops [] h = refl
lstrip-Stops (c ∷ s) h = rw h

module _ (n : ℕ) (rest : Text) (h : Stops is_digit rest) where
  scan_number-decimal : scan_number (decimal n ++ rest) ≡ some (n, rest)
  unfolding scan_number
  scan_number-decimal = rw (
    lstrip-Stops (decimal n ++ rest) (decimal-Stops_space n rest),
    span_digits-append (decimal n) rest (decimal-IsDigits n) h,
    int_digits-decimal n,
  )

  scan_number_space : scan_number (b' ' ∷ (decimal n ++ rest)) ≡ some (n, rest)
  unfolding scan_number lstrip
  scan_number_space = scan_number-decimal

-- One number, at the head of the line or behind a space, and then the others.
module _ {A : Type 0} (n : ℕ) (rest : Text) (next : ℕ → Text → Option A) (a : A) where
  first_number :
      Stops is_digit rest
      → next n rest ≡ some a
      → then_scan (scan_number (decimal n ++ rest)) next ≡ some a
  first_number h e = rw (scan_number-decimal n rest h) e

  next_number :
      Stops is_digit rest
      → next n rest ≡ some a
      → then_scan (scan_number (b' ' ∷ (decimal n ++ rest))) next ≡ some a
  next_number h e = rw (scan_number_space n rest h) e

pub scan_params-param_line : (p : Params) → scan_params (param_line p) ≡ some p
unfolding scan_params param_line row_then
scan_params-param_line p = first_number p.count _ _ p refl (
    next_number p.num_threads _ _ p refl (
      next_number p.num_xstreams _ _ p refl (
        next_number p.latency _ _ p refl (
          next_number p.num_chases _ _ p refl (
            next_number p.memory_time _ _ p refl (
              next_number p.io_time_pre _ _ p refl (
                next_number p.io_time_post _ _ p refl (
                  next_number p.io_mode _ _ p refl
                    (next_number p.prefetch_mode (b'\n' ∷ []) _ p refl refl)))))))))

module _ (measure : ℕ → Params → Measured) where
  -- a run for each row of parameters
  abbrev pub measured_from : ℕ → List Params → List Measured
  measured_from i [] = []
  measured_from i (p ∷ ps) = record (measure i p) { params = p } ∷ measured_from (i + 1) ps

  pub runs_from-param_line :
      (i : ℕ) (ps : List Params) → runs_from measure i (map param_line ps) ≡ measured_from i ps
  unfolding runs_from
  runs_from-param_line i [] = refl
  runs_from-param_line i (p ∷ ps) =
      rw (scan_params-param_line p)
        (ap (λ ms. record (measure i p) { params = p } ∷ ms) (runs_from-param_line (i + 1) ps))

  IsPrinted-params : (m : Measured) (p : Params) → IsPrinted m → IsPrinted (record m { params = p })
  IsPrinted-params m p h = record {
    noise = h.noise;
    script = h.script;
    elapsed = h.elapsed;
    throughput = h.throughput;
    p50 = h.p50;
    p90 = h.p90;
    p99 = h.p99;
    p999 = h.p999;
    p9999 = h.p9999;
    p99999 = h.p99999;
    mean = h.mean;
    peeks = h.peeks;
  }

  pub measured_from-IsPrinted :
      ((i : ℕ) (p : Params) → IsPrinted (measure i p))
      → (i : ℕ) (ps : List Params) → All IsPrinted (measured_from i ps)
  measured_from-IsPrinted h i [] = tt
  measured_from-IsPrinted h i (p ∷ ps) =
      (IsPrinted-params (measure i p) p (h i p), measured_from-IsPrinted h (i + 1) ps)
