-- ===== src/Microbench/Parser/Peeks.antt =====
-- `num_peeks` is written as the text that `%.1f` printed, and `_cast` converts it by `int`.
use mathlib.Core.List.{reverse, reverse_aux, reverse-reverse}
use cxlkvs.Prelude.{
  ℕ, ◌+◌, ◌-◌, ◌*◌, ◌≡◌, refl, Bool, true, false, String, List, [], ◌∷◌, All, ◌==◌, string_eq,
  nat_eq, arith, if◌then◌else◌, Option-cases, inl, inr, ap, ◌∙◌,
}
use cxlkvs.Py.Result.{err, value_error, ◌>>=◌}
use cxlkvs.Py.Text.{Text, digits_from, lstrip, strip, int_text}
use cxlkvs.Py.Num.{Num}
use cxlkvs.Py.Regex.Fields.{is_num_char, IsNumber}
use cxlkvs.Microbench.Batch.Output.{Value, num, text, Run, parse_output}
use cxlkvs.Microbench.Batch.Output.Printed.{Measured, print_log, IsNoise, IsPrinted}
use cxlkvs.Microbench.Batch.Output.RoundTrip.{run_of, parse_output-print_log}
use cxlkvs.Microbench.Parser.{MicrobenchParser, is_perf, add_items, add_tests, load, make_parser}

-- the text holds a decimal point
abbrev pub has_point : Text → Bool
has_point [] = false
has_point (c ∷ s) = if c == b'.' then true else has_point s

digits_from-point :
    (after : Bool) (n : ℕ) (s : Text)
    → All (λ c. is_num_char c ≡ true) s
    → has_point s ≡ true
    → digits_from after n s ≡ err value_error
unfolding digits_from
digits_from-point after n [] h k = cc
digits_from-point after n (c ∷ s) h k =
    ground (arith, digits_from-point true (n * 10 + (c - b'0')) s)

lstrip-number : (s : Text) → All (λ c. is_num_char c ≡ true) s → lstrip s ≡ s
unfolding lstrip
lstrip-number [] h = refl
lstrip-number (c ∷ s) h = ground arith

All-reverse_aux :
    (P : ℕ → Type 0) (xs ys : List ℕ) → All P xs → All P ys → All P (reverse_aux xs ys)
All-reverse_aux P [] ys h k = k
All-reverse_aux P (x ∷ xs) ys h k = All-reverse_aux P xs (x ∷ ys) h.1 (h.0, k)

strip-number : (s : Text) → All (λ c. is_num_char c ≡ true) s → strip s ≡ s
unfolding strip
strip-number s h =
    rw (lstrip-number s h, lstrip-number (reverse s) (All-reverse_aux _ s [] h tt))
      (reverse-reverse s)

int_text-point :
    (s : Text)
    → All (λ c. is_num_char c ≡ true) s
    → has_point s ≡ true
    → int_text s ≡ err value_error
unfolding int_text
int_text-point [] h k = cc
int_text-point (c ∷ s) h k =
    rw (strip-number (c ∷ s) h) (ground (arith, digits_from-point false 0 (c ∷ s)))

-- The items up to one that `int` refuses, each of which is cast with no error or with `ValueError`.
data Refused : Run → Type 0 where
  name_first :
      {k : String} {v : Value} {items : Run}
      → is_perf k ≡ false
      → (k == "filename") ≡ true
      → Refused items
      → Refused ((k, v) ∷ items)
  num_first :
      {k : String} {n : ℕ} {items : Run}
      → is_perf k ≡ false
      → (k == "filename") ≡ false
      → Refused items
      → Refused ((k, num n) ∷ items)
  perf_first :
      {k : String} {t : Text} {items : Run}
      → is_perf k ≡ true
      → Refused items
      → Refused ((k, text t) ∷ items)
  refused :
      {k : String} {t : Text} {items : Run}
      → is_perf k ≡ false
      → (k == "filename") ≡ false
      → int_text t ≡ err value_error
      → Refused ((k, text t) ∷ items)

Refused-run_of :
    (filename : Text) (chain_size access_size : ℕ) (m : Measured)
    → IsNumber m.peeks
    → has_point m.peeks ≡ true
    → Refused (run_of filename chain_size access_size m)
unfolding is_perf
Refused-run_of filename chain_size access_size m h k = name_first refl refl (
    num_first refl refl (
      num_first refl refl (
        num_first refl refl (
          num_first refl refl (
            num_first refl refl (
              num_first refl refl (
                num_first refl refl (
                  num_first refl refl (
                    num_first refl refl (
                      num_first refl refl (
                        num_first refl refl (
                          num_first refl refl (
                            perf_first refl (
                              perf_first refl (
                                perf_first refl (
                                  perf_first refl (
                                    perf_first refl (
                                      perf_first refl (
                                        perf_first refl (
                                          refused refl refl
                                            (int_text-point m.peeks h.1 k)))))))))))))))))))))

module _ (nm : Num) where
  add_items-Refused :
      {items : Run} (p : MicrobenchParser nm)
      → Refused items
      → add_items nm p items ≡ err value_error
  unfolding add_items
  add_items-Refused p (name_first e f h) = rw (e, f) (add_items-Refused _ h)
  add_items-Refused p (num_first e f h) = rw (e, f) (add_items-Refused _ h)
  add_items-Refused p (perf_first {t = t} e h) = elim (Option-cases (nm.of_text t)) [
    | inl f ↦ rw (e, f)
    | inr (x, f) ↦ rw (e, f) (add_items-Refused _ h)
  ]
  add_items-Refused p (refused e f g) = rw (e, f, g)

  make_parser-Refused :
      {items : Run} (runs : List Run) (files : List (List Run))
      → Refused items
      → make_parser nm ((items ∷ runs) ∷ files) ≡ err value_error
  unfolding make_parser add_tests load
  make_parser-Refused runs files h = rw (add_items-Refused _ h)

  -- Every log with a run whose last number is printed with a decimal point, as `%.1f` prints it, is
  -- read by `parse_output`, and the runs that are read make `MicrobenchParser` raise `ValueError`.
  pub make_parser-parse_output :
      (filename : Text) (chain_size access_size : ℕ) (m : Measured) (ms : List Measured)
      (tail : List Text) (files : List (List Run))
      → All IsPrinted (m ∷ ms)
      → All IsNoise tail
      → has_point m.peeks ≡ true
      → (do
        runs ← parse_output filename chain_size access_size (print_log (m ∷ ms) tail)
        make_parser nm (runs ∷ files))
        ≡ err value_error
  make_parser-parse_output filename chain_size access_size m ms tail files h k point =
      ap (λ found. found >>= λ runs. make_parser nm (runs ∷ files))
        (parse_output-print_log filename chain_size access_size (m ∷ ms) tail h k)
      ∙ make_parser-Refused _ files
          (Refused-run_of filename chain_size access_size m h.0.peeks point)
