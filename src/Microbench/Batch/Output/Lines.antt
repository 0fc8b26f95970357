-- ===== src/Microbench/Batch/Output/Lines.antt =====
-- What each pattern does on each printed line.
use cxlkvs.Prelude.{ℕ, ◌≡◌, ◌∙◌, refl, true, false, none, some, [], ◌∷◌, ◌++◌, All, arith, nat_eq}
use cxlkvs.Py.Text.{Text, codes, is_digit, is_space}
use cxlkvs.Py.Result.{ok}
use cxlkvs.Py.Decimal.{decimal, IsDigits, decimal-IsDigits, int_digits-decimal}
use cxlkvs.Py.Regex.{Groups, match_head, search_any, run, is_char, spaces, Pattern, lit}
use cxlkvs.Py.Regex.Laws.{Stops, search_any-skip}
use cxlkvs.Py.Regex.Fields.{
  IsNumber, is_num_char, run_space, run_number, run_field, number-Stops_space, num_fields,
}
use cxlkvs.Microbench.Batch.Params.{Params, row_then, param_line}
use cxlkvs.Microbench.Batch.Output.{
  param_pattern, elapsed_pattern, latency_pattern, peeks_pattern, read_params, number_text,
  comma_then,
}
use cxlkvs.Microbench.Batch.Output.Printed.{
  print_param, print_total, print_elapsed, print_mean, print_peeks, IsNoise,
}

abbrev pub param_groups : Params → Groups
param_groups p =
    decimal p.count
    ∷ decimal p.num_threads
    ∷ decimal p.num_xstreams
    ∷ decimal p.latency
    ∷ decimal p.num_chases
    ∷ decimal p.memory_time
    ∷ decimal p.io_time_pre
    ∷ decimal p.io_time_post
    ∷ decimal p.io_mode
    ∷ decimal p.prefetch_mode
    ∷ []

run_row :
    (p : Params) (cur rest : Text)
    → run (num_fields 10) [] cur (b' ' ∷ row_then p (b'\n' ∷ [])) ≡ some (param_groups p)
unfolding row_then
run_row p cur rest = run_field (num_fields 9) _ p.count _ _ refl (
    run_field (num_fields 8) _ p.num_threads _ _ refl (
      run_field (num_fields 7) _ p.num_xstreams _ _ refl (
        run_field (num_fields 6) _ p.latency _ _ refl (
          run_field (num_fields 5) _ p.num_chases _ _ refl (
            run_field (num_fields 4) _ p.memory_time _ _ refl (
              run_field (num_fields 3) _ p.io_time_pre _ _ refl (
                run_field (num_fields 2) _ p.io_time_post _ _ refl (
                  run_field (num_fields 1) _ p.io_mode _ _ refl (
                    run_field (num_fields 0) _ p.prefetch_mode _ _ refl
                      (unfold run in refl))))))))))

pub search_any-print_param :
    (p : Params) → search_any param_pattern (print_param p) ≡ some (param_groups p)
unfolding search_any print_param param_line
search_any-print_param p = rw (run_row p (codes "param") [])

pub read_params-groups : (p : Params) → read_params (param_groups p) ≡ ok p
unfolding read_params
read_params-groups p = simp int_digits-decimal

-- A decimal or a printed fraction holds no `p`, so a search for `param` passes over it.
digit_not_p : (c : ℕ) → is_digit c ≡ true → is_char b'p' c ≡ false
digit_not_p c h = ground arith

num_char_not_p : (c : ℕ) → is_num_char c ≡ true → is_char b'p' c ≡ false
num_char_not_p c h = ground arith

digits_not_p : (t : Text) → IsDigits t → All (λ c. is_char b'p' c ≡ false) t
digits_not_p [] h = tt
digits_not_p (c ∷ t) h = (digit_not_p c h.0, digits_not_p t h.1)

number_not_p : (t : Text) → All (λ c. is_num_char c ≡ true) t → All (λ c. is_char b'p' c ≡ false) t
number_not_p [] h = tt
number_not_p (c ∷ t) h = (num_char_not_p c h.0, number_not_p t h.1)

pub skip_number :
    (t rest : Text)
    → IsNumber t
    → search_any param_pattern (t ++ rest) ≡ search_any param_pattern rest
skip_number t rest h =
    search_any-skip (is_char b'p') (lit "aram" ++ num_fields 10) t rest (number_not_p t h.1)

pub print_total-IsNoise : (n : ℕ) → IsNoise (print_total n)
unfolding print_total search_any
print_total-IsNoise n = record {
  no_param =
      search_any-skip (is_char b'p') (lit "aram" ++ num_fields 10) (decimal n) (codes " ops\n")
        (digits_not_p _ (decimal-IsDigits n));
  no_elapsed = refl;
  no_latency = refl;
  no_peeks = refl;
}

pub print_mean-IsNoise : (t : Text) → IsNumber t → IsNoise (print_mean t)
unfolding print_mean search_any
print_mean-IsNoise t h = record {
  no_param = skip_number t (codes " usec\n") h;
  no_elapsed = refl;
  no_latency = refl;
  no_peeks = refl;
}

module _ (ps : Pattern) (gs : Groups) where
  -- `\s+=\s+` over " = "
  pub run_equals :
      (cur rest : Text) {g : Groups}
      → Stops is_space rest
      → run ps gs (((cur ++ b' ' ∷ []) ++ b'=' ∷ []) ++ b' ' ∷ []) rest ≡ some g
      → run (spaces ++ (lit "=" ++ (spaces ++ ps))) gs cur (b' ' ∷ b'=' ∷ b' ' ∷ rest) ≡ some g
  run_equals cur rest st h =
      run_space (lit "=" ++ (spaces ++ ps)) gs cur (b'=' ∷ b' ' ∷ rest) refl
        (unfold run in run_space ps gs ((cur ++ b' ' ∷ []) ++ b'=' ∷ []) rest st h)

  pub run_comma :
      (t cur rest : Text) {g : Groups}
      → IsNumber t
      → Stops is_space rest
      → run ps (gs ++ t ∷ []) ((t ++ b',' ∷ []) ++ b' ' ∷ []) rest ≡ some g
      → run (comma_then ps) gs cur (t ++ b',' ∷ b' ' ∷ rest) ≡ some g
  run_comma t cur rest n st h =
      run_number (lit "," ++ (spaces ++ ps)) gs t cur (b',' ∷ b' ' ∷ rest) n refl
        (unfold run in run_space ps (gs ++ t ∷ []) (t ++ b',' ∷ []) rest st h)

module _ (t th : Text) (ht : IsNumber t) (hth : IsNumber th) where
  pub search_any-print_elapsed : search_any param_pattern (print_elapsed t th) ≡ none
  unfolding print_elapsed search_any
  search_any-print_elapsed =
      skip_number t (codes " sec, throughput " ++ (th ++ codes " kops/sec\n")) ht
      ∙ skip_number th (codes " kops/sec\n") hth

  run_elapsed :
      (cur rest : Text)
      → run
          (spaces ++ (lit "=" ++ (spaces ++ (number_text ++ (spaces ++ lit "sec")))))
          []
          cur
          (b' ' ∷ b'=' ∷ b' ' ∷ (t ++ (codes " sec" ++ rest)))
        ≡ some (t ∷ [])
  run_elapsed cur rest =
      run_equals (number_text ++ (spaces ++ lit "sec")) [] cur (t ++ (codes " sec" ++ rest))
        (number-Stops_space t _ ht)
        (run_number (spaces ++ lit "sec") [] t _ (codes " sec" ++ rest) ht refl
          (run_space (lit "sec") (t ∷ []) t (codes "sec" ++ rest) refl (unfold run in refl)))

  pub match_head-print_elapsed : match_head elapsed_pattern (print_elapsed t th) ≡ some (t ∷ [])
  unfolding print_elapsed match_head
  match_head-print_elapsed =
      run_elapsed (codes "elapsed time") (codes ", throughput " ++ (th ++ codes " kops/sec\n"))

module _ (t : Text) (ht : IsNumber t) where
  pub search_any-print_peeks : search_any param_pattern (print_peeks t) ≡ none
  unfolding print_peeks search_any
  search_any-print_peeks = skip_number t (codes "\n") ht

  pub match_head-print_peeks : match_head peeks_pattern (print_peeks t) ≡ some (t ∷ [])
  unfolding print_peeks match_head
  match_head-print_peeks =
      run_equals number_text [] (codes "average num peeks per IO") (t ++ codes "\n")
        (number-Stops_space t (codes "\n") ht)
        (run_number [] [] t (codes "average num peeks per IO = ") (codes "\n") ht refl
          (unfold run in refl))

  pub print_peeks-others :
      (match_head elapsed_pattern (print_peeks t) ≡ none)
      × (match_head latency_pattern (print_peeks t) ≡ none)
  unfolding print_peeks match_head
  print_peeks-others = (refl, refl)
