-- ===== src/Microbench/Batch/Output/Latency.antt =====
-- What the patterns do on the printed line of latency percentiles.
use cxlkvs.Prelude.{◌≡◌, ◌∙◌, refl, none, some, [], ◌∷◌, ◌++◌}
use cxlkvs.Py.Text.{Text, codes}
use cxlkvs.Py.Regex.{Pattern, Groups, spaces, lit, match_head, search_any, run}
use cxlkvs.Py.Regex.Fields.{IsNumber, run_space, run_number, number-Stops_space}
use cxlkvs.Microbench.Batch.Output.{
  Percentiles, param_pattern, elapsed_pattern, latency_pattern, comma_then, number_text,
}
use cxlkvs.Microbench.Batch.Output.Printed.{print_latency}
use cxlkvs.Microbench.Batch.Output.Lines.{run_equals, run_comma, skip_number}

pub record IsMeasured (q : Percentiles) : Type 0 where
  pub p50 : IsNumber q.p50
  pub p90 : IsNumber q.p90
  pub p99 : IsNumber q.p99
  pub p999 : IsNumber q.p999
  pub p9999 : IsNumber q.p9999
  pub p99999 : IsNumber q.p99999

abbrev pub latency_groups : Percentiles → Groups
latency_groups q = q.p50 ∷ q.p90 ∷ q.p99 ∷ q.p999 ∷ q.p9999 ∷ q.p99999 ∷ []

module _ (q : Percentiles) (h : IsMeasured q) where
  abbrev tail6 : Text
  tail6 = q.p99999 ++ codes " usec\n"

  abbrev tail5 : Text
  tail5 = q.p9999 ++ b',' ∷ b' ' ∷ tail6

  abbrev tail4 : Text
  tail4 = q.p999 ++ b',' ∷ b' ' ∷ tail5

  abbrev tail3 : Text
  tail3 = q.p99 ++ b',' ∷ b' ' ∷ tail4

  abbrev tail2 : Text
  tail2 = q.p90 ++ b',' ∷ b' ' ∷ tail3

  abbrev tail1 : Text
  tail1 = q.p50 ++ b',' ∷ b' ' ∷ tail2

  abbrev rest6 : Pattern
  rest6 = number_text ++ (spaces ++ lit "usec")

  abbrev rest5 : Pattern
  rest5 = comma_then rest6

  abbrev rest4 : Pattern
  rest4 = comma_then rest5

  abbrev rest3 : Pattern
  rest3 = comma_then rest4

  abbrev rest2 : Pattern
  rest2 = comma_then rest3

  run_latency :
      (cur : Text)
      → run
          (spaces ++ (lit "=" ++ (spaces ++ comma_then rest2)))
          []
          cur
          (b' ' ∷ b'=' ∷ b' ' ∷ tail1)
        ≡ some (latency_groups q)
  run_latency cur = run_equals (comma_then rest2) [] cur tail1 (number-Stops_space q.p50 _ h.p50) (
      run_comma rest2 _ q.p50 _ tail2 h.p50 (number-Stops_space q.p90 _ h.p90) (
        run_comma rest3 _ q.p90 _ tail3 h.p90 (number-Stops_space q.p99 _ h.p99) (
          run_comma rest4 _ q.p99 _ tail4 h.p99 (number-Stops_space q.p999 _ h.p999) (
            run_comma rest5 _ q.p999 _ tail5 h.p999 (number-Stops_space q.p9999 _ h.p9999) (
              run_comma rest6 _ q.p9999 _ tail6 h.p9999 (number-Stops_space q.p99999 _ h.p99999) (
                run_number (spaces ++ lit "usec") _ q.p99999 _ (codes " usec\n") h.p99999 refl (
                  run_space (lit "usec") _ q.p99999 (codes "usec\n") refl
                    (unfold run in refl))))))))

  pub match_head-print_latency :
      match_head latency_pattern (print_latency q) ≡ some (latency_groups q)
  unfolding print_latency match_head
  match_head-print_latency = run_latency (codes "op latency")

  pub search_any-print_latency : search_any param_pattern (print_latency q) ≡ none
  unfolding print_latency search_any
  search_any-print_latency =
      skip_number q.p50 (b',' ∷ b' ' ∷ tail2) h.p50
      ∙ skip_number q.p90 (b',' ∷ b' ' ∷ tail3) h.p90
      ∙ skip_number q.p99 (b',' ∷ b' ' ∷ tail4) h.p99
      ∙ skip_number q.p999 (b',' ∷ b' ' ∷ tail5) h.p999
      ∙ skip_number q.p9999 (b',' ∷ b' ' ∷ tail6) h.p9999
      ∙ skip_number q.p99999 (codes " usec\n") h.p99999

  pub print_latency-others : match_head elapsed_pattern (print_latency q) ≡ none
  unfolding print_latency match_head
  print_latency-others = refl
