-- ===== src/Microbench/Batch/Output/Printed.antt =====
-- The lines that microbench/src/main.c prints for one run.
use cxlkvs.Prelude.{ℕ, ◌≡◌, none, List, [], ◌∷◌, ◌++◌, All}
use cxlkvs.Py.Text.{Text, codes}
use cxlkvs.Py.Decimal.{decimal}
use cxlkvs.Py.Regex.{match_head, search_any}
use cxlkvs.Py.Regex.Fields.{IsNumber}
use cxlkvs.Microbench.Batch.Params.{Params, param_line}
use cxlkvs.Microbench.Batch.Output.{
  Percentiles, param_pattern, elapsed_pattern, latency_pattern, peeks_pattern,
}

-- What a run measures, each number as it is printed, the lines before it, and those of the script that
-- sets the latency.
pub record Measured : Type 0 where
  pub noise : List Text
  pub params : Params
  pub script : List Text
  pub total : ℕ
  pub elapsed : Text
  pub throughput : Text
  pub percentiles : Percentiles
  pub mean : Text
  pub peeks : Text

-- "param %d %d %d %d %d %d %d %d %d %d\n"
unfoldable pub print_param : Params → Text
print_param p = codes "param " ++ param_line p

-- "total %d ops\n"
unfoldable pub print_total : ℕ → Text
print_total n = codes "total " ++ (decimal n ++ codes " ops\n")

-- "elapsed time = %f sec, throughput %.1f kops/sec\n"
unfoldable pub print_elapsed : Text → Text → Text
print_elapsed t th =
    codes "elapsed time = " ++ (t ++ (codes " sec, throughput " ++ (th ++ codes " kops/sec\n")))

-- "op latency = %f, %f, %f, %f, %f, %f usec\n"
unfoldable pub print_latency : Percentiles → Text
print_latency q =
    codes "op latency = "
    ++ (q.p50
        ++ (codes ", "
            ++ (q.p90
                ++ (codes ", "
                    ++ (q.p99
                        ++ (codes ", "
                            ++ (q.p999
                                ++ (codes ", "
                                    ++ (q.p9999
                                        ++ (codes ", " ++ (q.p99999 ++ codes " usec\n")))))))))))

-- "average op latency = %f usec\n"
unfoldable pub print_mean : Text → Text
print_mean t = codes "average op latency = " ++ (t ++ codes " usec\n")

-- "average num peeks per IO = %.1f\n"
unfoldable pub print_peeks : Text → Text
print_peeks t = codes "average num peeks per IO = " ++ (t ++ codes "\n")

-- what is printed behind the parameters, the script's lines aside
unfoldable pub print_measured : Measured → List Text
unfolding print_total print_elapsed print_latency print_mean print_peeks
print_measured m =
    print_total m.total
    ∷ print_elapsed m.elapsed m.throughput
    ∷ print_latency m.percentiles
    ∷ print_mean m.mean
    ∷ print_peeks m.peeks
    ∷ []

unfoldable pub print_run : Measured → List Text
unfolding print_param print_measured
print_run m = m.noise ++ (print_param m.params ∷ (m.script ++ print_measured m))

-- The runs in their order, and what is printed behind the last.
unfoldable pub print_log : List Measured → List Text → List Text
print_log [] tail = tail
print_log (m ∷ ms) tail = print_run m ++ print_log ms tail

-- A line that none of the four patterns matches.
pub record IsNoise (line : Text) : Type 0 where
  pub no_param : search_any param_pattern line ≡ none
  pub no_elapsed : match_head elapsed_pattern line ≡ none
  pub no_latency : match_head latency_pattern line ≡ none
  pub no_peeks : match_head peeks_pattern line ≡ none

-- The measured texts are digits and points, and the other lines of the run are noise.
pub record IsPrinted (m : Measured) : Type 0 where
  pub noise : All IsNoise m.noise
  pub script : All IsNoise m.script
  pub elapsed : IsNumber m.elapsed
  pub throughput : IsNumber m.throughput
  pub p50 : IsNumber m.percentiles.p50
  pub p90 : IsNumber m.percentiles.p90
  pub p99 : IsNumber m.percentiles.p99
  pub p999 : IsNumber m.percentiles.p999
  pub p9999 : IsNumber m.percentiles.p9999
  pub p99999 : IsNumber m.percentiles.p99999
  pub mean : IsNumber m.mean
  pub peeks : IsNumber m.peeks
