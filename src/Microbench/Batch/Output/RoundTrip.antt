-- ===== src/Microbench/Batch/Output/RoundTrip.antt =====
-- `parse_output` reads back the runs of a printed log.
use cxlkvs.Prelude.{
  ℕ, ◌≡◌, sym, ◌∙◌, refl, ap, some, List, [], ◌∷◌, ◌++◌, All, map, append_assoc, append-nil,
}
use cxlkvs.Py.Text.{Text}
use cxlkvs.Py.Result.{ok, ◌>>=◌}
use cxlkvs.Microbench.Batch.Params.{Params}
use cxlkvs.Microbench.Batch.Output.{
  num, text, Run, Locals, make_run, read_percentiles, read_text, parse_line, parse_lines,
  parse_output,
}
use cxlkvs.Microbench.Batch.Output.Printed.{
  Measured, IsNoise, IsPrinted, print_param, print_elapsed, print_latency, print_peeks, print_run,
  print_measured, print_log,
}
use cxlkvs.Microbench.Batch.Output.Lines.{
  search_any-print_param, read_params-groups, print_total-IsNoise, print_mean-IsNoise,
  search_any-print_elapsed, match_head-print_elapsed, search_any-print_peeks,
  match_head-print_peeks, print_peeks-others,
}
use cxlkvs.Microbench.Batch.Output.Latency.{
  IsMeasured, search_any-print_latency, match_head-print_latency, print_latency-others,
}

module _ (filename : Text) (chain_size access_size : ℕ) where
  line-noise :
      (l : Locals) (line : Text)
      → IsNoise line
      → parse_line filename chain_size access_size l line ≡ ok l
  unfolding parse_line
  line-noise l line h = rw (h.no_param, h.no_elapsed, h.no_latency, h.no_peeks)

  line-param :
      (l : Locals) (p : Params)
      → parse_line filename chain_size access_size l (print_param p)
        ≡ ok (record l { params = some p })
  unfolding parse_line
  line-param l p = rw (search_any-print_param p) (rw (read_params-groups p))

  line-elapsed :
      (l : Locals) (m : Measured)
      → IsPrinted m
      → parse_line filename chain_size access_size l (print_elapsed m.elapsed m.throughput)
        ≡ ok (record l { elapsed_time = some m.elapsed })
  unfolding parse_line read_text
  line-elapsed l m h = rw (
    search_any-print_elapsed m.elapsed m.throughput h.elapsed h.throughput,
    match_head-print_elapsed m.elapsed m.throughput h.elapsed h.throughput,
  )

  measured : (m : Measured) → IsPrinted m → IsMeasured m.percentiles
  measured m h = record {
    p50 = h.p50;
    p90 = h.p90;
    p99 = h.p99;
    p999 = h.p999;
    p9999 = h.p9999;
    p99999 = h.p99999;
  }

  line-latency :
      (l : Locals) (m : Measured)
      → IsPrinted m
      → parse_line filename chain_size access_size l (print_latency m.percentiles)
        ≡ ok (record l { percentiles = some m.percentiles })
  unfolding parse_line read_percentiles
  line-latency l m h =
      let q = measured m h in
      rw (
        search_any-print_latency m.percentiles q,
        print_latency-others m.percentiles q,
        match_head-print_latency m.percentiles q,
      )

  -- the values that a run is printed with, under their names
  abbrev pub run_of : Measured → Run
  run_of m =
      ("filename", text filename)
      ∷ ("chain_size", num chain_size)
      ∷ ("access_size", num access_size)
      ∷ ("count", num m.params.count)
      ∷ ("num_threads", num m.params.num_threads)
      ∷ ("num_xstreams", num m.params.num_xstreams)
      ∷ ("latency", num m.params.latency)
      ∷ ("num_chases", num m.params.num_chases)
      ∷ ("memory_time", num m.params.memory_time)
      ∷ ("io_time_pre", num m.params.io_time_pre)
      ∷ ("io_time_post", num m.params.io_time_post)
      ∷ ("io_mode", num m.params.io_mode)
      ∷ ("prefetch_mode", num m.params.prefetch_mode)
      ∷ ("time", text m.elapsed)
      ∷ ("p50", text m.percentiles.p50)
      ∷ ("p90", text m.percentiles.p90)
      ∷ ("p99", text m.percentiles.p99)
      ∷ ("p999", text m.percentiles.p999)
      ∷ ("p9999", text m.percentiles.p9999)
      ∷ ("p99999", text m.percentiles.p99999)
      ∷ ("num_peeks", text m.peeks)
      ∷ []

  abbrev made : Measured → Run
  made m = make_run filename chain_size access_size m.params m.elapsed m.percentiles m.peeks

  abbrev after : Locals → Measured → Locals
  after l m = record {
    params = some m.params;
    elapsed_time = some m.elapsed;
    percentiles = some m.percentiles;
    results = l.results ++ made m ∷ [];
  }

  line-peeks :
      (r : List Run) (m : Measured)
      → IsPrinted m
      → parse_line filename chain_size access_size
          (record {
            params = some m.params;
            elapsed_time = some m.elapsed;
            percentiles = some m.percentiles;
            results = r;
          })
          (print_peeks m.peeks)
        ≡ ok (record {
          params = some m.params;
          elapsed_time = some m.elapsed;
          percentiles = some m.percentiles;
          results = r ++ made m ∷ [];
        })
  unfolding parse_line
  line-peeks r m h = rw (
    search_any-print_peeks m.peeks h.peeks,
    (print_peeks-others m.peeks h.peeks).0,
    (print_peeks-others m.peeks h.peeks).1,
    match_head-print_peeks m.peeks h.peeks,
  )

  skip_noise :
      (noise rest : List Text) (l : Locals)
      → All IsNoise noise
      → parse_lines filename chain_size access_size l (noise ++ rest)
        ≡ parse_lines filename chain_size access_size l rest
  unfolding parse_lines
  skip_noise [] rest l h = refl
  skip_noise (line ∷ noise) rest l h = rw (line-noise l line h.0) (skip_noise noise rest l h.1)

  step :
      (l l' : Locals) (line : Text) (rest : List Text)
      → parse_line filename chain_size access_size l line ≡ ok l'
      → parse_lines filename chain_size access_size l (line ∷ rest)
        ≡ parse_lines filename chain_size access_size l' rest
  unfolding parse_lines
  step l l' line rest e = rw e

  parse_lines-print_measured :
      (l : Locals) (m : Measured) (rest : List Text)
      → IsPrinted m
      → l.params ≡ some m.params
      → parse_lines filename chain_size access_size l (print_measured m ++ rest)
        ≡ parse_lines filename chain_size access_size (after l m) rest
  unfolding print_measured
  parse_lines-print_measured l m rest h e =
      let l1 : Locals = record l { params = some m.params } in
      let l2 : Locals = record l1 { elapsed_time = some m.elapsed } in
      let l3 : Locals = record l2 { percentiles = some m.percentiles } in
      step l l _ _ (line-noise l _ (print_total-IsNoise m.total))
      ∙ rw e (
          step l1 l2 _ _ (line-elapsed l1 m h)
          ∙ step l2 l3 _ _ (line-latency l2 m h)
          ∙ step l3 l3 _ _ (line-noise l3 _ (print_mean-IsNoise m.mean h.mean))
          ∙ step l3 (after l m) _ _ (line-peeks l.results m h))

  parse_lines-print_run :
      (l : Locals) (m : Measured) (rest : List Text)
      → IsPrinted m
      → parse_lines filename chain_size access_size l (print_run m ++ rest)
        ≡ parse_lines filename chain_size access_size (after l m) rest
  unfolding print_run
  parse_lines-print_run l m rest h =
      let l1 : Locals = record l { params = some m.params } in
      rw (append_assoc m.noise) (
        skip_noise m.noise _ l h.noise
        ∙ step l l1 _ _ (line-param l m.params)
        ∙ rw (append_assoc m.script)
            (skip_noise m.script _ l1 h.script ∙ parse_lines-print_measured l1 m rest h refl))

  results-print_log :
      (ms : List Measured) (tail : List Text) (l : Locals)
      → All IsPrinted ms
      → All IsNoise tail
      → (parse_lines filename chain_size access_size l (print_log ms tail) >>= λ l'. ok l'.results)
        ≡ ok (l.results ++ map made ms)
  unfolding parse_lines print_log
  results-print_log [] tail l h k =
      rw (rw append-nil at (skip_noise tail [] l k)) (ap ok (sym (append-nil l.results)))
  results-print_log (m ∷ ms) tail l h k = rw (parse_lines-print_run l m (print_log ms tail) h.0) (
      rw (results-print_log ms tail (after l m) h.1 k)
        (ap ok (append_assoc l.results (made m ∷ []) (map made ms))))

  map-made : (ms : List Measured) → map made ms ≡ map run_of ms
  unfolding make_run
  map-made [] = refl
  map-made (m ∷ ms) = ap (λ runs. run_of m ∷ runs) (map-made ms)

  -- The runs of a printed log are read back, each with the values that it was printed with, in
  -- their order, whatever lines that no pattern matches stand before each run, behind its parameters, and
  -- behind the last run.
  pub parse_output-print_log :
      (ms : List Measured) (tail : List Text)
      → All IsPrinted ms
      → All IsNoise tail
      → parse_output filename chain_size access_size (print_log ms tail) ≡ ok (map run_of ms)
  unfolding parse_output
  parse_output-print_log ms tail h k = results-print_log ms tail _ h k ∙ ap ok (map-made ms)
