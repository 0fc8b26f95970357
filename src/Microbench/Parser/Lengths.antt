-- ===== src/Microbench/Parser/Lengths.antt =====
-- `get_throughputs` returns one throughput for each latency.
use cxlkvs.Prelude.{String, ◌≡◌, refl, ap, suc, List, [], ◌∷◌, length, string_eq}
use cxlkvs.Prelude.Int.{ℤ}
use cxlkvs.Py.Num.{Num, true_div}
use cxlkvs.Py.Sort.{min_list}
use cxlkvs.Py.Result.{ok, bind_ok, ok_injective}
use cxlkvs.Py.Dict
use cxlkvs.Py.Dict.{Dict}
use cxlkvs.Microbench.Parser.{
  Cast, int, MicrobenchParser, get_perf, first_values, to_number, throughputs_from, get_throughputs,
}

module _ (nm : Num) (p : MicrobenchParser nm) where
  length-throughputs_from :
      (spec : Dict String (Cast nm.F)) (ls : List ℤ) (xs : List nm.F)
      → throughputs_from nm p spec ls ≡ ok xs
      → length xs ≡ length ls
  unfolding throughputs_from
  length-throughputs_from spec [] xs e = let same : [] ≡ xs = ok_injective e in rw (← same) refl
  length-throughputs_from spec (l ∷ ls) zs e =
      let spec' = Dict.put "latency" (int l) spec in
      let (times, (e1, f1)) = bind_ok (get_perf nm p spec' "time" ("num_threads" ∷ [])) _ zs e in
      let (count, (e2, f2)) = bind_ok (Dict.index "count" spec') _ zs f1 in
      let (t, (e3, f3)) = bind_ok (min_list nm.less times) _ zs f2 in
      let (c, (e4, f4)) = bind_ok (to_number nm count) _ zs f3 in
      let (x, (e5, f5)) = bind_ok (true_div nm c t) _ zs f4 in
      let (xs, (e6, f6)) = bind_ok (throughputs_from nm p spec' ls) _ zs f5 in
      rw (← (ok_injective f6)) (ap suc (length-throughputs_from spec' ls xs e6))

  pub length-get_throughputs :
      (ls : List ℤ) (c m x y : ℤ) (ts : List nm.F)
      → get_throughputs nm p ls c m x y ≡ ok ts
      → length ts ≡ length ls
  unfolding get_throughputs
  length-get_throughputs ls c m x y ts e =
      let (spec, (e1, e2)) = bind_ok (first_values nm p p.key_set []) _ ts e in
      length-throughputs_from _ ls ts e2
