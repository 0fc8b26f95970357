-- ===== src/Notebooks/Compared/Tests.antt =====
-- notebooks/microbench.ipynb on two runs, at numbers with eight decimal places.
use cxlkvs.Prelude.{ℕ, ◌≡◌, refl, some, none, List, [], ◌∷◌, arith, string_eq, nat_eq, text_eq}
use cxlkvs.Py.Text.{Text, codes}
use cxlkvs.Py.Dict
use cxlkvs.Py.Dict.{Dict}
use cxlkvs.Py.Result.{ok, err}
use cxlkvs.Microbench.Batch.Output.{Run, num}
use cxlkvs.Microbench.Parser.{MicrobenchParser, make_parser, get_values, get_throughputs}
use cxlkvs.Model.{
  done, out_of_fuel, reciprocal_throughput, combine, outer_loop, round, finish, start, memory_term,
  io_term, limit, comb, and_then, all_fit,
}
use cxlkvs.Model.Fixed.{fixed_num, fixed_num-IsOrdered}
use cxlkvs.Py.Sort
use cxlkvs.Notebooks.Plot
use cxlkvs.Notebooks.Plot.Bars.Exact.{exact}
use cxlkvs.Notebooks.Plot.{label_of, plot_with_models}
use cxlkvs.Notebooks.Compared.{
  Measurements, measurements, from_values, naturals, fold_loop, memory_time_offset, setting_of,
  base_time, head_of, add_plot, add_curves, perfs_of, report,
}
use cxlkvs.Notebooks.Compared.Aligned.{IsAligned}
use cxlkvs.Notebooks.Compared.Counted.{report-perfs_of}
use cxlkvs.Notebooks.Compared.Lines.{Line}

abbrev run_at : ℕ → ℕ → Run
run_at latency time =
    ("count", num 1000)
    ∷ ("num_threads", num 64)
    ∷ ("latency", num latency)
    ∷ ("num_chases", num 100)
    ∷ ("memory_time", num 1)
    ∷ ("io_time_pre", num 0)
    ∷ ("io_time_post", num 0)
    ∷ ("prefetch_mode", num 1)
    ∷ ("time", num time)
    ∷ []

abbrev mp : MicrobenchParser fixed_num
mp = elim (make_parser fixed_num ((run_at 0 1 ∷ []) ∷ (run_at 5000 2 ∷ []) ∷ [])) [
  | ok p ↦ p
  | err e ↦ record { tests = []; key_set = []; val_set_dict = [] }
]

abbrev asked : Measurements ℕ
asked = elim (measurements fixed_num mp) [
  | some m ↦ m
  | none ↦ record {
    latency_list = [];
    num_chases_list = [];
    memory_times = [];
    io_times_pre = [];
    io_times_post = [];
    throughputs = λ c t x y. ok [];
  }
]

abbrev perfs : Dict Text (List ℕ)
perfs = elim (perfs_of fixed_num exact asked) [
  | done r ↦ elim r [ ok d ↦ d | err e ↦ [] ]
  | out_of_fuel ↦ []
]

asked_found : measurements fixed_num mp ≡ some asked
unfolding measurements from_values naturals make_parser get_values Sort.sort Dict.get Dict.put
asked_found = refl

perfs_found : perfs_of fixed_num exact asked ≡ done (ok perfs)
unfolding measurements from_values naturals make_parser get_values perfs_of fold_loop
    memory_time_offset setting_of base_time head_of add_plot add_curves get_throughputs and_then
    reciprocal_throughput combine outer_loop all_fit round finish start memory_term io_term comb
    plot_with_models label_of Sort.sort Dict.get Dict.put Dict.index Sort.min_list Plot.model_list
    Plot.bars Plot.model_perf limit Plot.plotted_latency Plot.normalized
perfs_found = refl

report-perfs_of_example :
    (a : IsAligned fixed_num 2 perfs) × (lw : Text × ℕ × ℕ) × (lp : Text × ℕ × ℕ) × (lb : Text × ℕ
      × ℕ)
    × (report fixed_num perfs ≡ ok (lw ∷ lp ∷ lb ∷ []))
    × Line fixed_num a.worst a.measured (label_of (codes "worst")) lw
    × Line fixed_num a.prob a.measured (label_of (codes "prob")) lp
    × Line fixed_num a.best a.measured (label_of (codes "best")) lb
unfolding measurements from_values naturals make_parser get_values Sort.sort Dict.get Dict.put
report-perfs_of_example =
    report-perfs_of fixed_num fixed_num-IsOrdered exact mp asked perfs asked_found perfs_found
      (ground arith)
