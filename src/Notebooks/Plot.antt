-- ===== src/Notebooks/Plot.antt =====
-- notebooks/utils/plot.py: what `plot_with_models` returns. Of drawing, what matplotlib
-- raises is a parameter, `Pyplot`.
pub mod Bars
pub mod Lengths
pub mod Timed
pub mod Ordered
pub mod Raises
mod Tests
use cxlkvs.Prelude.{
  ℕ, zero, suc, ◌+◌, ◌-◌, Bool, true, false, Option, none, some, List, [], ◌∷◌, ◌++◌, map, length,
  get_elem?, ltb, nat_eq, text_eq, ◌==◌, if◌then◌else◌,
}
use cxlkvs.Py.Text.{Text, codes}
use cxlkvs.Py.Num.{Num, true_div}
use cxlkvs.Py.Result.{Result, ok, err, index_error, unbound_local}
use cxlkvs.Py.Dict
use cxlkvs.Py.Dict.{Dict}
use cxlkvs.Notebooks.Plot.Bars.{Pyplot}
use cxlkvs.Model.{
  and_then, worst, best, probabilistic, Outcome, done, out_of_fuel, OpTimeModel, Args,
  reciprocal_throughput,
}

-- 0 stands for DRAM
unfoldable pub plotted_latency : ℕ → ℕ
plotted_latency latency = if latency == 0 then 100 else latency

unfoldable pub label_of : Text → Text
label_of name = codes "Model (" ++ name ++ codes ")"

module _ (num : Num) where
  open num use {F, of_nat, div}

  -- the arguments of `reciprocal_throughput` but the latency, and those of the models
  pub record Setting : Type 0 where
    pub num_chases : F
    pub memory_time : F
    pub io_time_pre : F
    pub io_time_post : F
    pub switch_time : F
    pub num_prefetches : ℕ

  abbrev pub args_at : Setting → ℕ → Args num
  args_at s latency = record {
    num_memory_accesses = s.num_chases;
    memory_time = s.memory_time;
    io_time_pre = s.io_time_pre;
    io_time_post = s.io_time_post;
    memory_latency = of_nat latency;
  }

  unfoldable pub model_list : Setting → List (OpTimeModel num × Text)
  model_list s =
      (
        record { kind = worst; switch_time = s.switch_time; num_prefetches = s.num_prefetches },
        codes "worst",
      )
      ∷ (
        record {
          kind = probabilistic;
          switch_time = s.switch_time;
          num_prefetches = s.num_prefetches;
        },
        codes "prob",
      )
      ∷ (
        record { kind = best; switch_time = s.switch_time; num_prefetches = s.num_prefetches },
        codes "best",
      )
      ∷ []

  -- the loop over `latency_list` for one model
  unfoldable pub model_perf : Setting → OpTimeModel num → List ℕ → Outcome (Result (List F))
  unfolding and_then
  model_perf s m [] = done (ok [])
  model_perf s m (latency ∷ ls) =
      and_then (reciprocal_throughput num m (args_at s (plotted_latency latency))) λ t.
        and_then (done (true_div num (of_nat 1000000000) t))
          λ perf. and_then (model_perf s m ls) λ rest. done (ok (perf ∷ rest))

  -- `np.array(perf) / perf[0]`, which does not raise at a zero
  unfoldable pub normalized : Bool → List F → Result (List F)
  normalized false perf = ok perf
  normalized true [] = err index_error
  normalized true (p ∷ ps) = ok (map (λ x. div x p) (p ∷ ps))

  -- `MODEL_LIST[j]` in the loop over `latency_list`: without a latency, `m` is unassigned behind it.
  unfoldable pub model_bars :
      Setting → List ℕ → Option (OpTimeModel num × Text) → Outcome (Result (Text × List F))
  unfolding and_then
  model_bars s [] m = done (err unbound_local)
  model_bars s (l ∷ ls) none = done (err index_error)
  model_bars s (l ∷ ls) (some m) =
      and_then (model_perf s m.0 (l ∷ ls)) λ perf. done (ok (label_of m.1, perf))

  -- the label and the bars of the round `i`
  unfoldable pub bars : Setting → List ℕ → List F → Text → ℕ → ℕ → Outcome (Result (Text × List F))
  unfolding model_bars
  bars s latency_list throughputs eval_label pos i =
      if i == pos
      then done (ok (eval_label, throughputs))
      else model_bars s latency_list (get_elem? (model_list s) (if ltb i pos then i else i - 1))

  module _ (plt : Pyplot F) where
    -- the rounds from `i`, of which `left` are left
    unfoldable pub plot_from :
        Setting
        → List ℕ
        → List F
        → Text
        → ℕ
        → Bool
        → ℕ
        → ℕ
        → Dict Text (List F)
        → Outcome (Result (Dict Text (List F)))
    unfolding and_then
    plot_from s latency_list throughputs eval_label pos normalize zero i d = done (ok d)
    plot_from s latency_list throughputs eval_label pos normalize (suc left) i d =
        and_then (bars s latency_list throughputs eval_label pos i) λ b.
          and_then (done (normalized normalize b.1)) λ perf.
            and_then (done (plt.bar (length latency_list) perf)) λ drawn.
              plot_from s latency_list throughputs eval_label pos normalize left (i + 1)
                (Dict.put b.0 perf d)

    unfoldable pub plot_with_models :
        Setting → List ℕ → List F → Text → ℕ → Bool → Outcome (Result (Dict Text (List F)))
    unfolding plot_from
    plot_with_models s latency_list throughputs eval_label pos normalize =
        plot_from s latency_list throughputs eval_label pos normalize (length (model_list s) + 1) 0
          []
