-- ===== src/Notebooks/Plot/Bars.antt =====
-- notebooks/utils/plot.py: the labels and the heights of `plot_throughputs`, `plot_core_scaling` and
-- `plot_latencies`. What matplotlib raises is a parameter, `Pyplot`.
pub mod Values
pub mod Exact
use cxlkvs.Prelude.{ℕ, ◌+◌, ◌≡◌, List, [], ◌∷◌, ◌++◌, map, length, nat_eq, ◌==◌, if◌then◌else◌}
use cxlkvs.Py.Text.{Text, codes}
use cxlkvs.Py.Decimal.{decimal}
use cxlkvs.Py.Num.{Num}
use cxlkvs.Py.Result.{Result, ok, err, zero_division, ◌>>=◌}
use cxlkvs.Py.Dict.{Dict}
use cxlkvs.Notebooks.Rows.{item}

-- `plt.plot(x, y)`, and `plt.bar(x, y)` at a number of positions
pub record Pyplot (F : Type 0) : Type 0 where
  pub plot : List F → List F → Result {0} Unit
  pub bar : ℕ → List F → Result {0} Unit

-- They draw what has as many values as positions.
pub record IsPyplot {F : Type 0} (plt : Pyplot F) : Type 0 where
  pub plot_ok : (xs ys : List F) → length xs ≡ length ys → plt.plot xs ys ≡ ok tt
  pub bar_ok : (n : ℕ) (ys : List F) → length ys ≡ n → plt.bar n ys ≡ ok tt

-- COLOR_LIST, in hundredths
abbrev pub color_list : List (ℕ × ℕ × ℕ)
color_list = (74, 74, 13) ∷ (41, 53, 10) ∷ (7, 33, 7) ∷ []

-- `one_decimal` is `'%.1f' % x`.
module _ (num : Num) (one_decimal : num.F → Text) (plt : Pyplot num.F) where
  open num use {F, of_nat, mul, div}

  -- 1e-6
  abbrev pub millionth : F
  millionth = div (of_nat 1) (of_nat 1000000)

  -- the label of a latency, where a mark stands between the kind of memory and the number
  unfoldable pub latency_label : Text → ℕ → Text
  latency_label mark lat =
      if lat == 0
      then codes "DRAM" ++ mark ++ codes "0.1"
      else codes "CXL" ++ mark ++ one_decimal (div (of_nat lat) (of_nat 1000))

  abbrev pub tick_label : ℕ → Text
  tick_label = latency_label (codes "\n")

  -- the loop of `plot_throughputs`
  unfoldable pub throughput_bars : List ℕ → List F → List (Text × F)
  unfolding latency_label
  throughput_bars [] ts = []
  throughput_bars (lat ∷ lats) [] = []
  throughput_bars (lat ∷ lats) (t ∷ ts) =
      (tick_label lat, mul t millionth) ∷ throughput_bars lats ts

  unfoldable pub plot_throughputs : List ℕ → List F → Result (List (Text × F))
  unfolding throughput_bars
  plot_throughputs mem_latency_list throughput_list = do
    let bars = throughput_bars mem_latency_list throughput_list
    drawn ← plt.bar (length bars) (map (λ b. b.1) bars)
    ok bars

  -- the curves of `plot_core_scaling`
  unfoldable pub plot_core_scaling : List F → Dict ℕ (List F) → Result (List (Text × List F))
  unfolding latency_label
  plot_core_scaling num_cores_list [] = ok []
  plot_core_scaling num_cores_list ((lat, t) ∷ throughput_dict) = do
    let ys = map (λ x. mul x millionth) t
    drawn ← plt.plot num_cores_list ys
    curves ← plot_core_scaling num_cores_list throughput_dict
    ok ((latency_label (codes " ") lat, ys) ∷ curves)

  -- `opl['latency_p%d' % p]` of a run
  module _ {A : Type 0} (latency_p : ℕ → A → Result F) (batch : F) where
    -- the inner loop of `plot_latencies`, where `batch` is not zero
    unfoldable pub latency_row : ℕ → List ℕ → List A → Result (List F)
    latency_row p [] op_latency_list = ok []
    latency_row p (ml ∷ mem_latency_list) [] = ok []
    latency_row p (ml ∷ mem_latency_list) (opl ∷ op_latency_list) = do
      x ← latency_p p opl
      y ← latency_row p mem_latency_list op_latency_list
      ok (div x batch ∷ y)

    -- the outer loop, from the round `i`
    unfoldable pub latency_bars : List ℕ → List A → ℕ → List ℕ → Result (List (Text × List F))
    unfolding latency_row item
    latency_bars mem_latency_list op_latency_list i [] = ok []
    latency_bars mem_latency_list op_latency_list i (p ∷ p_list) = do
      y ← latency_row p mem_latency_list op_latency_list
      color ← item color_list i
      drawn ← plt.bar (length mem_latency_list) y
      bars ← latency_bars mem_latency_list op_latency_list (i + 1) p_list
      ok ((codes "P" ++ decimal p, y) ∷ bars)

    -- `0.7 / len(p_list)` raises without a percentile.
    unfoldable pub plot_latencies : List ℕ → List A → List ℕ → Result (List (Text × List F))
    unfolding latency_bars
    plot_latencies mem_latency_list op_latency_list [] = err zero_division
    plot_latencies mem_latency_list op_latency_list (p ∷ p_list) =
        latency_bars mem_latency_list op_latency_list 0 (p ∷ p_list)
