-- ===== src/Notebooks/Plot/Timed.antt =====
-- The values of the models in notebooks/utils/plot.py: best case above worst case.
use cxlkvs.Prelude.{ℕ, ◌≡◌, refl, true, false, List, [], ◌∷◌, text_eq, nat_eq}
use cxlkvs.Py.Num.{Num}
use cxlkvs.Py.Result.{ok, Pointwise}
use cxlkvs.Model.{and_then, base, worst, best, done, OpTimeModel, reciprocal_throughput}
use cxlkvs.Model.Order.{IsAntitone, above, Le, IsMonotone, of_kind, base-best-worst}
use cxlkvs.Notebooks.Plot.{Setting, args_at, plotted_latency, model_perf}

module _ (num : Num) where
  open num use {F, of_nat, add, div, less, same}

  abbrev pub base_model : Setting num → OpTimeModel num
  base_model s = record {
    kind = base;
    switch_time = s.switch_time;
    num_prefetches = s.num_prefetches;
  }

  -- With at least one prefetch, times that are not negative, and a base time above zero.
  pub record IsTimed (s : Setting num) : Type 0 where
    pub prefetches : same (of_nat s.num_prefetches) (of_nat 0) ≡ false
    pub switch_time : Le num (of_nat 0) s.switch_time
    pub memory_time : Le num (of_nat 0) s.memory_time
    pub io_time_pre : Le num (of_nat 0) s.io_time_pre
    pub io_time_post : Le num (of_nat 0) s.io_time_post
    pub base_time :
        (latency : ℕ) (t : F)
        → reciprocal_throughput num (base_model s) (args_at num s latency) ≡ done (ok t)
        → less (of_nat 0) t ≡ true

  module _ (laws : IsMonotone num) (anti : IsAntitone num) (s : Setting num)
      (timed : IsTimed s) where
    pub model_perf-Ordered :
        (ls : List ℕ)
        → (ws bs : List F) × (model_perf num s (of_kind num worst (base_model s)) ls ≡ done (ok ws))
          × (model_perf num s (of_kind num best (base_model s)) ls ≡ done (ok bs))
          × Pointwise (Le num) ws bs
    unfolding model_perf and_then
    model_perf-Ordered [] = ([], [], refl, refl, tt)
    model_perf-Ordered (l ∷ ls) =
        let (ws, bs, we, be, le) = model_perf-Ordered ls in
        let (x, y, z, xe, ye, ze, xy, yz) =
          base-best-worst num laws (base_model s) (args_at num s (plotted_latency l))
            timed.prefetches
            (record {
              switch_time = timed.switch_time;
              memory_time = timed.memory_time;
              io_time_pre = timed.io_time_pre;
              io_time_post = timed.io_time_post;
              memory_latency = laws.of_nat_nonneg (plotted_latency l);
            }) in
        let y_above = above num laws x y (timed.base_time (plotted_latency l) x xe) xy in
        let z_above = above num laws y z y_above yz in
        (
          div (of_nat 1000000000) z ∷ ws,
          div (of_nat 1000000000) y ∷ bs,
          rw (ze, anti.above_zero z z_above, we),
          rw (ye, anti.above_zero y y_above, be),
          (anti.div_anti 1000000000 y z y_above yz, le),
        )
