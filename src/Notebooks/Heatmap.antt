-- ===== src/Notebooks/Heatmap.antt =====
-- notebooks/model.ipynb: the throughput of the probabilistic model over the memory latency and one other
-- parameter, in percent of the throughput without latency.
pub mod Falls
pub mod Values
mod Tests
use cxlkvs.Prelude.{
  ℕ, zero, suc, ◌+◌, ◌-◌, ◌%◌, List, [], ◌∷◌, map, nat_eq, ◌==◌, if◌then◌else◌, ◌++◌,
}
use cxlkvs.Py.Text.{Text}
use cxlkvs.Py.Num.{Num, true_div}
use cxlkvs.Py.Result.{Result, ok, err, zero_division, index_error, ◌>>=◌, traverse}
use cxlkvs.Model.{probabilistic, Outcome, done, and_then, OpTimeModel, Args, reciprocal_throughput}

abbrev pub width : ℕ
width = 301

abbrev pub step : ℕ
step = 30

-- The parameter that a heat map varies.
pub data Axis : Type 0 where
  memory_time_axis io_time_pre_axis io_time_post_axis num_memory_accesses_axis : Axis

-- the least and the greatest value, and the divisor of the labels
unfoldable pub range_of : Axis → ℕ × ℕ × ℕ
range_of memory_time_axis = (0, 1000, 1000)
range_of io_time_pre_axis = (0, 10000, 1000)
range_of io_time_post_axis = (0, 10000, 1000)
range_of num_memory_accesses_axis = (1, 20, 1)

module _ (num : Num) where
  open num use {F, of_nat, add, sub, mul, div, same}

  -- start + (end - start) * (i / (resolution - 1)), in a round, so that `resolution` is not 0
  unfoldable pub value_at : F → F → ℕ → ℕ → Result F
  value_at start end resolution i = do
    q ← true_div num (of_nat i) (of_nat (resolution - 1))
    ok (add start (mul (sub end start) q))

  -- what a round appends to `ticks`, where `format` is the format applied to a number
  unfoldable pub tick_at : ℕ → (F → Text) → F → ℕ → F → Result (List Text)
  tick_at zero format denominator i val = err zero_division
  tick_at (suc n) format denominator i val =
      if i % suc n == 0 then (do q ← true_div num val denominator; ok (format q ∷ [])) else ok []

  -- the rounds from `i`, of which `left` are left
  unfoldable pub set_values_from :
      F → F → ℕ → ℕ → (F → Text) → F → ℕ → ℕ → Result (List F × List Text)
  unfolding value_at tick_at
  set_values_from start end resolution tick_step format denominator zero i = ok ([], [])
  set_values_from start end resolution tick_step format denominator (suc left) i = do
    val ← value_at start end resolution i
    tick ← tick_at tick_step format denominator i val
    rest ← set_values_from start end resolution tick_step format denominator left (i + 1)
    ok (val ∷ rest.0, tick ++ rest.1)

  unfoldable pub set_values : F → F → ℕ → ℕ → (F → Text) → F → Result (List F × List Text)
  unfolding set_values_from
  set_values start end resolution tick_step format denominator =
      set_values_from start end resolution tick_step format denominator resolution 0

  unfoldable pub model : OpTimeModel num
  model = record { kind = probabilistic; switch_time = of_nat 50; num_prefetches = 12 }

  abbrev constants : F → Args num
  constants latency = record {
    num_memory_accesses = of_nat 10;
    memory_time = of_nat 100;
    io_time_pre = of_nat 2000;
    io_time_post = of_nat 2000;
    memory_latency = latency;
  }

  -- the arguments of a pixel
  unfoldable pub args_of : Axis → F → F → Args num
  args_of memory_time_axis v latency = record (constants latency) { memory_time = v }
  args_of io_time_pre_axis v latency = record (constants latency) { io_time_pre = v }
  args_of io_time_post_axis v latency = record (constants latency) { io_time_post = v }
  args_of num_memory_accesses_axis v latency = record (constants latency) {
    num_memory_accesses = v;
  }

  -- the inner loop: one row of `img`
  unfoldable pub pixels : (F → Args num) → List F → Outcome (Result (List F))
  unfolding and_then
  pixels args [] = done (ok [])
  pixels args (latency ∷ ls) = and_then (reciprocal_throughput num model (args latency)) λ t.
      and_then (done (true_div num (of_nat 1) t))
        λ pixel. and_then (pixels args ls) λ rest. done (ok (pixel ∷ rest))

  -- the outer loop
  unfoldable pub image : Axis → List F → List F → Outcome (Result (List (List F)))
  unfolding pixels args_of
  image axis [] latency_list = done (ok [])
  image axis (v ∷ vs) latency_list =
      and_then (pixels (args_of axis v) latency_list)
        λ row. and_then (image axis vs latency_list) λ rest. done (ok (row ∷ rest))

  -- `img *= 100 / img[:, 0, np.newaxis]`, at one row
  unfoldable pub percent : List F → Result (List F)
  percent [] = err index_error
  percent (p ∷ ps) = ok (map (λ x. mul x (div (of_nat 100) p)) (p ∷ ps))

  -- one heat map, with its labels
  unfoldable pub heatmap :
      (F → Text) → (F → Text) → Axis → Outcome (Result (List (List F) × List Text × List Text))
  unfolding image percent range_of
  heatmap xformat yformat axis =
      let (low, high, denominator) = range_of axis in
      and_then (done (set_values (of_nat 0) (of_nat 10000) width step xformat (of_nat 1000))) λ x.
        and_then
          (done (set_values (of_nat low) (of_nat high) width step yformat (of_nat denominator)))
          λ y.
            and_then (image axis y.0 x.0) λ img.
              and_then (done (traverse percent img)) λ percents. done (ok (percents, x.1, y.1))
