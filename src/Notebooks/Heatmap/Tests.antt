-- ===== src/Notebooks/Heatmap/Tests.antt =====
-- The heat maps of notebooks/model.ipynb at numbers with eight decimal places.
use cxlkvs.Prelude.{ℕ, ◌≡◌, ◌*◌, refl, List, [], ◌∷◌, All, length, get_elem?}
use mathlib.Core.Option
use cxlkvs.Py.Text.{Text}
use cxlkvs.Py.Decimal.{decimal}
use cxlkvs.Py.Result.{ok, traverse}
use cxlkvs.Model.{
  done, reciprocal_throughput, combine, outer_loop, round, finish, start, memory_term, io_term,
  comb, all_fit,
}
use cxlkvs.Model.Fixed.{scale, fixed_num, fixed_num-IsMonotone, fixed_num-IsAntitone}
use cxlkvs.Notebooks.Heatmap.{num_memory_accesses_axis, model, args_of, image, percent, set_values}
use cxlkvs.Notebooks.Heatmap.Falls.{Ascends, Falls, IsTimed, image-Falls}
use cxlkvs.Notebooks.Heatmap.Values.{set_values-ticks}

-- a hundred memory accesses, at 0, 1 and 10 microseconds
abbrev accesses : ℕ
accesses = 100 * scale

timed :
    IsTimed fixed_num fixed_num-IsMonotone fixed_num-IsAntitone num_memory_accesses_axis accesses 0
unfolding reciprocal_throughput combine outer_loop all_fit round finish start memory_term io_term
    comb model args_of
timed = record { time = 1910000000000; returns = refl; above_zero = refl; accesses = refl }

image-Falls_example :
    (img : List (List ℕ)) × (percents : List (List ℕ)) × (image fixed_num num_memory_accesses_axis
        (accesses ∷ [])
        (0 ∷ 1000 * scale ∷ 10000 * scale ∷ [])
      ≡ done (ok img))
    × (traverse (percent fixed_num) img ≡ ok percents)
    × All (Falls fixed_num) percents
image-Falls_example =
    image-Falls fixed_num fixed_num-IsMonotone fixed_num-IsAntitone num_memory_accesses_axis
      (accesses ∷ []) 0 (1000 * scale ∷ 10000 * scale ∷ [])
      ((refl, (refl, tt)), ((refl, tt), (tt, tt))) (timed, tt)

set_values-ticks_example :
    (vs : List ℕ) × (labels : List Text) × (set_values fixed_num 0
        (10000 * scale)
        301
        30
        decimal
        (1000 * scale)
      ≡ ok (vs, labels))
    × (length vs ≡ 301)
    × Ascends fixed_num vs
    × ((k : ℕ)
        → get_elem? labels k
          ≡ Option.map (λ v. decimal (fixed_num.div v (1000 * scale))) (get_elem? vs (k * 30)))
set_values-ticks_example =
    set_values-ticks fixed_num 0 (10000 * scale) 301 29 decimal (1000 * scale) fixed_num-IsMonotone
      refl refl refl
