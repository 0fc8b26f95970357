-- ===== src/Notebooks/Plot/Lengths.antt =====
-- What ran before in a part of notebooks/utils/plot.py that returned, and the length of the curves.
use cxlkvs.Prelude.{ℕ, suc, ◌≡◌, ap, refl, List, [], ◌∷◌, length}
use cxlkvs.Py.Num.{Num, true_div}
use cxlkvs.Py.Result.{Result, ok, err}
use cxlkvs.Model.{Outcome, done, out_of_fuel, and_then, OpTimeModel, reciprocal_throughput}
use cxlkvs.Notebooks.Plot.{Setting, args_at, plotted_latency, model_perf}

-- what ran before, where the whole returned
pub and_then_ok :
    {A B : Type 0} (o : Outcome (Result A)) (f : A → Outcome (Result B)) (b : B)
    → and_then o f ≡ done (ok b)
    → (a : A) × (o ≡ done (ok a)) × (f a ≡ done (ok b))
unfolding and_then
and_then_ok out_of_fuel f b e = cc
and_then_ok (done (err x)) f b e = cc
and_then_ok (done (ok a)) f b e = (a, refl, e)

pub done_ok_injective :
    {A : Type 0} (a b : A) → ◌≡◌ {A = Outcome (Result A)} (done (ok a)) (done (ok b)) → a ≡ b
done_ok_injective a b e = cc e

pub done_injective :
    {A : Type 0} (a b : Result A) → ◌≡◌ {A = Outcome (Result A)} (done a) (done b) → a ≡ b
done_injective a b e = cc e

module _ (num : Num) where
  open num use {F, of_nat}

  pub length-model_perf :
      (s : Setting num) (m : OpTimeModel num) (ls : List ℕ) (xs : List F)
      → model_perf num s m ls ≡ done (ok xs)
      → length xs ≡ length ls
  unfolding model_perf
  length-model_perf s m [] xs e = let same : [] ≡ xs = done_ok_injective [] xs e in rw (← same) refl
  length-model_perf s m (l ∷ ls) zs e =
      let (t, e1, f1) =
        and_then_ok (reciprocal_throughput num m (args_at num s (plotted_latency l))) _ zs e in
      let (y, e2, f2) = and_then_ok (done (true_div num (of_nat 1000000000) t)) _ zs f1 in
      let (ys, e3, f3) = and_then_ok (model_perf num s m ls) _ zs f2 in
      rw (← (done_ok_injective (y ∷ ys) zs f3)) (ap suc (length-model_perf s m ls ys e3))
