-- ===== src/Notebooks/Compared/Aligned.antt =====
-- The lists of notebooks/microbench.ipynb have a value for each configuration and latency.
use cxlkvs.Prelude.{
  true, ℕ, suc, ◌+◌, ◌*◌, ◌≡◌, ◌∙◌, ap, sym, refl, some, List, [], ◌∷◌, map, length, text_eq, arith,
}
use cxlkvs.Py.Text.{Text, codes}
use cxlkvs.Py.Num.{Num}
use cxlkvs.Py.Result.{Result, ok, ok_injective}
use cxlkvs.Py.Dict
use cxlkvs.Py.Dict.{Dict}
use cxlkvs.Model.{Outcome, done, OpTimeModel}
use cxlkvs.Notebooks.Plot.{
  Setting, model_list, model_perf, model_bars, bars, normalized, label_of, plot_from,
  plot_with_models,
}
use cxlkvs.Notebooks.Compared.{fold_loop}
use cxlkvs.Notebooks.Plot.Bars.{Pyplot}
use cxlkvs.Notebooks.Plot.Lengths.{
  and_then_ok, done_ok_injective, done_injective, length-model_perf,
}

-- a loop whose rounds each add `k`
pub fold_loop-counts :
    {A D : Type 0} (P : ℕ → D → Type 0) (k : ℕ) (body : A → D → Outcome (Result D)) (xs : List A)
    (n : ℕ) (d d' : D)
    → ((x : A) (m : ℕ) (c c' : D) → P m c → body x c ≡ done (ok c') → P (m + k) c')
    → P n d
    → fold_loop body xs d ≡ done (ok d')
    → P (n + length xs * k) d'
unfolding fold_loop
fold_loop-counts P k body [] n d d' h p e =
    let same : d ≡ d' = done_ok_injective d d' e in
    let count : n + 0 * k ≡ n = omega arith in rw (count, ← same) p
fold_loop-counts P k body (x ∷ xs) n d d' h p e =
    let (c, e1, e2) = and_then_ok (body x d) _ d' e in
    let count : n + suc (length xs) * k ≡ (n + k) + length xs * k = omega arith in
    rw count (fold_loop-counts P k body xs (n + k) c d' h (h x n d c p e1) e2)

module _ (num : Num) where
  open num use {F, of_nat, div}

  length-normalized : (xs ys : List F) → normalized num true xs ≡ ok ys → length ys ≡ length xs
  unfolding normalized
  length-normalized [] ys e = cc
  length-normalized (x ∷ xs) ys e = rw (← (ok_injective e)) (length-map (x ∷ xs))
    where
      length-map : (zs : List F) → length (map (λ z. div z x) zs) ≡ length zs
      length-map [] = refl
      length-map (z ∷ zs) = ap suc (length-map zs)

  -- the four curves, in the order in which they are drawn
  pub record IsAligned (n : ℕ) (d : Dict Text (List F)) : Type 0 where
    pub worst : List F
    pub measured : List F
    pub prob : List F
    pub best : List F
    pub curves :
        d
        ≡ (label_of (codes "worst"), worst)
          ∷ (codes "Microbench", measured)
          ∷ (label_of (codes "prob"), prob)
          ∷ (label_of (codes "best"), best)
          ∷ []
    pub worst_length : length worst ≡ n
    pub measured_length : length measured ≡ n
    pub prob_length : length prob ≡ n
    pub best_length : length best ≡ n

  model_bars-length :
      (s : Setting num) (ls : List ℕ) (m : OpTimeModel num × Text) (b : Text × List F)
      → model_bars num s ls (some m) ≡ done (ok b)
      → (b.0 ≡ label_of m.1) × (length b.1 ≡ length ls)
  unfolding model_bars
  model_bars-length s [] m b e = cc
  model_bars-length s (l ∷ ls) m b e =
      let (perf, e1, e2) = and_then_ok (model_perf num s m.0 (l ∷ ls)) _ b e in
      rw (← (done_ok_injective (label_of m.1, perf) b e2))
        (refl, length-model_perf num s m.0 (l ∷ ls) perf e1)

  normalized_done :
      (xs perf : List F) (n : ℕ)
      → length xs ≡ n
      → ◌≡◌ {A = Outcome (Result (List F))} (done (normalized num true xs)) (done (ok perf))
      → length perf ≡ n
  normalized_done xs perf n h e =
      length-normalized xs perf (done_injective (normalized num true xs) (ok perf) e) ∙ h

  module _ (plt : Pyplot F) (s : Setting num) (ls : List ℕ) (ts : List F) where
    abbrev rounds : ℕ → ℕ → Dict Text (List F) → Outcome (Result (Dict Text (List F)))
    rounds left i d = plot_from num plt s ls ts (codes "Microbench") 1 true left i d

    -- a round that draws a model
    model_round :
        (m : OpTimeModel num × Text) (left i : ℕ) (c d : Dict Text (List F))
        → bars num s ls ts (codes "Microbench") 1 i ≡ model_bars num s ls (some m)
        → rounds (suc left) i c ≡ done (ok d)
        → (perf : List F) × (length perf ≡ length ls)
          × (rounds left (i + 1) (Dict.put (label_of m.1) perf c) ≡ done (ok d))
    unfolding plot_from
    model_round m left i c d h e =
        let (b, e1, e2) = and_then_ok (bars num s ls ts (codes "Microbench") 1 i) _ d e in
        let (perf, e3, e4) = and_then_ok (done (normalized num true b.1)) _ d e2 in
        let (name, len) = model_bars-length s ls m b (rw h at e1) in
        let (drawn, e5, e6) = and_then_ok (done (plt.bar (length ls) perf)) _ d e4 in
        (perf, normalized_done b.1 perf (length ls) len e3, rw name at e6)

    -- the round that draws the measured curve
    measured_round :
        (left : ℕ) (c d : Dict Text (List F))
        → length ts ≡ length ls
        → rounds (suc left) 1 c ≡ done (ok d)
        → (perf : List F) × (length perf ≡ length ls)
          × (rounds left 2 (Dict.put (codes "Microbench") perf c) ≡ done (ok d))
    unfolding plot_from bars
    measured_round left c d h e =
        let (perf, e3, e4) = and_then_ok (done (normalized num true ts)) _ d e in
        let (drawn, e5, e6) = and_then_ok (done (plt.bar (length ls) perf)) _ d e4 in
        (perf, normalized_done ts perf (length ls) h e3, e6)

    pub plot-IsAligned :
        (d : Dict Text (List F))
        → length ts ≡ length ls
        → plot_with_models num plt s ls ts (codes "Microbench") 1 true ≡ done (ok d)
        → IsAligned (length ls) d
    unfolding plot_with_models plot_from bars model_list Dict.put label_of
    plot-IsAligned d h e =
        let (w, lw, e1) = model_round _ 3 0 [] d refl e in
        let (m, lm, e2) = measured_round 2 ((label_of (codes "worst"), w) ∷ []) d h e1 in
        let (p, lp, e3) =
          model_round _ 1 2 ((label_of (codes "worst"), w) ∷ (codes "Microbench", m) ∷ []) d refl
            e2 in
        let (b, lb, e4) =
          model_round _ 0 3
            ((label_of (codes "worst"), w)
              ∷ (codes "Microbench", m)
              ∷ (label_of (codes "prob"), p)
              ∷ [])
            d refl e3 in
        record {
          worst = w;
          measured = m;
          prob = p;
          best = b;
          curves = sym (done_ok_injective _ d e4);
          worst_length = lw;
          measured_length = lm;
          prob_length = lp;
          best_length = lb;
        }
