-- ===== src/Notebooks/Compared/Counted.antt =====
-- What the loops of notebooks/microbench.ipynb have collected, and that the last cell can compare it.
use cxlkvs.Prelude.{
  ℕ, suc, ◌+◌, ◌*◌, ◌<◌, ◌≡◌, ◌∙◌, ap, refl, ◌⊎◌, inl, inr, true, Option, none, some, List, [], ◌∷◌,
  ◌++◌, map, length, length-append, text_eq, nat_eq, arith,
}
use cxlkvs.Py.Text.{Text, codes}
use cxlkvs.Py.Num.{Num, IsOrdered}
use cxlkvs.Notebooks.Plot.Bars.{Pyplot}
use cxlkvs.Py.Result.{ok}
use cxlkvs.Py.Dict
use cxlkvs.Py.Dict.{Dict}
use cxlkvs.Model.{done}
use cxlkvs.Notebooks.Plot.{label_of, plot_with_models}
use cxlkvs.Microbench.Parser.{MicrobenchParser, get_throughputs}
use cxlkvs.Microbench.Parser.Lengths.{length-get_throughputs}
use mathlib.Core.Path.{subst}
use cxlkvs.Prelude.Int.{pos}
use cxlkvs.Notebooks.Compared.{
  measurements, from_values, Measurements, pause_time, memory_time_offset, setting_of, add_curves,
  add_plot, perfs_of, report,
}
use cxlkvs.Notebooks.Compared.Lines.{Line, report-IsAligned}
use cxlkvs.Notebooks.Compared.Aligned.{IsAligned, fold_loop-counts, plot-IsAligned}
use cxlkvs.Notebooks.Plot.Lengths.{and_then_ok, done_ok_injective, done_injective}

module _ (num : Num) where
  open num use {F, of_nat, add, div, less}

  -- nothing yet, or `n` values in each curve
  abbrev Collected : ℕ → Dict Text (List F) → Type 0
  Collected n d = ((d ≡ []) × (n ≡ 0)) ⊎ IsAligned num n d

  append_length :
      (xs ys : List F) (n k : ℕ) → length xs ≡ n → length ys ≡ k → length (xs ++ ys) ≡ n + k
  append_length xs ys n k h l = rw (length-append xs ys, h, l)

  add_curves-IsAligned :
      (n k : ℕ) (p d : Dict Text (List F))
      → Collected n d
      → IsAligned num k p
      → IsAligned num (n + k) (add_curves num p d)
  unfolding add_curves Dict.put Dict.get label_of
  add_curves-IsAligned n k p d (inl (none_yet, zero_yet)) a =
      let count : n + k ≡ k = omega (arith, zero_yet) in
      rw (count, none_yet, a.curves)
        (record {
          worst = a.worst;
          measured = a.measured;
          prob = a.prob;
          best = a.best;
          curves = refl;
          worst_length = a.worst_length;
          measured_length = a.measured_length;
          prob_length = a.prob_length;
          best_length = a.best_length;
        })
  add_curves-IsAligned n k p d (inr b) a =
      rw (b.curves, a.curves)
        (record {
          worst = b.worst ++ a.worst;
          measured = b.measured ++ a.measured;
          prob = b.prob ++ a.prob;
          best = b.best ++ a.best;
          curves = refl;
          worst_length = append_length b.worst a.worst n k b.worst_length a.worst_length;
          measured_length =
              append_length b.measured a.measured n k b.measured_length a.measured_length;
          prob_length = append_length b.prob a.prob n k b.prob_length a.prob_length;
          best_length = append_length b.best a.best n k b.best_length a.best_length;
        })

  -- the number of configurations times that of the latencies
  abbrev pub count : Measurements F → ℕ
  count mp =
      length mp.num_chases_list
      * (length mp.memory_times
          * (length mp.io_times_pre * (length mp.io_times_post * length mp.latency_list)))

  module _ (plt : Pyplot F) (mp : Measurements F)
      (one_each : (c t x y : ℕ) (ts : List F)
        → mp.throughputs c t x y ≡ ok ts
        → length ts ≡ length mp.latency_list) where
    add_plot-Collected :
        (c : ℕ) (offset : F) (t x y n : ℕ) (d d' : Dict Text (List F))
        → Collected n d
        → add_plot num plt mp c offset t x y d ≡ done (ok d')
        → Collected (n + length mp.latency_list) d'
    unfolding add_plot
    add_plot-Collected c offset t x y n d d' h e =
        let (ts, e1, f1) = and_then_ok (done (mp.throughputs c t x y)) _ d' e in
        let (p, e2, f2) =
          and_then_ok
            (plot_with_models num plt
              (setting_of num c (add (of_nat (pause_time num * t)) offset) x y) mp.latency_list ts
              (codes "Microbench") 1 true)
            _ d' f1 in
        let aligned =
          plot-IsAligned num plt (setting_of num c (add (of_nat (pause_time num * t)) offset) x y)
            mp.latency_list ts p
            (one_each c t x y ts (done_injective (mp.throughputs c t x y) (ok ts) e1)) e2 in
        rw (← (done_ok_injective (add_curves num p d) d' f2))
          (inr (add_curves-IsAligned n _ p d h aligned))

    perfs_of-Collected :
        (d : Dict Text (List F)) → perfs_of num plt mp ≡ done (ok d) → Collected (count mp) d
    unfolding perfs_of
    perfs_of-Collected d e =
        let whole : 0 + count mp ≡ count mp = omega arith in
        rw whole at (
          fold_loop-counts Collected _ _ mp.num_chases_list 0 [] d
            (λ c n d1 d2 h1 e1.
              let (offset, g1, g2) = and_then_ok (memory_time_offset num mp c) _ d2 e1 in
              fold_loop-counts Collected _ _ mp.memory_times n d1 d2
                (λ t n2 d3 d4 h2 e2.
                  fold_loop-counts Collected _ _ mp.io_times_pre n2 d3 d4
                    (λ x n3 d5 d6 h3 e3.
                      fold_loop-counts Collected _ _ mp.io_times_post n3 d5 d6
                        (λ y n4 d7 d8 h4 e4. add_plot-Collected c offset t x y n4 d7 d8 h4 e4) h3
                        e3)
                    h2 e2)
                h1 g2)
            (inl (refl, refl)) e)

  length_pos : (ls : List ℕ) → length (map pos ls) ≡ length ls
  length_pos [] = refl
  length_pos (l ∷ ls) = ap suc (length_pos ls)

  module _ (p : MicrobenchParser num) (mp : Measurements F) (c t x y : ℕ) (ts : List F) where
    from_values-length :
        (l n m i o : Option (List ℕ))
        → from_values num p l n m i o ≡ some mp
        → mp.throughputs c t x y ≡ ok ts
        → length ts ≡ length mp.latency_list
    unfolding from_values
    from_values-length (some l) (some n) (some m) (some i) (some o) e f =
        let built : Measurements F = record {
          latency_list = l;
          num_chases_list = n;
          memory_times = m;
          io_times_pre = i;
          io_times_post = o;
          throughputs =
              λ c' t' x' y'. get_throughputs num p (map pos l) (pos c') (pos t') (pos x') (pos y');
        } in
        let same : built ≡ mp = cc e in
        subst
          (λ (k : Measurements F).
            k.throughputs c t x y ≡ ok ts → length ts ≡ length k.latency_list)
          same
          (λ g.
            length-get_throughputs num p (map pos l) (pos c) (pos t) (pos x) (pos y) ts g
            ∙ length_pos l)
          f
    from_values-length none n m i o e f = cc
    from_values-length (some l) none m i o e f = cc
    from_values-length (some l) (some n) none i o e f = cc
    from_values-length (some l) (some n) (some m) none o e f = cc
    from_values-length (some l) (some n) (some m) (some i) none e f = cc

  -- Where numbers are ordered, the parser has read the runs and the loops over the configurations
  -- return, with at least one configuration and one latency: the curves of the worst case, of the runs,
  -- of the probabilistic model and of the best case have one value for each configuration and latency,
  -- and the last cell returns for the three models, in that order, a label with two numbers: how much
  -- the greatest of the ratios of the model's values to those of the runs is above 1, and how much the
  -- least is below 1, in percent.
  pub report-perfs_of :
      IsOrdered num
      → (plt : Pyplot F) (p : MicrobenchParser num) (mp : Measurements F) (d : Dict Text (List F))
      → measurements num p ≡ some mp
      → perfs_of num plt mp ≡ done (ok d)
      → 0 < count mp
      → (a : IsAligned num (count mp) d) × (lw : Text × F × F) × (lp : Text × F × F) × (lb : Text
          × F × F)
        × (report num d ≡ ok (lw ∷ lp ∷ lb ∷ []))
        × Line num a.worst a.measured (label_of (codes "worst")) lw
        × Line num a.prob a.measured (label_of (codes "prob")) lp
        × Line num a.best a.measured (label_of (codes "best")) lb
  unfolding measurements
  report-perfs_of laws plt p mp d e f h =
      elim (perfs_of-Collected plt mp
        ((λ c t x y ts. from_values-length p mp c t x y ts _ _ _ _ _ e)) d f) [
          | inl (nothing, zero_count) ↦ absurd (omega (arith, h, zero_count))
          | inr a ↦
              let (lw, lp, lb, r, ew, ep, eb) = report-IsAligned num laws (count mp) d h a in
              (a, lw, lp, lb, r, ew, ep, eb)
        ]
