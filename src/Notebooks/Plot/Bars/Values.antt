-- ===== src/Notebooks/Plot/Bars/Values.antt =====
-- The functions of notebooks/utils/plot.py return where matplotlib draws what has as many values as
-- positions, and the values that they draw.
use cxlkvs.Prelude.{
  ℕ, zero, suc, ◌+◌, ◌≤◌, ◌<◌, ◌≡◌, ◌∙◌, sym, refl, List, [], ◌∷◌, ◌++◌, All, map, length,
  length-map, arith,
}
use cxlkvs.Py.Text.{Text, codes}
use cxlkvs.Py.Decimal.{decimal}
use cxlkvs.Py.Num.{Num}
use cxlkvs.Py.Result.{Result, ok}
use cxlkvs.Notebooks.Rows.{item}
use cxlkvs.Notebooks.Plot.Bars.{
  Pyplot, IsPyplot, color_list, throughput_bars, plot_throughputs, latency_row, latency_bars,
  plot_latencies,
}

color_ok : (i : ℕ) → i < 3 → (c : ℕ × ℕ × ℕ) × (item color_list i ≡ ok c)
unfolding item
color_ok zero h = (_, refl)
color_ok (suc zero) h = (_, refl)
color_ok (suc (suc zero)) h = (_, refl)
color_ok (suc (suc (suc i))) h = absurd (omega (arith, h))

module _ (num : Num) (one_decimal : num.F → Text) (plt : Pyplot num.F) (draws : IsPyplot plt) where
  open num use {F, div}

  pub plot_throughputs-throughput_bars :
      (lats : List ℕ) (ts : List F)
      → plot_throughputs num one_decimal plt lats ts
        ≡ ok (throughput_bars num one_decimal plt lats ts)
  unfolding plot_throughputs
  plot_throughputs-throughput_bars lats ts =
      let bars = throughput_bars num one_decimal plt lats ts in
      rw (draws.bar_ok (length bars) (map (λ b. b.1) bars) (length-map (λ b. b.1) bars)) refl

  -- Runs, what is asked of each, and the value of each for a percentile.
  module _ {A B : Type 0} (latency_p : ℕ → A → Result F) (batch : F) (f : B → A)
      (value : ℕ → B → F) where
    latency_row-value :
        (p : ℕ) (lats : List ℕ) (ss : List B)
        → ((s : B) → latency_p p (f s) ≡ ok (value p s))
        → length lats ≡ length ss
        → latency_row num one_decimal plt latency_p batch p lats (map f ss)
          ≡ ok (map (λ s. div (value p s) batch) ss)
    unfolding latency_row
    latency_row-value p [] [] h e = refl
    latency_row-value p [] (s ∷ ss) h e = absurd (omega (arith, e))
    latency_row-value p (l ∷ lats) [] h e = absurd (omega (arith, e))
    latency_row-value p (l ∷ lats) (s ∷ ss) h e =
        rw (h s, latency_row-value p lats ss h (omega (arith, e))) refl

    -- the bars of a percentile
    abbrev pub bars_of : List B → ℕ → Text × List F
    bars_of ss p = (codes "P" ++ decimal p, map (λ s. div (value p s) batch) ss)

    latency_bars-bars_of :
        (lats : List ℕ) (ss : List B) (i : ℕ) (ps : List ℕ)
        → length lats ≡ length ss
        → All (λ p. (s : B) → latency_p p (f s) ≡ ok (value p s)) ps
        → i + length ps ≤ 3
        → latency_bars num one_decimal plt latency_p batch lats (map f ss) i ps
          ≡ ok (map (bars_of ss) ps)
    unfolding latency_bars
    latency_bars-bars_of lats ss i [] e h le = refl
    latency_bars-bars_of lats ss i (p ∷ ps) e h le =
        let y = map (λ s. div (value p s) batch) ss in
        let (c, g) = color_ok i (omega (arith, le)) in
        let drawn =
          draws.bar_ok (length lats) y (length-map (λ s. div (value p s) batch) ss ∙ sym e) in
        rw
          (
            latency_row-value p lats ss h.0 e,
            g,
            drawn,
            latency_bars-bars_of lats ss (i + 1) ps e h.1 (omega (arith, le)),
          )
          refl

    -- with one to three percentiles, for each of which there is a value
    pub plot_latencies-bars_of :
        (lats : List ℕ) (ss : List B) (p : ℕ) (ps : List ℕ)
        → length lats ≡ length ss
        → All (λ q. (s : B) → latency_p q (f s) ≡ ok (value q s)) (p ∷ ps)
        → length ps ≤ 2
        → plot_latencies num one_decimal plt latency_p batch lats (map f ss) (p ∷ ps)
          ≡ ok (map (bars_of ss) (p ∷ ps))
    unfolding plot_latencies
    plot_latencies-bars_of lats ss p ps e h le =
        latency_bars-bars_of lats ss 0 (p ∷ ps) e h (omega (arith, le))
