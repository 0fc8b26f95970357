-- ===== src/Notebooks/Cachelib/Minutes/Curves.antt =====
-- The curves over time can be drawn for every log that is parsed and has a part.
use cxlkvs.Prelude.{
  ℕ, ◌<◌, ◌≡◌, ◌∙◌, sym, refl, String, Bool, true, false, List, [], ◌∷◌, All, map, length,
  length-map, arith, ◌==◌, string_eq, text_eq, Bool-cases, inl, inr, ◌||◌,
}
use cxlkvs.Py.Text.{Text, codes}
use cxlkvs.Py.Codes.{codes-equal}
use cxlkvs.Py.Num.{Num, max_num}
use cxlkvs.Py.Result.{ok, traverse}
use cxlkvs.Py.Decimal.{decimal}
use cxlkvs.Py.Dict
use cxlkvs.Py.Dict.{Dict}
use cxlkvs.Segments.{indices_from}
use cxlkvs.Cachelib.Parser.{Stats, calls, as_list, is_header, parse, values_at}
use cxlkvs.Cachelib.Parser.Aligned.{item_names, parse-calls}
use cxlkvs.Cachelib.Analyzer.{values_of, to_num}
use cxlkvs.Notebooks.Plot.Bars.{Pyplot, IsPyplot}
use cxlkvs.Notebooks.Cachelib.Minutes.{
  TimeCurve, amax, curves_from, plot_over_time, plot_throughput_over_time, plot_latency_over_time,
  plot_hit_ratio_over_time,
}

abbrev among : String → List String → Bool
among k [] = false
among k (j ∷ js) = j == k || among k js

All-among :
    (P : String → Type 0) (k : String) (ks : List String) → among k ks ≡ true → All P ks → P k
All-among P k [] e h = cc e
All-among P k (j ∷ js) e h = elim (Bool-cases (j == k)) [
  | inl f ↦ rw ((string_eq.equal_iff j k).0 f) at h.0
  | inr f ↦ All-among P k js (rw f at e) h.1
]

-- the log has a part
abbrev pub HasPart : List Text → Type 0
HasPart lines = 0 < length (indices_from is_header 0 lines)

module _ (num : Num) (mean : List num.F → num.F) where
  values_of-codes :
      (k : String) (stats : Stats num) → values_of num mean (codes k) stats ≡ values_at num k stats
  unfolding values_of values_at Dict.get
  values_of-codes k [] = refl
  values_of-codes k ((j, vs) ∷ stats) = elim (Bool-cases (j == k)) [
    | inl e ↦ rw (codes-equal j k, values_at, Dict.get, e) refl
    | inr e ↦ rw (codes-equal j k, values_at, Dict.get, e) (values_of-codes k stats)
  ]

  -- the list of the key has as many values as there are times, and at least one
  abbrev pub IsDrawn : Text → Stats num → Type 0
  IsDrawn key stats =
      (length (values_of num mean (codes "time") stats) ≡ length (values_of num mean key stats))
      × (0 < length (values_of num mean key stats))

  pub parse-IsDrawn :
      (lines : List Text) (s : Stats num) (k : String)
      → parse num lines [] ≡ ok s
      → HasPart lines
      → among k (item_names calls) ≡ true
      → IsDrawn (codes k) s
  parse-IsDrawn lines s k e h m =
      let all = parse-calls num lines s e in
      let each =
        All-among (λ j. length (values_at num j s) ≡ length (indices_from is_header 0 lines)) k
          (item_names calls) m all.1 in
      rw (values_of-codes "time" s, values_of-codes k s, all.0, each) (refl, h)

  module _ (plt : Pyplot num.F) (draws : IsPyplot plt) where
    amax_ok : (xs : List num.F) → 0 < length xs → (m : num.F) × (amax num mean plt xs ≡ ok m)
    unfolding amax
    amax_ok [] h = absurd (omega (arith, h))
    amax_ok (x ∷ xs) h = (_, refl)

    pub curves_from-IsDrawn :
        (key : Text) (unit : num.F → num.F) (top : num.F) (runs : Dict ℕ (Stats num))
        → All (λ run. IsDrawn key run.1) runs
        → (r : List (TimeCurve num mean plt) × num.F) × (curves_from num mean plt key unit top runs
            ≡ ok r)
    unfolding curves_from
    curves_from-IsDrawn key unit top [] h = (_, refl)
    curves_from-IsDrawn key unit top ((n, stats) ∷ runs) h =
        let ts = map (to_num num mean) (values_of num mean (codes "time") stats) in
        let ys = map (λ x. unit (to_num num mean x)) (values_of num mean key stats) in
        let lt = length-map (to_num num mean) (values_of num mean (codes "time") stats) in
        let ly = length-map (λ x. unit (to_num num mean x)) (values_of num mean key stats) in
        let (m, e) = amax_ok ys (omega (arith, ly, h.0.1)) in
        let drawn = draws.plot_ok ts ys (lt ∙ h.0.0 ∙ sym ly) in
        let (r, f) = curves_from-IsDrawn key unit (max_num num top m) runs h.1 in
        ((record { num_threads = n; times = ts; values = ys } ∷ r.0, r.1), rw (drawn, e, f) refl)

    -- Two runs whose log has the list of a key.
    module _ (a b : Stats num)
        (drawn : (k : String)
          → among k (item_names calls) ≡ true
          → IsDrawn (codes k) a × IsDrawn (codes k) b) where
      abbrev runs : Dict ℕ (Stats num)
      runs = (8, a) ∷ (16, b) ∷ []

      curves :
          (k : String) (unit : num.F → num.F)
          → among k (item_names calls) ≡ true
          → (r : List (TimeCurve num mean plt) × num.F) × (curves_from num mean plt
                (codes k)
                unit
                (num.of_nat 0)
                runs
              ≡ ok r)
      curves k unit m =
          let (da, db) = drawn k m in
          curves_from-IsDrawn (codes k) unit (num.of_nat 0) runs (da, (db, tt))

      pub plot_over_time-IsDrawn :
          (r : List (List (TimeCurve num mean plt) × num.F)) × (plot_over_time num mean plt runs
              (50 ∷ 90 ∷ 99 ∷ [])
            ≡ ok r)
      unfolding plot_over_time plot_throughput_over_time plot_latency_over_time
          plot_hit_ratio_over_time traverse decimal as_list
      plot_over_time-IsDrawn =
          let usec : num.F → num.F = λ x. num.mul x (num.div (num.of_nat 1) (num.of_nat 1000)) in
          let (t, e) =
            curves "cache_gets"
              (λ x.
                num.mul (num.div x (num.of_nat 60)) (num.div (num.of_nat 1) (num.of_nat 1000000)))
              refl in
          let (p, e1) = curves "find_p50" usec refl in
          let (q, e2) = curves "find_p90" usec refl in
          let (s, e3) = curves "find_p99" usec refl in
          let (h, f1) = curves "hit" (λ x. x) refl in
          let (r, f2) = curves "hit_ram" (λ x. x) refl in
          let (n, f3) = curves "hit_nvm" (λ x. x) refl in
          (t ∷ p ∷ q ∷ s ∷ h ∷ r ∷ n ∷ [], rw (e, e1, e2, e3, f1, f2, f3) refl)
