-- ===== src/Cachelib/Analyzer/Series.antt =====
-- Which values the lists of a number of threads hold, and in which order.
use cxlkvs.Prelude.{
  ℕ, ◌≡◌, sym, ◌∙◌, ap, suc, ◌+◌, List, [], ◌∷◌, ◌++◌, append_assoc, append-nil, length,
  length-append, arith, ◌==◌, nat_eq, if◌then◌else◌, Bool-cases, inl, inr,
}
use cxlkvs.Py.Num.{Num}
use cxlkvs.Py.Text.{Text}
use cxlkvs.Py.Result.{Result, ok, err, Result-cases}
use cxlkvs.Py.Dict.{Dict, index}
use cxlkvs.Py.Dict.Lists.{list_at, append_value, list_at-append_value}
use cxlkvs.Cachelib.Parser.{Stats}
use cxlkvs.Cachelib.Analyzer.{
  throughput_at, latencies_from, Locals, add_run, add_dram_runs, add_cxl_runs, add_changes,
  get_throughput_and_latency,
}

abbrev at_time {ℓ} : {V : Type ℓ} → Result ℕ → (ℕ → List V) → List V
at_time (ok t) f = f t
at_time (err e) f = []

module _ (num : Num) {V : Type 0} (value : Stats num → ℕ → V) (n : ℕ) where
  -- the values of the runs with `n` threads, at the time 0
  abbrev pub dram_series : Dict ℕ (Stats num) → List V
  dram_series [] = []
  dram_series ((m, stats) ∷ runs) = (if m == n then value stats 0 ∷ [] else []) ++ dram_series runs

  -- at the times of one change of the latency, if all are there
  abbrev pub change_series : Dict ℕ ℕ → Dict ℕ (Stats num) → List V
  change_series change_time [] = []
  change_series change_time ((m, stats) ∷ runs) =
      elim (index m change_time) [ ok t ↦ (if m == n then value stats t ∷ [] else []) | err e ↦ [] ]
      ++ change_series change_time runs

  abbrev pub cxl_series : List (Dict ℕ ℕ) → Dict ℕ (Stats num) → List V
  cxl_series [] runs = []
  cxl_series (change_time ∷ changes) runs =
      change_series change_time runs ++ cxl_series changes runs

-- One more value, before the rest of a series.
list_at-then :
    {V : Type 0} (m n : ℕ) (v : V) (d : Dict ℕ (List V)) (rest : List V)
    → list_at n (append_value m v d) ++ rest
      ≡ list_at n d ++ ((if m == n then v ∷ [] else []) ++ rest)
list_at-then m n v d rest = elim (Bool-cases (m == n)) [
  | inl f ↦ rw (list_at-append_value, f) (append_assoc (list_at n d) (v ∷ []) rest)
  | inr f ↦ rw (list_at-append_value, f)
]

module _ (num : Num) (mean : List num.F → num.F) (p_list : List ℕ) where
  abbrev pub th : Stats num → ℕ → num.F
  th = throughput_at num mean

  abbrev pub lat : Stats num → ℕ → Dict Text num.F
  lat stats t = latencies_from num mean p_list stats t []

  dram_throughputs :
      (n : ℕ) (runs : Dict ℕ (Stats num)) (l : Locals num)
      → list_at n (add_dram_runs num mean p_list runs l).throughput_dict
        ≡ list_at n l.throughput_dict ++ dram_series num th n runs
  unfolding add_dram_runs add_run
  dram_throughputs n [] l = sym (append-nil _)
  dram_throughputs n ((m, stats) ∷ runs) l =
      dram_throughputs n runs (add_run num mean p_list m stats 0 l)
      ∙ list_at-then m n (th stats 0) l.throughput_dict (dram_series num th n runs)

  dram_latencies :
      (n : ℕ) (runs : Dict ℕ (Stats num)) (l : Locals num)
      → list_at n (add_dram_runs num mean p_list runs l).get_latency_dict
        ≡ list_at n l.get_latency_dict ++ dram_series num lat n runs
  unfolding add_dram_runs add_run
  dram_latencies n [] l = sym (append-nil _)
  dram_latencies n ((m, stats) ∷ runs) l =
      dram_latencies n runs (add_run num mean p_list m stats 0 l)
      ∙ list_at-then m n (lat stats 0) l.get_latency_dict (dram_series num lat n runs)

  abbrev Added : (n : ℕ) (l r : Locals num) → List num.F → List (Dict Text num.F) → Type 0
  Added n l r ts ds =
      (list_at n r.throughput_dict ≡ list_at n l.throughput_dict ++ ts)
      × (list_at n r.get_latency_dict ≡ list_at n l.get_latency_dict ++ ds)

  cxl_Added :
      (n : ℕ) (change_time : Dict ℕ ℕ) (runs : Dict ℕ (Stats num)) (l r : Locals num)
      → add_cxl_runs num mean p_list change_time runs l ≡ ok r
      → Added n l r
          (change_series num th n change_time runs)
          (change_series num lat n change_time runs)
  unfolding add_cxl_runs add_run
  cxl_Added n change_time [] l r e =
      let same : l ≡ r = cc e in rw (← same) (sym (append-nil _), sym (append-nil _))
  cxl_Added n change_time ((m, stats) ∷ runs) l r e = elim (Result-cases (index m change_time)) [
    | inr (x, f) ↦ cc (rw f at e)
    | inl (t, f) ↦
        let later =
          cxl_Added n change_time runs (add_run num mean p_list m stats t l) r (rw f at e) in
        rw f (
          later.0 ∙ list_at-then m n (th stats t) l.throughput_dict _,
          later.1 ∙ list_at-then m n (lat stats t) l.get_latency_dict _,
        )
  ]

  changes_Added :
      (n : ℕ) (changes : List (Dict ℕ ℕ)) (runs : Dict ℕ (Stats num)) (maxima : List num.F)
      (l : Locals num) (r : List num.F × Locals num)
      → add_changes num mean p_list changes runs maxima l ≡ ok r
      → Added n l r.1 (cxl_series num th n changes runs) (cxl_series num lat n changes runs)
  unfolding add_changes
  changes_Added n [] runs maxima l r e =
      let same : (maxima, l) ≡ r = cc e in rw (← same) (sym (append-nil _), sym (append-nil _))
  changes_Added n (change_time ∷ changes) runs maxima l r e =
      let l0 : Locals num = record l { max_throughput = num.of_nat 0 } in
      elim (Result-cases (add_cxl_runs num mean p_list change_time runs l0)) [
        | inr (x, f) ↦ cc (rw f at e)
        | inl (m, f) ↦
            let first = cxl_Added n change_time runs l0 m f in
            let later =
              changes_Added n changes runs (maxima ++ m.max_throughput ∷ []) m r (rw f at e) in
            (
              later.0 ∙ rw first.0 (append_assoc (list_at n l.throughput_dict) _ _),
              later.1 ∙ rw first.1 (append_assoc (list_at n l.get_latency_dict) _ _),
            )
      ]

  length-add_changes :
      (changes : List (Dict ℕ ℕ)) (runs : Dict ℕ (Stats num)) (maxima : List num.F) (l : Locals num)
      (r : List num.F × Locals num)
      → add_changes num mean p_list changes runs maxima l ≡ ok r
      → length r.0 ≡ length maxima + length changes
  unfolding add_changes
  length-add_changes [] runs maxima l r e =
      let same : (maxima, l) ≡ r = cc e in rw (← same) (omega arith)
  length-add_changes (change_time ∷ changes) runs maxima l r e =
      let l0 : Locals num = record l { max_throughput = num.of_nat 0 } in
      elim (Result-cases (add_cxl_runs num mean p_list change_time runs l0)) [
        | inr (x, f) ↦ cc (rw f at e)
        | inl (m, f) ↦ omega (
          arith,
          length-add_changes changes runs (maxima ++ m.max_throughput ∷ []) m r (rw f at e),
          length-append maxima (m.max_throughput ∷ []),
        )
      ]

  -- Where `get_throughput_and_latency` returns, the lists of a number of threads hold, for its run
  -- with local memory and then for each change of the latency in order, the throughput and the
  -- latencies of its run at that time, and there is one maximum for local memory and one for each
  -- change.
  pub get_throughput_and_latency-series :
      (dram cxl : Dict ℕ (Stats num)) (changes : List (Dict ℕ ℕ)) (r : List num.F × Locals num)
      → get_throughput_and_latency num mean dram cxl changes p_list ≡ ok r
      → (length r.0 ≡ suc (length changes))
        × ((n : ℕ)
            → (list_at n r.1.throughput_dict
                ≡ dram_series num th n dram ++ cxl_series num th n changes cxl)
              × (list_at n r.1.get_latency_dict
                  ≡ dram_series num lat n dram ++ cxl_series num lat n changes cxl))
  unfolding get_throughput_and_latency list_at
  get_throughput_and_latency-series dram cxl changes r e =
      let start : Locals num = record {
        max_throughput = num.of_nat 0;
        throughput_dict = [];
        get_latency_dict = [];
      } in
      let l = add_dram_runs num mean p_list dram start in
      (
        length-add_changes changes cxl (l.max_throughput ∷ []) l r e ∙ omega arith,
        λ n.
            let added = changes_Added n changes cxl (l.max_throughput ∷ []) l r e in
            (
              added.0
                  ∙ ap (λ xs. xs ++ cxl_series num th n changes cxl)
                      (dram_throughputs n dram start),
              added.1
                  ∙ ap (λ xs. xs ++ cxl_series num lat n changes cxl) (dram_latencies n dram start),
            ),
      )
