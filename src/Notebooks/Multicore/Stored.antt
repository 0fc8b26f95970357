-- ===== src/Notebooks/Multicore/Stored.antt =====
-- From the logs of rocksdb/batch.py to the curve of RocksDB in notebooks/multicore.ipynb.
use cxlkvs.Prelude.{
  map, ℕ, ◌≡◌, ◌∙◌, sym, refl, ap, some, List, [], ◌∷◌, In, inl, inr, nat_eq, text_eq, ◌==◌,
  Bool-cases,
}
use cxlkvs.Rocksdb.Parser.Best.{IsBest}
use cxlkvs.Py.Text.{codes, Text, int_digits}
use cxlkvs.Py.Decimal.{decimal, int_digits-decimal}
use cxlkvs.Py.Num.{Num}
use cxlkvs.Py.Result.{ok, ok_injective, Pointwise}
use cxlkvs.Py.Dict
use cxlkvs.Py.Dict.{Dict}
use cxlkvs.Rocksdb.Batch.{Job}
use cxlkvs.Rocksdb.Parser.{Perf}
use cxlkvs.Notebooks.Rows.Zip.{zip}
use cxlkvs.Notebooks.Rocksdb.{latency_list, Figures}
use cxlkvs.Notebooks.Rocksdb.Measured.{Row, IsMeasured}
use cxlkvs.Notebooks.Plot.Bars.{Pyplot, IsPyplot}
use cxlkvs.Notebooks.Multicore.{
  num_cores_list, cxl_latency, factors_of, millions, Curve, through_json, curve_of, curve,
}

decimal_injective : (j k : ℕ) → decimal j ≡ decimal k → j ≡ k
decimal_injective j k e =
    ok_injective (sym (int_digits-decimal j) ∙ ap int_digits e ∙ int_digits-decimal k)

decimal-equal : (j k : ℕ) → (decimal j == decimal k) ≡ (j == k)
decimal-equal j k = elim (Bool-cases (j == k)) [
  | inl e ↦
      (text_eq.equal_iff (decimal j) (decimal k)).1 (ap decimal ((nat_eq.equal_iff j k).0 e))
      ∙ sym e
  | inr e ↦ elim (Bool-cases (decimal j == decimal k)) [
    | inl same ↦
        same
        ∙ sym (
            (nat_eq.equal_iff j k).1
              (decimal_injective j k ((text_eq.equal_iff (decimal j) (decimal k)).0 same)))
    | inr other ↦ other ∙ sym e
  ]
]

get-through_json {ℓ} :
    {V : Type ℓ} (k : ℕ) (d : Dict ℕ V) → Dict.get (decimal k) (through_json d) ≡ Dict.get k d
unfolding through_json Dict.get
get-through_json k [] = refl
get-through_json k ((j, v) ∷ d) = rw (decimal-equal j k, get-through_json k d)

zip-Pointwise :
    {V : Type 0} (P : ℕ → V → Type 0) (l : ℕ) (ls : List ℕ) (rs : List V)
    → Pointwise P ls rs
    → In l ls
    → (r : V) × (Dict.get l (zip ls rs) ≡ some r) × P l r
unfolding Dict.get
zip-Pointwise P l (m ∷ ms) (r ∷ rs) h there = elim (Bool-cases (m == l)) [
  | inl e ↦ (r, rw e, rw ((nat_eq.equal_iff m l).0 e) at h.0)
  | inr e ↦ elim there [
    | inl same ↦ cc ((nat_eq.equal_iff m l).1 (sym same), e)
    | inr later ↦ let (s, f, p) = zip-Pointwise P l ms rs h.1 later in (s, rw e f, p)
  ]
]
zip-Pointwise P l (m ∷ ms) [] h there = absurd h
zip-Pointwise P l [] rs h there = absurd there

-- a list with a value for each number of cores
five_values :
    {V : Type 0} (P : ℕ → V → Type 0) (rs : List V)
    → Pointwise P num_cores_list rs
    → (r1 r2 r4 r8 r16 : V) × (rs ≡ r1 ∷ r2 ∷ r4 ∷ r8 ∷ r16 ∷ [])
five_values P [] h = absurd h
five_values P (a ∷ []) h = absurd h.1
five_values P (a ∷ b ∷ []) h = absurd h.1.1
five_values P (a ∷ b ∷ c ∷ []) h = absurd h.1.1.1
five_values P (a ∷ b ∷ c ∷ d ∷ []) h = absurd h.1.1.1.1
five_values P (a ∷ b ∷ c ∷ d ∷ e ∷ []) h = (a, b, c, d, e, refl)
five_values P (a ∷ b ∷ c ∷ d ∷ e ∷ r ∷ rs) h = absurd h.1.1.1.1.1

module _ (num : Num) where
  -- in millions
  abbrev pub million : ℕ → num.F
  million r = num.mul (num.of_nat r) (num.div (num.of_nat 1) (num.of_nat 1000000))

  -- The points of the five throughputs, and the factors to the first.
  abbrev pub Shows : ℕ → ℕ → ℕ → ℕ → ℕ → Curve num.F → Type 0
  Shows r1 r2 r4 r8 r16 c =
      (c.points
        ≡ (1, million r1)
          ∷ (2, million r2)
          ∷ (4, million r4)
          ∷ (8, million r8)
          ∷ (16, million r16)
          ∷ [])
      × (c.factors
          ≡ num.div (million r1) (million r1)
            ∷ num.div (million r2) (million r1)
            ∷ num.div (million r4) (million r1)
            ∷ num.div (million r8) (million r1)
            ∷ num.div (million r16) (million r1)
            ∷ [])

  curve-Shows :
      (plt : Pyplot num.F)
      → IsPyplot plt
      → (d : Dict Text (List ℕ)) (r1 r2 r4 r8 r16 : ℕ)
      → Dict.index (decimal cxl_latency) d ≡ ok (r1 ∷ r2 ∷ r4 ∷ r8 ∷ r16 ∷ [])
      → (c : Curve num.F) × (curve num plt d ≡ ok c) × Shows r1 r2 r4 r8 r16 c
  unfolding curve curve_of factors_of millions
  curve-Shows plt draws d r1 r2 r4 r8 r16 e =
      let row : List ℕ = r1 ∷ r2 ∷ r4 ∷ r8 ∷ r16 ∷ [] in
      (
        curve_of num row,
        rw (e, draws.plot_ok (map num.of_nat num_cores_list) (millions num row) refl) refl,
        (refl, refl),
      )

module _ (num : Num) (logs : Job → List Text) (perf : Job → Perf num) (js : List Job) where
  -- Where the table that notebooks/rocksdb.ipynb stores as JSON is the one of the measured runs, and
  -- matplotlib draws as many values as positions: the row of the latency 5000 is found again under the
  -- text of that number, and the annotations of the curve that is drawn of it stand at the throughput of
  -- the fastest run on 1, 2, 4, 8 and 16 cores, in millions, and show its factor to that on one core.
  pub curve-scaling :
      (plt : Pyplot num.F)
      → IsPyplot plt
      → (f : Figures num) → IsMeasured num logs perf js f
      → (r1 r2 r4 r8 r16 : ℕ) × (c : Curve num.F) × (curve num plt (through_json f.scaling) ≡ ok c)
        × Shows num r1 r2 r4 r8 r16 c
        × Row num logs perf js 5000 (r1 ∷ r2 ∷ r4 ∷ r8 ∷ r16 ∷ [])
  curve-scaling plt draws f h =
      let (rows, e, p) = h.scaling in
      let (rs, found, fastest) =
        zip-Pointwise (Row num logs perf js) 5000 latency_list rows p
          (inr (inr (inr (inr (inr (inr (inl refl))))))) in
      let (r1, r2, r4, r8, r16, five) =
        five_values (λ n r. IsBest num logs perf js (codes "readrandom") n 5000 r) rs fastest in
      let (c, drawn, shown) = curve-Shows num plt draws (through_json f.scaling) r1 r2 r4 r8 r16 (
        Dict.index-get (decimal 5000) rs (through_json f.scaling)
          (get-through_json 5000 f.scaling ∙ rw e found)
        ∙ ap ok five) in
      (r1, r2, r4, r8, r16, c, drawn, shown, rw five at fastest)
