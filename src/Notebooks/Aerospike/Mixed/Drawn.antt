-- ===== src/Notebooks/Aerospike/Mixed/Drawn.antt =====
-- The bars for all numbers of threads of notebooks/aerospike.ipynb can be drawn.
use cxlkvs.Prelude.{
  ℕ, ◌≡◌, refl, ap, sym, some, List, [], ◌∷◌, ◌++◌, In, All, length, ltb, nat_eq, inl, inr,
  Bool-cases, ◌==◌, suc,
}
use cxlkvs.Py.Text.{Text, codes}
use cxlkvs.Py.Decimal.{decimal}
use cxlkvs.Py.Num.{Num}
use cxlkvs.Py.Result.{ok}
use cxlkvs.Py.Sort.{sort}
use cxlkvs.Py.Sort.Members.{All_members, In-sort, sort-cons}
use cxlkvs.Py.Dict
use cxlkvs.Py.Dict.{Dict}
use cxlkvs.Aerospike.Analyzer.{Table}
use cxlkvs.Notebooks.Rows.{item}
use cxlkvs.Notebooks.Plot.Bars.{Pyplot, IsPyplot}
use cxlkvs.Notebooks.Aerospike.Mixed.{keys, at_threads, heights, client_bars, plot_all_throughputs}

module _ {V : Type 0} where
  keys-get : (k : ℕ) (d : Dict ℕ V) → In k (keys d) → (v : V) × (Dict.get k d ≡ some v)
  unfolding Dict.get
  keys-get k [] i = absurd i
  keys-get k ((j, v) ∷ d) (inl e) = (v, rw ((nat_eq.equal_iff j k).1 (sym e)) refl)
  keys-get k ((j, v) ∷ d) (inr i) = elim (Bool-cases (j == k)) [
    | inl f ↦ (v, rw f refl)
    | inr f ↦ let (w, e) = keys-get k d i in (w, rw f e)
  ]

  get-keys : (k : ℕ) (v : V) (d : Dict ℕ V) → Dict.get k d ≡ some v → In k (keys d)
  unfolding Dict.get
  get-keys k v [] e = cc e
  get-keys k v ((j, w) ∷ d) e = elim (Bool-cases (j == k)) [
    | inl f ↦ inl (sym ((nat_eq.equal_iff j k).0 f))
    | inr f ↦ inr (get-keys k v d (rw f at e))
  ]

  pub at_threads-get :
      (v : V) (d : Table V) → Dict.get_nested 512 512 d ≡ some v → at_threads d ≡ ok v
  unfolding at_threads Dict.get_nested
  at_threads-get v d e =
      let (row, (e1, e2)) = Dict.get-or_empty 512 512 v d e in
      rw (Dict.index-get 512 row d e1) (Dict.index-get 512 v row e2)

module _ (num : Num) (one_decimal : num.F → Text) (plt : Pyplot num.F) (draws : IsPyplot plt) where
  open num use {F, of_nat, div}

  length-heights :
      (row : Dict ℕ F) (ss : List ℕ) → length (heights num one_decimal plt row ss) ≡ length ss
  unfolding heights
  length-heights row [] = refl
  length-heights row (s ∷ ss) = ap suc (length-heights row ss)

  client_bars_ok :
      (ss cs : List ℕ) (d : Table F)
      → All (λ c. (row : Dict ℕ F) × (Dict.get c d ≡ some row)) cs
      → (bs : List (Text × List F)) × (client_bars num one_decimal plt ss cs d ≡ ok bs)
  unfolding client_bars
  client_bars_ok ss [] d h = ([], refl)
  client_bars_ok ss (c ∷ cs) d h =
      let (row, e) = h.0 in
      let y = heights num one_decimal plt row ss in
      let drawn = draws.bar_ok (length ss) y (length-heights row ss) in
      let (bs, f) = client_bars_ok ss cs d h.1 in
      ((decimal c ++ codes " clients", y) ∷ bs, rw (Dict.index-get c row d e, drawn, f) refl)

  plot_all_throughputs-sort :
      (d : Table F) (cs : List ℕ) (k : ℕ) (row : Dict ℕ F) (bs : List (Text × List F))
      → sort ltb (keys d) ≡ cs
      → item cs 0 ≡ ok k
      → Dict.get k d ≡ some row
      → client_bars num one_decimal plt (sort ltb (keys row)) cs d ≡ ok bs
      → plot_all_throughputs num one_decimal plt d ≡ ok (sort ltb (keys row), bs)
  unfolding plot_all_throughputs
  plot_all_throughputs-sort d cs k row bs e h f g = rw (e, h, Dict.index-get k row d f, g) refl

  pub plot_all_throughputs_ok :
      (c : ℕ) (row : Dict ℕ F) (d : Table F)
      → Dict.get c d ≡ some row
      → (r : List ℕ × List (Text × List F)) × (plot_all_throughputs num one_decimal plt d ≡ ok r)
  unfolding item
  plot_all_throughputs_ok c row d e =
      let (k, ks, f) = sort-cons ltb c (keys d) (get-keys c row d e) in
      let all : All (λ k. (v : Dict ℕ F) × (Dict.get k d ≡ some v)) (k ∷ ks) = rw f at (
        All_members (λ k. (v : Dict ℕ F) × (Dict.get k d ≡ some v)) (sort ltb (keys d))
          (λ k i. keys-get k d (In-sort ltb k (keys d) i))) in
      let (first, g) = all.0 in
      let (bs, b) = client_bars_ok (sort ltb (keys first)) (k ∷ ks) d all in
      (_, plot_all_throughputs-sort d (k ∷ ks) k first bs f refl g b)
