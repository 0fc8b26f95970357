-- ===== src/Notebooks/Rows/Columns.antt =====
-- `throughput_dict` of the notebooks is `max_throughput_dict`, transposed.
use cxlkvs.Prelude.{
  ℕ, zero, suc, ◌+◌, ◌≤◌, ◌<◌, ◌≡◌, ◌∙◌, ap, sym, refl, false, Option, none, some, List, [], ◌∷◌,
  ◌++◌, All, length, get_elem?, nat_eq, ◌==◌, arith, append-nil, append_assoc,
}
use cxlkvs.Py.Result.{
  Result, ok, bind_ok, ok_injective, traverse, traverse_from, traverse_ok, Pointwise,
}
use cxlkvs.Py.Dict
use cxlkvs.Py.Dict.{Dict}
use cxlkvs.Notebooks.Rows.Zip.{zip, Distinct, put-new, fresh_others}
use cxlkvs.Notebooks.Rows.{item, at_core, add_cores}

module _ {V : Type 0} where
  abbrev pub Stands : Dict ℕ V → List ℕ → List V → Type 0
  Stands d = Pointwise (λ c xs. Dict.get c d ≡ some xs)

  Stands-cons :
      (c : ℕ) (ys : V) (d : Dict ℕ V) (cs : List ℕ) (xss : List V)
      → All (λ m. (c == m) ≡ false) cs
      → Stands d cs xss
      → Stands ((c, ys) ∷ d) cs xss
  unfolding Dict.get
  Stands-cons c ys d [] [] h k = tt
  Stands-cons c ys d (m ∷ ms) (xs ∷ xss) h k = (rw (h.0) k.0, Stands-cons c ys d ms xss h.1 k.1)
  Stands-cons c ys d [] (xs ∷ xss) h k = absurd k
  Stands-cons c ys d (m ∷ ms) [] h k = absurd k

  pub zip-Stands :
      (f : ℕ → Result V) (cs : List ℕ) (xss : List V)
      → Distinct cs
      → traverse f cs ≡ ok xss
      → Stands (zip cs xss) cs xss
  unfolding traverse Dict.get
  zip-Stands f [] xss h e = let same : [] ≡ xss = ok_injective e in rw (← same) tt
  zip-Stands f (c ∷ cs) zss h e =
      let (xs, xss, e1, e2, e3) = traverse_ok f c cs zss e in
      rw (← e3) (
        rw ((nat_eq.equal_iff c c).1 refl) refl,
        Stands-cons c xs (zip cs xss) cs xss h.0 (zip-Stands f cs xss h.1 e2),
      )

module _ {ℓ} {V : Type ℓ} (f : ℕ → Result V) where
  pub add_cores-zip :
      (cs : List ℕ) (d m : Dict ℕ V)
      → All (λ c. Dict.get c d ≡ none) cs
      → Distinct cs
      → add_cores f cs d ≡ ok m
      → (xss : List V) × (traverse f cs ≡ ok xss) × (m ≡ d ++ zip cs xss)
  unfolding add_cores traverse
  add_cores-zip [] d m h k e = ([], refl, sym (ok_injective e) ∙ sym (append-nil d))
  add_cores-zip (c ∷ cs) d m h k e =
      let (xs, (e1, e2)) = bind_ok (f c) _ m e in
      let d' : Dict ℕ V = d ++ (c, xs) ∷ [] in
      let e3 : add_cores f cs d' ≡ ok m = rw (put-new c xs d h.0) at e2 in
      let (xss, e4, e5) = add_cores-zip cs d' m (fresh_others c xs cs d h.1 k.0) k.1 e3 in
      (xs ∷ xss, rw (e1, e4), e5 ∙ append_assoc d ((c, xs) ∷ []) (zip cs xss))

  -- the loop returns where its rounds do
  pub add_cores-traverse :
      (cs : List ℕ) (d : Dict ℕ V) (xss : List V)
      → All (λ c. Dict.get c d ≡ none) cs
      → Distinct cs
      → traverse f cs ≡ ok xss
      → add_cores f cs d ≡ ok (d ++ zip cs xss)
  unfolding add_cores traverse
  add_cores-traverse [] d xss h k e = ap ok (sym (append-nil d))
  add_cores-traverse (c ∷ cs) d zss h k e =
      let (xs, xss, e1, e2, e3) = traverse_ok f c cs zss e in
      let d' : Dict ℕ V = d ++ (c, xs) ∷ [] in
      rw (← e3) (
        rw (e1, put-new c xs d h.0)
          (add_cores-traverse cs d' xss (fresh_others c xs cs d h.1 k.0) k.1 e2
            ∙ ap ok (append_assoc d ((c, xs) ∷ []) (zip cs xss))))

-- the entry of a table, where it is there
abbrev pub entry {ℓ} : {V : Type ℓ} → Option (List V) → ℕ → Option V
entry none j = none
entry (some xs) j = get_elem? xs j

abbrev pub cell {ℓ} : {V : Type ℓ} → List (List V) → ℕ → ℕ → Option V
cell xss i j = entry (get_elem? xss i) j

module _ {V : Type 0} where
  abbrev one_or_none : Option V → List V → List V
  one_or_none none vs = vs
  one_or_none (some v) vs = v ∷ vs

  -- the elements with the number `i`
  pub column : ℕ → List (List V) → List V
  column i [] = []
  column i (xs ∷ xss) = one_or_none (get_elem? xs i) (column i xss)

  pub columns : List ℕ → ℕ → List (List V) → List (List V)
  columns [] i xss = []
  columns (l ∷ ls) i xss = column i xss ∷ columns ls (i + 1) xss

  get_elem?-some : (xs : List V) (i : ℕ) → i < length xs → (v : V) × (get_elem? xs i ≡ some v)
  get_elem?-some [] i h = absurd (omega arith)
  get_elem?-some (x ∷ xs) zero h = (x, refl)
  get_elem?-some (x ∷ xs) (suc i) h = get_elem?-some xs i (omega arith)

  traverse-column :
      (d : Dict ℕ (List V)) (i lat : ℕ) (cs : List ℕ) (xss : List (List V))
      → Stands d cs xss
      → All (λ xs. i < length xs) xss
      → traverse (at_core d i lat) cs ≡ ok (column i xss)
  unfolding traverse column at_core item
  traverse-column d i lat [] [] h k = refl
  traverse-column d i lat (c ∷ cs) (xs ∷ xss) h k =
      let (v, e) = get_elem?-some xs i k.0 in
      rw (Dict.index-get c xs d h.0, e, traverse-column d i lat cs xss h.1 k.1)
  traverse-column d i lat [] (xs ∷ xss) h k = absurd h
  traverse-column d i lat (c ∷ cs) [] h k = absurd h

  longer :
      (n i : ℕ) (xss : List (List V))
      → All (λ xs. length xs ≡ n) xss
      → i < n
      → All (λ xs. i < length xs) xss
  longer n i [] h lt = tt
  longer n i (xs ∷ xss) h lt = (omega (arith, h.0), longer n i xss h.1 lt)

  pub traverse_from-columns :
      (d : Dict ℕ (List V)) (cs : List ℕ) (n i : ℕ) (lats : List ℕ) (xss : List (List V))
      → Stands d cs xss
      → All (λ xs. length xs ≡ n) xss
      → i + length lats ≤ n
      → traverse_from (λ j lat. traverse (at_core d j lat) cs) i lats ≡ ok (columns lats i xss)
  unfolding traverse_from columns
  traverse_from-columns d cs n i [] xss h k le = refl
  traverse_from-columns d cs n i (lat ∷ lats) xss h k le = rw (
    traverse-column d i lat cs xss h (longer n i xss k (omega arith)),
    traverse_from-columns d cs n (i + 1) lats xss h k (omega arith),
  )

  column-cell :
      (i j : ℕ) (xss : List (List V))
      → All (λ xs. i < length xs) xss
      → get_elem? (column i xss) j ≡ cell xss j i
  unfolding column
  column-cell i j [] h = refl
  column-cell i zero (xs ∷ xss) h = let (v, e) = get_elem?-some xs i h.0 in rw e
  column-cell i (suc j) (xs ∷ xss) h =
      let (v, e) = get_elem?-some xs i h.0 in rw e (column-cell i j xss h.1)

  get_elem?-none : (xs : List V) (i : ℕ) → length xs ≤ i → get_elem? xs i ≡ none
  get_elem?-none [] i h = refl
  get_elem?-none (x ∷ xs) zero h = absurd (omega arith)
  get_elem?-none (x ∷ xs) (suc i) h = get_elem?-none xs i (omega arith)

  cell-none :
      (n i j : ℕ) (xss : List (List V))
      → All (λ xs. length xs ≡ n) xss
      → n ≤ i
      → cell xss j i ≡ none
  cell-none n i j [] h le = refl
  cell-none n i zero (xs ∷ xss) h le = get_elem?-none xs i (omega (arith, h.0))
  cell-none n i (suc j) (xs ∷ xss) h le = cell-none n i j xss h.1 le

  -- the row `i`, and the row `k + i` of the whole table
  pub columns-cell :
      (n k i j : ℕ) (lats : List ℕ) (xss : List (List V))
      → All (λ xs. length xs ≡ n) xss
      → k + length lats ≡ n
      → cell (columns lats k xss) i j ≡ cell xss j (k + i)
  unfolding columns
  columns-cell n k i j [] xss h e = sym (cell-none n (k + i) j xss h (omega arith))
  columns-cell n k zero j (l ∷ ls) xss h e =
      let whole : k + 0 ≡ k = omega arith in
      rw whole (column-cell k j xss (longer n k xss h (omega arith)))
  columns-cell n k (suc i) j (l ∷ ls) xss h e =
      let next : k + suc i ≡ (k + 1) + i = omega arith in
      rw next (columns-cell n (k + 1) i j ls xss h (omega arith))
