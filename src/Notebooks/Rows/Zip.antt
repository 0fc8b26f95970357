-- ===== src/Notebooks/Rows/Zip.antt =====
-- What the loops leave in `throughput_dict`: a row for each latency, with a value for each number of cores.
use cxlkvs.Prelude.{
  ℕ, ◌+◌, ◌≡◌, ◌∙◌, refl, sym, ap, false, none, some, List, [], ◌∷◌, ◌++◌, All, nat_eq, ◌==◌,
  Bool-cases, inl, inr, append_assoc, append-nil,
}
use cxlkvs.Py.Result.{Result, ok, traverse, traverse_from, traverse_ok, traverse_from_ok}
use cxlkvs.Py.Dict
use cxlkvs.Py.Dict.{Dict}
use cxlkvs.Notebooks.Rows.{append_to, add_row, add_rows}

abbrev pub zip {ℓ κ} : {A : Type ℓ} {B : Type κ} → List A → List B → List (A × B)
zip [] ys = []
zip (x ∷ xs) [] = []
zip (x ∷ xs) (y ∷ ys) = (x, y) ∷ zip xs ys

-- no latency occurs twice
abbrev pub Distinct : List ℕ → Type 0
Distinct [] = Unit
Distinct (l ∷ ls) = All (λ m. (l == m) ≡ false) ls × Distinct ls

module _ {ℓ} {V : Type ℓ} where
  get-new :
      (k : ℕ) (v : V) (d : Dict ℕ V) → Dict.get k d ≡ none → Dict.get k (d ++ (k, v) ∷ []) ≡ some v
  unfolding Dict.get
  get-new k v [] e = Dict.get-single k v
  get-new k v ((j, w) ∷ d) e = elim (Bool-cases (j == k)) [
    | inl same ↦ cc (rw same at e)
    | inr other ↦ rw other (get-new k v d (rw other at e))
  ]

  pub put-new :
      (k : ℕ) (v : V) (d : Dict ℕ V) → Dict.get k d ≡ none → Dict.put k v d ≡ d ++ (k, v) ∷ []
  unfolding Dict.get Dict.put
  put-new k v [] e = refl
  put-new k v ((j, w) ∷ d) e = elim (Bool-cases (j == k)) [
    | inl same ↦ cc (rw same at e)
    | inr other ↦ rw other (ap (λ d'. (j, w) ∷ d') (put-new k v d (rw other at e)))
  ]

  put-last :
      (k : ℕ) (v u : V) (d : Dict ℕ V)
      → Dict.get k d ≡ none
      → Dict.put k u (d ++ (k, v) ∷ []) ≡ d ++ (k, u) ∷ []
  unfolding Dict.get Dict.put
  put-last k v u [] e = rw ((nat_eq.equal_iff k k).1 refl)
  put-last k v u ((j, w) ∷ d) e = elim (Bool-cases (j == k)) [
    | inl same ↦ cc (rw same at e)
    | inr other ↦ rw other (ap (λ d'. (j, w) ∷ d') (put-last k v u d (rw other at e)))
  ]

  pub get-append_other :
      (k l : ℕ) (v : V) (d : Dict ℕ V)
      → (k == l) ≡ false
      → Dict.get l d ≡ none
      → Dict.get l (d ++ (k, v) ∷ []) ≡ none
  unfolding Dict.get
  get-append_other k l v [] h e = rw h
  get-append_other k l v ((j, w) ∷ d) h e = elim (Bool-cases (j == l)) [
    | inl same ↦ cc (rw same at e)
    | inr other ↦ rw other (get-append_other k l v d h (rw other at e))
  ]

  pub fresh_others :
      (l : ℕ) (r : V) (ls : List ℕ) (d : Dict ℕ V)
      → All (λ m. Dict.get m d ≡ none) ls
      → All (λ m. (l == m) ≡ false) ls
      → All (λ m. Dict.get m (d ++ (l, r) ∷ []) ≡ none) ls
  fresh_others l r [] d h k = tt
  fresh_others l r (m ∷ ms) d h k =
      (get-append_other l m r d k.0 h.0, fresh_others l r ms d h.1 k.1)

pub all_fresh {ℓ} : (V : Type ℓ) (ls : List ℕ) → All (λ m. Dict.get {V = V} m [] ≡ none) ls
unfolding Dict.get
all_fresh V [] = tt
all_fresh V (l ∷ ls) = (refl, all_fresh V ls)

module _ {ℓ} {V : Type ℓ} (value : ℕ → ℕ → ℕ → Result V) where
  add_row-last :
      (i lat : ℕ) (cores : List ℕ) (ts us : List V) (d : Dict ℕ (List V))
      → Dict.get lat d ≡ none
      → traverse (value i lat) cores ≡ ok us
      → add_row value i lat cores (d ++ (lat, ts) ∷ []) ≡ ok (d ++ (lat, ts ++ us) ∷ [])
  unfolding add_row traverse append_to
  add_row-last i lat [] ts us d h e = let same : [] ≡ us = cc e in rw (← same) (rw append-nil)
  add_row-last i lat (c ∷ cs) ts zs d h e =
      let (y, us, e1, e2, e3) = traverse_ok (value i lat) c cs zs e in
      rw (e1, get-new lat ts d h, put-last lat ts (ts ++ y ∷ []) d h)
        (rw (← e3) (
          add_row-last i lat cs (ts ++ y ∷ []) us d h e2
          ∙ ap (λ zs. ok (d ++ (lat, zs) ∷ [])) (append_assoc ts (y ∷ []) us)))

  -- the first number of cores makes the row, and the others extend it
  add_row-new :
      (i lat c : ℕ) (cs : List ℕ) (ts : List V) (d : Dict ℕ (List V))
      → Dict.get lat d ≡ none
      → traverse (value i lat) (c ∷ cs) ≡ ok ts
      → add_row value i lat (c ∷ cs) d ≡ ok (d ++ (lat, ts) ∷ [])
  unfolding add_row append_to
  add_row-new i lat c cs ts d h e =
      let (y, us, e1, e2, e3) = traverse_ok (value i lat) c cs ts e in
      rw (e1, h, put-new lat (y ∷ []) d h) (rw (← e3) (add_row-last i lat cs (y ∷ []) us d h e2))

  add_rows-append :
      (c : ℕ) (cs : List ℕ) (i : ℕ) (lats : List ℕ) (rs : List (List V)) (d : Dict ℕ (List V))
      → All (λ l. Dict.get l d ≡ none) lats
      → Distinct lats
      → traverse_from (λ j lat. traverse (value j lat) (c ∷ cs)) i lats ≡ ok rs
      → add_rows value (c ∷ cs) i lats d ≡ ok (d ++ zip lats rs)
  unfolding add_rows traverse_from
  add_rows-append c cs i [] rs d h k e = ap ok (sym (append-nil d))
  add_rows-append c cs i (l ∷ ls) zs d h k e =
      let (r, rs, e1, e2, e3) =
        traverse_from_ok (λ j lat. traverse (value j lat) (c ∷ cs)) i l ls zs e in
      let fresh : All (λ m. Dict.get m (d ++ (l, r) ∷ []) ≡ none) ls =
        fresh_others l r ls d h.1 k.0 in
      rw (add_row-new i l c cs r d h.0 e1) (
        rw (← e3) (
          add_rows-append c cs (i + 1) ls rs (d ++ (l, r) ∷ []) fresh k.1 e2
          ∙ ap ok (append_assoc d ((l, r) ∷ []) (zip ls rs))))

  -- Where every value is there and no latency occurs twice, the loops leave a row for each latency, in
  -- order, with the value for each number of cores, in order.
  pub add_rows-zip :
      (c : ℕ) (cs lats : List ℕ) (rs : List (List V))
      → Distinct lats
      → traverse_from (λ i lat. traverse (value i lat) (c ∷ cs)) 0 lats ≡ ok rs
      → add_rows value (c ∷ cs) 0 lats [] ≡ ok (zip lats rs)
  add_rows-zip c cs lats rs k e = add_rows-append c cs 0 lats rs [] (all_fresh (List V) lats) k e
