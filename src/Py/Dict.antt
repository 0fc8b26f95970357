-- ===== src/Py/Dict.antt =====
-- Python's `dict`: an association list in the order of insertion. Assigning to a key that is there
-- keeps its place.
pub mod Lists
use cxlkvs.Prelude.{
  ◌∙◌, ap, Option-cases, false, ◌≡◌, refl, Option, none, some, List, [], ◌∷◌, arith, Eq, Bool-cases,
  inl, inr, ◌&&◌, ◌==◌, if◌then◌else◌, ◌&&◌,
}
use cxlkvs.Py.Result.{Result, ok, err, key_error, ok_injective}

abbrev pub Dict {ℓ κ} : Type ℓ → Type κ → Type (ℓ ⊔ κ)
Dict K V = List (K × V)

module _ {ℓ κ} {K : Type ℓ} ⦃e : Eq K⦄ {V : Type κ} where
  -- `d.get(k)`
  unfoldable pub get : K → Dict K V → Option V
  get k [] = none
  get k ((j, v) ∷ d) = if j == k then some v else get k d

  -- `d[k] = v`
  unfoldable pub put : K → V → Dict K V → Dict K V
  put k v [] = (k, v) ∷ []
  put k v ((j, w) ∷ d) = if j == k then (j, v) ∷ d else (j, w) ∷ put k v d

  -- `d[k]`
  unfoldable pub index : K → Dict K V → Result V
  unfolding get
  index k d = elim (get k d) [ none ↦ err key_error | some v ↦ ok v ]

  pub index-get : (k : K) (v : V) (d : Dict K V) → get k d ≡ some v → index k d ≡ ok v
  unfolding index
  index-get k v d e = rw (index, e)

  pub index-ok : (k : K) (v : V) (d : Dict K V) → index k d ≡ ok v → get k d ≡ some v
  unfolding index
  index-ok k v d e = elim (Option-cases (get k d)) [
    | inl f ↦ cc (rw (index, f) at e)
    | inr (w, f) ↦ f ∙ ap some (ok_injective (rw (index, f) at e))
  ]

  pub get-single : (k : K) (v : V) → get k ((k, v) ∷ []) ≡ some v
  unfolding get
  get-single k v = rw ((e.equal_iff k k).1 refl)

  -- a read after a write, whatever the two keys
  pub get-put :
      (k j : K) (v : V) (d : Dict K V) → get j (put k v d) ≡ (if k == j then some v else get j d)
  unfolding get put
  get-put k j v [] = refl
  get-put k j v ((i, w) ∷ d) =
      ground (arith, e.equal_iff k j, e.equal_iff i k, e.equal_iff i j, get-put k j v d)

  pub get-put_same : (k : K) (v : V) (d : Dict K V) → get k (put k v d) ≡ some v
  get-put_same k v d = rw (get-put k k v d, (e.equal_iff k k).1 refl)

  pub get-put_other :
      (k j : K) (v : V) (d : Dict K V) → (k == j) ≡ false → get j (put k v d) ≡ get j d
  get-put_other k j v d h = rw (get-put k j v d, h)

-- `d.get(k, {})`
abbrev pub or_empty {ℓ κ} : {K : Type ℓ} {V : Type κ} → Option (Dict K V) → Dict K V
or_empty none = []
or_empty (some d) = d

module _ {ℓ κ ι} {J : Type ℓ} ⦃e : Eq J⦄ {K : Type κ} ⦃f : Eq K⦄ {V : Type ι} where
  -- a value that is there is in a dictionary that is there
  pub get-or_empty :
      (j : J) (k : K) (v : V) (d : Dict J (Dict K V))
      → get k (or_empty (get j d)) ≡ some v
      → (inner : Dict K V) × ((get j d ≡ some inner) × (get k inner ≡ some v))
  unfolding get
  get-or_empty j k v d e = elim (Option-cases (get j d)) [
    | inl f ↦ cc (rw f at e)
    | inr (inner, f) ↦ (inner, (f, rw f at e))
  ]

  -- `if(j not in d): d[j] = {}`, and then `d[j][k] = v`
  unfoldable pub put_nested : J → K → V → Dict J (Dict K V) → Dict J (Dict K V)
  put_nested j k v d = put j (put k v (or_empty (get j d))) d

  -- `d[j][k]`, where both are there
  unfoldable pub get_nested : J → K → Dict J (Dict K V) → Option V
  get_nested j k d = get k (or_empty (get j d))

  pub get_nested-put_nested :
      (j i : J) (k l : K) (v : V) (d : Dict J (Dict K V))
      → get_nested i l (put_nested j k v d)
        ≡ (if j == i && k == l then some v else get_nested i l d)
  unfolding get_nested put_nested
  get_nested-put_nested j i k l v d = elim (Bool-cases (j == i)) [
    | inl same ↦ rw (get-put, same, get-put, (e.equal_iff j i).0 same)
    | inr other ↦ rw (get-put, other)
  ]
