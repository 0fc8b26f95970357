-- ===== src/Py/Dict/Lists.antt =====
-- `defaultdict(list)`.
use cxlkvs.Prelude.{
  ◌≡◌, Option, none, some, List, [], ◌∷◌, ◌++◌, Eq, ◌==◌, Bool-cases, inl, inr, if◌then◌else◌,
}
use cxlkvs.Py.Dict.{Dict, get, put, get-put}

abbrev or_nil {ℓ} : {V : Type ℓ} → Option (List V) → List V
or_nil none = []
or_nil (some vs) = vs

module _ {ℓ κ} {K : Type ℓ} ⦃e : Eq K⦄ {V : Type κ} where
  -- `d[k]`, as far as the values go
  unfoldable pub list_at : K → Dict K (List V) → List V
  unfolding get
  list_at k d = or_nil (get k d)

  -- `d[k].append(v)`
  unfoldable pub append_value : K → V → Dict K (List V) → Dict K (List V)
  unfolding list_at put
  append_value k v d = put k (list_at k d ++ v ∷ []) d

  pub list_at-append_value :
      (k j : K) (v : V) (d : Dict K (List V))
      → list_at j (append_value k v d) ≡ (if k == j then list_at j d ++ v ∷ [] else list_at j d)
  unfolding list_at append_value
  list_at-append_value k j v d = elim (Bool-cases (k == j)) [
    | inl f ↦ rw (get-put, f, (e.equal_iff k j).0 f)
    | inr f ↦ rw (get-put, f)
  ]
