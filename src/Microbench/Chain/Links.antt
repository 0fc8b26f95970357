-- ===== src/Microbench/Chain/Links.antt =====
-- The links between the places, in the order in which the indices give them.
use cxlkvs.Prelude.{
  ℕ, zero, suc, ◌+◌, ◌^◌, ◌≤◌, ◌<◌, ◌≡◌, ◌∙◌, refl, some, arith, ◌==◌, nat_eq, Bool-cases, inl, inr,
}
use cxlkvs.Microbench.Chain.{Item, store, load, Array, set, sub64, link}
use cxlkvs.Microbench.Chain.Bytes.{load-store}
use cxlkvs.Microbench.Chain.Shuffle.{IsIndices, read_inside, write_inside}

-- place 0, and then those that the indices name
abbrev pub visit : (ℕ → ℕ) → ℕ → ℕ
visit f zero = 0
visit f (suc k) = f k

module _ (n : ℕ) (f : ℕ → ℕ) (h : IsIndices n f) where
  pub visit_below : (k : ℕ) → k ≤ n → visit f k ≤ n
  visit_below zero le = omega arith
  visit_below (suc k) le = h.high k (omega arith)

  pub visit_distinct : (j k : ℕ) → j ≤ n → k ≤ n → visit f j ≡ visit f k → j ≡ k
  visit_distinct zero zero le le' e = refl
  visit_distinct zero (suc k) le le' e = absurd (omega (arith, h.low k (omega arith)))
  visit_distinct (suc j) zero le le' e = absurd (omega (arith, h.low j (omega arith)))
  visit_distinct (suc j) (suc k) le le' e =
      omega (arith, h.distinct j k (omega arith) (omega arith) e)

  pub visit_place : (p : ℕ) → p ≤ n → (k : ℕ) × (k ≤ n) × (visit f k ≡ p)
  visit_place zero le = (0, omega arith, refl)
  visit_place (suc p) le =
      let (k, lt, e) = h.place (suc p) (omega arith) le in (suc k, omega arith, e)

  -- the first `m` places lead to the next
  abbrev pub Linked : ℕ → (ℕ → Item) → Type 0
  Linked m at = (k : ℕ) → k < m → load (at (visit f k)) ≡ visit f (suc k)

  -- another place is written
  pub set-Linked :
      (m i : ℕ) (x : Item) (at : ℕ → Item)
      → m ≤ i
      → i ≤ n
      → Linked m at
      → Linked m (set (visit f i) x at)
  set-Linked m i x at le le' l k lt = elim (Bool-cases (visit f k == visit f i)) [
    | inl e ↦ absurd (
        omega (
          arith,
          visit_distinct k i (omega arith) le' ((nat_eq.equal_iff (visit f k) (visit f i)).0 e),
        ))
    | inr e ↦ rw e (l k lt)
  ]

  module _ (small : n < 2 ^ 64) where
    -- the next link is made
    pub link-Linked :
        (m : ℕ) (at : ℕ → Item)
        → m < n
        → Linked m at
        → Linked (suc m) (set (visit f m) (store (visit f (suc m))) at)
    link-Linked m at lt l k lt' = elim (Bool-cases (k == m)) [
      | inl e ↦
          let same : k ≡ m = (nat_eq.equal_iff k m).0 e in
          rw (same, (nat_eq.equal_iff (visit f m) (visit f m)).1 refl)
            (load-store (f m) (omega (arith, h.high m lt)))
      | inr e ↦ set-Linked m m (store (f m)) at (omega arith) (omega arith) l k (ground arith)
    ]

module _ (n : ℕ) (idx : Array ℕ) (h : IsIndices n idx.at) (small : n < 2 ^ 64) where
  link_step :
      (left m : ℕ) (chain : Array Item)
      → suc m < n
      → idx.len ≡ n
      → chain.len ≡ n + 1
      → link (suc left) (suc m) idx chain
        ≡ link left
            (suc m + 1)
            idx
            (record chain { at = set (idx.at m) (store (idx.at (suc m))) chain.at })
  unfolding link
  link_step left m chain lt len len' =
      let before : sub64 (suc m) 1 ≡ m = omega arith in
      rw (
        before,
        read_inside idx m (omega arith),
        read_inside idx (suc m) (omega arith),
        write_inside (idx.at m) (store (idx.at (suc m))) chain
            (omega (arith, h.high m (omega arith))),
      )

  pub links :
      (left i : ℕ) (chain : Array Item)
      → 1 ≤ i
      → i + left ≡ n
      → idx.len ≡ n
      → chain.len ≡ n + 1
      → Linked n idx.at h i chain.at
      → (chain' : Array Item) × (link left i idx chain ≡ some chain')
        × (chain'.len ≡ n + 1)
        × Linked n idx.at h n chain'.at
  unfolding link
  links zero i chain lo e len len' l = (chain, refl, len', λ k lt. l k (omega arith))
  links (suc left) zero chain lo e len len' l = absurd (omega arith)
  links (suc left) (suc m) chain lo e len len' l =
      let next : Array Item = record chain {
        at = set (idx.at m) (store (idx.at (suc m))) chain.at;
      } in
      let (chain', r, len'', done) =
        links left (suc m + 1) next (omega arith) (omega arith) len len'
          (λ k lt. link-Linked n idx.at h small (suc m) chain.at (omega arith) l k (omega arith)) in
      (chain', link_step left m chain (omega arith) len len' ∙ r, len'', done)
