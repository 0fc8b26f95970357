-- ===== src/Microbench/Chain/Cycle.antt =====
-- The chain that `create_pointer_chain` makes: one cycle through all its places.
use cxlkvs.Prelude.{
  ℕ, zero, suc, ◌+◌, ◌-◌, ◌*◌, ◌/◌, ◌^◌, ◌≤◌, ◌<◌, ◌≡◌, ◌∙◌, sym, ap, refl, none, some, arith,
  nat_eq,
}
use cxlkvs.Microbench.Chain.{
  Item, store, load, Array, set, read, write, ◌>>=◌, sub64, mul64, fill, shuffle, link,
  make_indices, make_chain, create_pointer_chain, follow,
}
use cxlkvs.Microbench.Chain.Bytes.{load-store}
use cxlkvs.Microbench.Chain.Shuffle.{
  IsIndices, read_inside, write_inside, fill-at, suc-IsIndices, shuffle-IsIndices,
}
use cxlkvs.Microbench.Chain.Links.{
  visit, visit_below, visit_distinct, visit_place, Linked, set-Linked, link-Linked, links,
}

-- From place 0 the chain comes back behind `size` steps, and no sooner, and the steps before that go through every place once.
pub record IsCycle (size : ℕ) (chain : Array Item) : Type 0 where
  pub returns : follow chain size 0 ≡ some 0
  pub inside : (k : ℕ) → k < size → (p : ℕ) × (follow chain k 0 ≡ some p) × (p < size)
  pub exhausts : (p : ℕ) → p < size → (k : ℕ) × (k < size) × (follow chain k 0 ≡ some p)
  pub once :
      (j k p : ℕ)
      → j < size
      → k < size
      → follow chain j 0 ≡ some p
      → follow chain k 0 ≡ some p
      → j ≡ k

pub some_injective : {a b : ℕ} → some a ≡ some b → a ≡ b
some_injective {a = a} e = ap (λ r. elim r [ some x ↦ x | none ↦ a ]) e

-- The places in their order, each linked with the next, and the last with place 0.
record IsClosed (n : ℕ) (f : ℕ → ℕ) (chain : Array Item) : Type 0 where
  indices : IsIndices n f
  len : chain.len ≡ n + 1
  linked : (k : ℕ) → k < n → load (chain.at (visit f k)) ≡ visit f (suc k)
  closed : load (chain.at (visit f n)) ≡ 0

module _ (n : ℕ) (f : ℕ → ℕ) (chain : Array Item) (h : IsClosed n f chain) where
  read-visit : (k : ℕ) → k ≤ n → read chain (visit f k) ≡ some (chain.at (visit f k))
  read-visit k le =
      read_inside chain (visit f k) (omega (arith, visit_below n f h.indices k le, h.len))

  follow-visit : (k m : ℕ) → m + k ≤ n → follow chain k (visit f m) ≡ some (visit f (m + k))
  unfolding follow
  follow-visit zero m le = let e : m ≡ m + 0 = omega arith in ap (λ x. some (visit f x)) e
  follow-visit (suc k) m le =
      rw (read-visit m (omega arith), h.linked m (omega arith))
        (let e : suc m + k ≡ m + suc k = omega arith in
          follow-visit k (suc m) (omega arith) ∙ ap (λ x. some (visit f x)) e)

  follow_back : (k m : ℕ) → m + k ≡ n → follow chain (suc k) (visit f m) ≡ some 0
  unfolding follow
  follow_back zero m e =
      let same : m ≡ n = omega arith in rw (read-visit m (omega arith)) (rw same (ap some h.closed))
  follow_back (suc k) m e =
      rw (read-visit m (omega arith), h.linked m (omega arith))
        (follow_back k (suc m) (omega arith))

  follow_start : (k : ℕ) → k ≤ n → follow chain k 0 ≡ some (visit f k)
  follow_start k le =
      let e : 0 + k ≡ k = omega arith in
      follow-visit k 0 (omega arith) ∙ ap (λ x. some (visit f x)) e

  closed-IsCycle : IsCycle (n + 1) chain
  closed-IsCycle = record {
    returns = let e : n + 1 ≡ suc n = omega arith in rw e (follow_back n 0 (omega arith));
    inside = λ k lt. (
      visit f k,
      follow_start k (omega arith),
      omega (arith, visit_below n f h.indices k (omega arith)),
    );
    exhausts = λ p lt.
        let (k, le, e) = visit_place n f h.indices p (omega arith) in
        (k, omega arith, follow_start k le ∙ ap some e);
    once = λ j k p jn kn e e'. visit_distinct n f h.indices j k (omega arith) (omega arith) (
        some_injective
          (sym (follow_start j (omega arith)) ∙ (e ∙ (sym e' ∙ follow_start k (omega arith)))));
  }

module _ (n : ℕ) (small : (n + 2) * 64 < 2 ^ 64) where
  one_less : sub64 (n + 2) 1 ≡ n + 1
  one_less = omega arith

  two_less : sub64 (n + 2) 2 ≡ n
  two_less = omega arith

  make_indices_unwrapped :
      (rand : ℕ → ℕ) (rand_max : ℕ) (garbage : ℕ → ℕ)
      → make_indices rand rand_max garbage (n + 2) ≡ (do
        idx ← fill (n + 1) 0 (record { len = n + 1; at = garbage })
        shuffle rand rand_max n 0 idx)
  unfolding make_indices
  make_indices_unwrapped rand rand_max garbage =
      let bytes : mul64 (n + 1) 8 / 8 ≡ n + 1 = omega arith in rw (one_less, two_less, bytes)

  make_indices-IsIndices :
      (rand : ℕ → ℕ) (rand_max : ℕ) (garbage : ℕ → ℕ)
      → (idx : Array ℕ) × (make_indices rand rand_max garbage (n + 2) ≡ some idx)
        × (idx.len ≡ n + 1)
        × IsIndices (n + 1) idx.at
  make_indices-IsIndices rand rand_max garbage =
      let raw : Array ℕ = record { len = n + 1; at = garbage } in
      let (idx0, e0, len0, at0) =
        fill-at (n + 1) 0 raw (omega arith) (λ k lt. absurd (omega arith)) in
      let (idx, e, len, done) =
        shuffle-IsIndices rand rand_max (n + 1) n 0 idx0 len0 (omega arith)
          (suc-IsIndices (n + 1) idx0.at (λ k lt. at0 k (omega arith))) in
      (idx, make_indices_unwrapped rand rand_max garbage ∙ rw e0 e, len, done)

  abbrev zeros : Array Item
  zeros = record { len = n + 2; at = λ p. store 0 }

  make_chain_unwrapped :
      (idx : Array ℕ)
      → idx.len ≡ n + 1
      → idx.at n ≤ n + 1
      → make_chain idx (n + 2) ≡ (do
        chain ← link n 1 idx (record zeros { at = set 0 (store (idx.at 0)) zeros.at })
        write (idx.at n) (store 0) chain)
  unfolding make_chain
  make_chain_unwrapped idx len le =
      let bytes : mul64 (n + 2) 64 / 64 ≡ n + 2 = omega arith in
      let rounds : n + 1 - 1 ≡ n = omega arith in
      rw (
        one_less,
        two_less,
        bytes,
        rounds,
        read_inside idx 0 (omega arith),
        read_inside idx n (omega arith),
        write_inside 0 (store (idx.at 0)) zeros (omega arith),
      )

  last_place : (f : ℕ → ℕ) (at : ℕ → Item) → load (set (f n) (store 0) at (visit f (n + 1))) ≡ 0
  last_place f at =
      let s : n + 1 ≡ suc n = omega arith in
      rw (s, (nat_eq.equal_iff (f n) (f n)).1 refl) (load-store 0 (omega arith))

  make_chain-IsClosed :
      (idx : Array ℕ)
      → idx.len ≡ n + 1
      → IsIndices (n + 1) idx.at
      → (chain : Array Item) × (make_chain idx (n + 2) ≡ some chain) × IsClosed (n + 1) idx.at chain
  make_chain-IsClosed idx len h =
      let start : Array Item = record zeros { at = set 0 (store (idx.at 0)) zeros.at } in
      let first : Linked (n + 1) idx.at h 1 start.at = λ k lt.
        link-Linked (n + 1) idx.at h (omega arith) 0 zeros.at (omega arith)
          (λ j none_below. absurd (omega arith)) k (omega arith) in
      let (chain, e, len', linked) =
        links (n + 1) idx h (omega arith) n 1 start (omega arith) (omega arith) len (omega arith)
          first in
      let last = h.high n (omega arith) in
      (
        record chain { at = set (idx.at n) (store 0) chain.at },
        make_chain_unwrapped idx len last
            ∙ rw e (write_inside (idx.at n) (store 0) chain (omega arith)),
        record {
          indices = h;
          len = len';
          linked =
              set-Linked (n + 1) idx.at h (n + 1) (suc n) (store 0) chain.at (omega arith)
                (omega arith) linked;
          closed = last_place idx.at chain.at;
        },
      )

  -- Whatever `rand` returns, and for every size from 2 whose chain has less than 2^64 bytes, no access is outside its array, and the
  -- chain is one cycle through all its places.
  pub create_pointer_chain-IsCycle :
      (rand : ℕ → ℕ) (rand_max : ℕ) (garbage : ℕ → ℕ)
      → (chain : Array Item) × (create_pointer_chain rand rand_max garbage (n + 2) ≡ some chain)
        × (chain.len ≡ n + 2)
        × IsCycle (n + 2) chain
  unfolding create_pointer_chain
  create_pointer_chain-IsCycle rand rand_max garbage =
      let (idx, e, len, done) = make_indices-IsIndices rand rand_max garbage in
      let (chain, e', closed) = make_chain-IsClosed idx len done in
      let size : n + 1 + 1 ≡ n + 2 = omega arith in
      (
        chain,
        rw (e, e'),
        closed.len ∙ size,
        rw size at (closed-IsCycle (n + 1) idx.at chain closed),
      )
