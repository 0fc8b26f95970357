-- ===== src/Microbench/Chain/Shuffle.antt =====
-- The indices: whatever `rand` returns, each of 1 to n stands at one place, and every access is inside the array.
use cxlkvs.Prelude.{
  ℕ, zero, suc, ◌+◌, ◌-◌, ◌%◌, ◌≤◌, ◌<◌, ◌≡◌, ◌∙◌, sym, ap, refl, some, arith, ◌==◌, nat_eq,
  if◌then◌else◌, Bool-cases, inl, inr,
}
use cxlkvs.Microbench.Chain.{Array, set, read, write, fill, draw, swap, shuffle}

module _ {A : Type 0} where
  pub read_inside : (a : Array A) (i : ℕ) → i < a.len → read a i ≡ some (a.at i)
  unfolding read
  read_inside a i h = ground arith

  pub write_inside :
      (i : ℕ) (x : A) (a : Array A)
      → i < a.len
      → write i x a ≡ some (record a { at = set i x a.at })
  unfolding write
  write_inside i x a h = ground arith

-- the first `n` places hold the numbers from 1 to n
pub record IsIndices (n : ℕ) (f : ℕ → ℕ) : Type 0 where
  pub low : (k : ℕ) → k < n → 1 ≤ f k
  pub high : (k : ℕ) → k < n → f k ≤ n
  pub distinct : (j k : ℕ) → j < n → k < n → f j ≡ f k → j ≡ k
  pub place : (p : ℕ) → 1 ≤ p → p ≤ n → (k : ℕ) × (k < n) × (f k ≡ p)

abbrev swapped : ℕ → ℕ → ℕ → ℕ
swapped i j k = if k == i then j else if k == j then i else k

swapped_twice : (i j k : ℕ) → swapped i j (swapped i j k) ≡ k
swapped_twice i j k = ground arith

swapped_below : (n i j k : ℕ) → i < n → j < n → k < n → swapped i j k < n
swapped_below n i j k h1 h2 h3 = ground arith

set-swapped : (f : ℕ → ℕ) (i j k : ℕ) → set i (f j) (set j (f i) f) k ≡ f (swapped i j k)
set-swapped f i j k = elim (Bool-cases (k == i)) [
  | inl e ↦ rw e
  | inr e ↦ elim (Bool-cases (k == j)) [ inl e' ↦ rw (e, e') | inr e' ↦ rw (e, e') ]
]

swap-swapped :
    (idx : Array ℕ) (i j : ℕ)
    → i < idx.len
    → j < idx.len
    → swap i j idx ≡ some (record idx { at = λ k. idx.at (swapped i j k) })
unfolding swap
swap-swapped idx i j h k =
    let a1 : Array ℕ = record idx { at = set j (idx.at i) idx.at } in
    rw
      (
        read_inside idx j k,
        read_inside idx i h,
        write_inside j (idx.at i) idx k,
        write_inside i (idx.at j) a1 h,
      )
      (λ t. some (record { len = idx.len; at = λ m. set-swapped idx.at i j m t }))

swapped-IsIndices :
    (n i j : ℕ) (f : ℕ → ℕ) → i < n → j < n → IsIndices n f → IsIndices n (λ k. f (swapped i j k))
swapped-IsIndices n i j f hi hj h = record {
  low = λ k kn. h.low (swapped i j k) (swapped_below n i j k hi hj kn);
  high = λ k kn. h.high (swapped i j k) (swapped_below n i j k hi hj kn);
  distinct = λ a b an bn e.
      let same =
        h.distinct (swapped i j a) (swapped i j b) (swapped_below n i j a hi hj an)
          (swapped_below n i j b hi hj bn) e in
      sym (swapped_twice i j a) ∙ (ap (swapped i j) same ∙ swapped_twice i j b);
  place = λ p lo hi'.
      let (k, kn, e) = h.place p lo hi' in
      (swapped i j k, swapped_below n i j k hi hj kn, rw (swapped_twice i j k) e);
}

-- the numbers in their order
pub fill-at :
    (left i : ℕ) (idx : Array ℕ)
    → i + left ≤ idx.len
    → ((k : ℕ) → k < i → idx.at k ≡ k + 1)
    → (idx' : Array ℕ) × (fill left i idx ≡ some idx')
      × (idx'.len ≡ idx.len)
      × ((k : ℕ) → k < i + left → idx'.at k ≡ k + 1)
unfolding fill
fill-at zero i idx h e = (idx, refl, refl, λ k lt. e k (omega arith))
fill-at (suc left) i idx h e =
    let next : Array ℕ = record idx { at = set i (i + 1) idx.at } in
    let (idx', r, len, done) =
      fill-at left (i + 1) next (omega arith) (λ k lt. ground (arith, e k)) in
    (idx', rw (write_inside i (i + 1) idx (omega arith)) r, len, λ k lt. done k (omega arith))

module _ (rand : ℕ → ℕ) (rand_max n : ℕ) where
  pub shuffle-IsIndices :
      (i calls : ℕ) (idx : Array ℕ)
      → idx.len ≡ n
      → i < n
      → IsIndices n idx.at
      → (idx' : Array ℕ) × (shuffle rand rand_max i calls idx ≡ some idx')
        × (idx'.len ≡ n)
        × IsIndices n idx'.at
  unfolding shuffle
  shuffle-IsIndices zero calls idx e lt h = (idx, refl, e, h)
  shuffle-IsIndices (suc i) calls idx e lt h =
      let (r, calls') = draw rand rand_max (suc i) calls in
      let j = r % suc i in
      let below : j < suc i = omega arith in
      let next : Array ℕ = record idx { at = λ k. idx.at (swapped (suc i) j k) } in
      let (idx', f, len, done) =
        shuffle-IsIndices i calls' next e (omega arith)
          (swapped-IsIndices n (suc i) j idx.at lt (omega arith) h) in
      (idx', rw (swap-swapped idx (suc i) j (omega arith) (omega arith)) f, len, done)

pub suc-IsIndices : (n : ℕ) (f : ℕ → ℕ) → ((k : ℕ) → k < n → f k ≡ k + 1) → IsIndices n f
suc-IsIndices n f e = record {
  low = λ k kn. omega (arith, e k kn);
  high = λ k kn. omega (arith, e k kn);
  distinct = λ j k jn kn same. omega (arith, e j jn, e k kn);
  place = λ p lo hi. (p - 1, omega arith, omega (arith, e (p - 1) (omega arith)));
}
