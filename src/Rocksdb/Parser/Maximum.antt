-- ===== src/Rocksdb/Parser/Maximum.antt =====
-- `get_max_throughput`: its value is the maximum over the numbers of threads, and it is never missing.
use cxlkvs.Prelude.{
  ℕ, ◌≤◌, ◌≡◌, refl, ◌⊎◌, inl, inr, Bool, some, List, [], ◌∷◌, All, arith, ltb, ◌==◌, nat_eq,
  text_eq, if◌then◌else◌, Bool-cases, Option-cases,
}
use cxlkvs.Py.Text.{Text}
use cxlkvs.Py.Num.{Num}
use cxlkvs.Py.Result.{Result, ok, Result-cases}
use cxlkvs.Py.Sort.{sort, insert}
use cxlkvs.Py.Dict.{Dict, get, index, index-get}
use cxlkvs.Rocksdb.Parser.{
  Perf, Stats, keys, get_perf, get_num_threads_list, max_from, get_max_throughput,
}
use cxlkvs.Rocksdb.Parser.Suffix.{All-map}

module _ {A : Type 0} (P : A → Type 0) (less : A → A → Bool) where
  insert-All : (x : A) (ys : List A) → P x → All P ys → All P (insert less x ys)
  unfolding insert
  insert-All x [] p h = (p, tt)
  insert-All x (y ∷ ys) p h = elim (Bool-cases (less y x)) [
    | inl e ↦ rw e (h.0, insert-All x ys p h.1)
    | inr e ↦ rw e (p, h)
  ]

  sort-All : (xs : List A) → All P xs → All P (sort less xs)
  unfolding sort
  sort-All [] h = tt
  sort-All (x ∷ xs) h = insert-All x (sort less xs) h.0 (sort-All xs h.1)

-- each key has a value
keys-index : {V : Type 0} (d : Dict ℕ V) → All (λ k. (v : V) × (get k d ≡ some v)) (keys d)
unfolding get
keys-index [] = tt
keys-index {V = V} ((k, v) ∷ d) = (
  (v, rw ((nat_eq.equal_iff k k).1 refl)),
  All-map
      (λ j found. elim (Bool-cases (k == j)) [
        | inl e ↦ (v, rw e)
        | inr e ↦ (found.0, rw e (found.1))
      ])
      (keys d) (keys-index d),
)

greater_of : (r m t : ℕ) → r ≡ (if ltb m t then t else m) → (r ≡ m) ⊎ (t ≡ r)
greater_of r m t e = ground arith

module _ (num : Num) (stats : Stats num) (test : Text) (num_cores latency : ℕ) where
  abbrev perf_at : ℕ → Result (Perf num)
  perf_at n = get_perf num stats test num_cores latency n

  -- one of these numbers of threads has the throughput `r`
  abbrev pub Attains : List ℕ → ℕ → Type 0
  Attains [] r = ⊥
  Attains (n ∷ ns) r = ((p : Perf num) × (perf_at n ≡ ok p) × (p.throughput ≡ r)) ⊎ Attains ns r

  pub record IsMax (ns : List ℕ) (r : ℕ) : Type 0 where
    pub above : All (λ n. (p : Perf num) × (perf_at n ≡ ok p) × (p.throughput ≤ r)) ns
    pub attained : (r ≡ 0) ⊎ Attains ns r

  list-perf :
      (ns : List ℕ)
      → get_num_threads_list num stats test num_cores latency ≡ ok ns
      → All (λ n. (p : Perf num) × (perf_at n ≡ ok p)) ns
  unfolding get_num_threads_list get_perf
  list-perf ns e = elim (Result-cases (index test stats)) [
    | inr (x, f) ↦ cc (rw f at e)
    | inl (by_cores, f) ↦ elim (Result-cases (index num_cores by_cores)) [
      | inr (x, g) ↦ cc (rw (f, g) at e)
      | inl (by_latency, g) ↦ elim (Option-cases (get latency by_latency)) [
        | inl h ↦ let same : [] ≡ ns = cc (rw (f, g, h) at e) in rw (← same) tt
        | inr (by_threads, h) ↦
            let same : sort ltb (keys by_threads) ≡ ns = cc (rw (f, g, h) at e) in
            rw (← same) (
              sort-All (λ n. (p : Perf num) × (perf_at n ≡ ok p)) ltb (keys by_threads)
                (All-map
                  (λ n there. (
                    there.0,
                    rw (
                      f,
                      g,
                      index-get latency by_threads by_latency h,
                      index-get n there.0 by_threads there.1,
                    ),
                  ))
                  (keys by_threads) (keys-index by_threads)))
      ]
    ]
  ]

  max_from-IsMax :
      (ns : List ℕ) (m : ℕ)
      → All (λ n. (p : Perf num) × (perf_at n ≡ ok p)) ns
      → (r : ℕ) × (max_from num stats test num_cores latency m ns ≡ ok r)
        × (m ≤ r)
        × All (λ n. (p : Perf num) × (perf_at n ≡ ok p) × (p.throughput ≤ r)) ns
        × ((r ≡ m) ⊎ Attains ns r)
  unfolding max_from
  max_from-IsMax [] m h = (m, refl, omega arith, tt, inl refl)
  max_from-IsMax (n ∷ ns) m h =
      let (p, e) = h.0 in
      let t = p.throughput in
      let (r, f, above_m, above, attained) = max_from-IsMax ns (if ltb m t then t else m) h.1 in
      (
        r,
        rw e f,
        ground arith,
        ((p, e, ground arith), above),
        elim attained [
          | inr later ↦ inr (inr later)
          | inl same ↦ elim (greater_of r m t same) [
            | inl old ↦ inl old
            | inr new ↦ inr (inl (p, e, new))
          ]
        ],
      )

  -- The maximum is at least the throughput at each number of threads in the list, and is the
  -- throughput at one of them, or else 0. It is returned wherever the list of them is.
  pub get_max_throughput-IsMax :
      (ns : List ℕ)
      → get_num_threads_list num stats test num_cores latency ≡ ok ns
      → (r : ℕ) × (get_max_throughput num stats test num_cores latency ≡ ok r) × IsMax ns r
  unfolding get_max_throughput
  get_max_throughput-IsMax ns e =
      let (r, f, above_0, above, attained) = max_from-IsMax ns 0 (list-perf ns e) in
      (r, rw e f, record { above = above; attained = attained })
