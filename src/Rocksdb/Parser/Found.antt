-- ===== src/Rocksdb/Parser/Found.antt =====
-- What `RocksDBParser` has collected is what the runs have left, and the lists of numbers of threads are theirs.
use cxlkvs.Prelude.{
  ℕ, ◌≡◌, refl, sym, Bool, true, some, List, [], ◌∷◌, ltb, ◌==◌, ◌⊎◌, In, nat_eq, text_eq,
  Bool-cases, inl, inr,
}
use cxlkvs.Py.Text.{Text}
use cxlkvs.Py.Num.{Num}
use cxlkvs.Py.Result.{ok, ok_injective, bind_ok}
use cxlkvs.Py.Sort.{sort, insert}
use cxlkvs.Py.Dict.{Dict, index, index-get, index-ok, get, get-or_empty}
use cxlkvs.Rocksdb.Batch.{Job}
use cxlkvs.Rocksdb.Parser.{Names, Perf, Stats, keys, sorted_keys, get_perf, get_num_threads_list}
use cxlkvs.Rocksdb.Parser.JobName.{names_of}
use cxlkvs.Rocksdb.Parser.Lookup.{and_parts, same_names, lookup, lookup-add_perf, collect}

same_names_equal : (m n : Names) → same_names m n ≡ true → m ≡ n
same_names_equal m n h =
    let (test, rest) = and_parts (m.test == n.test) _ h in
    let (cores, rest') = and_parts (m.num_cores == n.num_cores) _ rest in
    let (late, threads) = and_parts (m.latency == n.latency) _ rest' in
    λ i. record {
      test = (text_eq.equal_iff m.test n.test).0 test i;
      num_cores = (nat_eq.equal_iff m.num_cores n.num_cores).0 cores i;
      num_threads = (nat_eq.equal_iff m.num_threads n.num_threads).0 threads i;
      latency = (nat_eq.equal_iff m.latency n.latency).0 late i;
    }

module _ {A : Type 0} (less : A → A → Bool) where
  In-insert : (x y : A) (ys : List A) → In x (y ∷ ys) → In x (insert less y ys)
  unfolding insert
  In-insert x y [] h = h
  In-insert x y (z ∷ zs) h = elim (Bool-cases (less z y)) [
    | inr e ↦ rw e h
    | inl e ↦ rw e (elim h [
      | inl same ↦ inr (In-insert x y zs (inl same))
      | inr later ↦ elim later [
        | inl head ↦ inl head
        | inr tail ↦ inr (In-insert x y zs (inr tail))
      ]
    ])
  ]

  In-sort : (x : A) (xs : List A) → In x xs → In x (sort less xs)
  unfolding sort
  In-sort x (y ∷ ys) h =
      In-insert x y (sort less ys) (elim h [ inl e ↦ inl e | inr k ↦ inr (In-sort x ys k) ])
  In-sort x [] h = absurd h

In-keys : {V : Type 0} (k : ℕ) (v : V) (d : Dict ℕ V) → get k d ≡ some v → In k (keys d)
unfolding get
In-keys k v [] e = cc e
In-keys k v ((j, w) ∷ d) e = elim (Bool-cases (j == k)) [
  | inl same ↦ inl (sym ((nat_eq.equal_iff j k).0 same))
  | inr other ↦ inr (In-keys k v d (rw other at e))
]

module _ (num : Num) where
  -- a value is the figures of a run with its key, or was there before
  pub lookup-collect :
      (logs : Job → List Text) (perf : Job → Perf num) (js : List Job) (m : Names) (d : Perf num)
      (stats : Stats num)
      → lookup num m (collect num logs perf js stats) ≡ some d
      → (lookup num m stats ≡ some d) ⊎ ((j : Job) × In j js × (names_of j ≡ m) × (perf j ≡ d))
  unfolding collect
  lookup-collect logs perf [] m d stats e = inl e
  lookup-collect logs perf (j ∷ js) m d stats e = elim (lookup-collect logs perf js m d _ e) [
    | inr (k, i, same, eq) ↦ inr (k, inr i, same, eq)
    | inl f ↦ elim (Bool-cases (same_names (names_of j) m)) [
      | inl same ↦ inr (
        j,
        inl refl,
        same_names_equal (names_of j) m same,
        cc (rw (lookup-add_perf num (names_of j) m (perf j) stats, same) at f),
      )
      | inr other ↦ inl (rw (lookup-add_perf num (names_of j) m (perf j) stats, other) at f)
    ]
  ]

  -- the list of numbers of threads is there wherever the workload ran with that number of cores
  pub get_num_threads_list-lookup :
      (n : Names) (d : Perf num) (latency : ℕ) (stats : Stats num)
      → lookup num n stats ≡ some d
      → (ns : List ℕ) × (get_num_threads_list num stats n.test n.num_cores latency ≡ ok ns)
  unfolding lookup get_num_threads_list
  get_num_threads_list-lookup n d latency stats e =
      let (by_threads, (g, e1)) = get-or_empty n.latency n.num_threads d _ e in
      let (by_latency, (f, e2)) = get-or_empty n.num_cores n.latency by_threads _ g in
      let (by_cores, (h, e3)) = get-or_empty n.test n.num_cores by_latency stats f in
      (
        sorted_keys (get latency by_latency),
        rw (index-get n.test by_cores stats h, index-get n.num_cores by_latency by_cores e3),
      )

  -- and it has the number of each run
  pub In-num_threads :
      (n : Names) (d : Perf num) (ns : List ℕ) (stats : Stats num)
      → lookup num n stats ≡ some d
      → get_num_threads_list num stats n.test n.num_cores n.latency ≡ ok ns
      → In n.num_threads ns
  unfolding lookup get_num_threads_list
  In-num_threads n d ns stats e e' =
      let (by_threads, (g, e1)) = get-or_empty n.latency n.num_threads d _ e in
      let (by_latency, (f, e2)) = get-or_empty n.num_cores n.latency by_threads _ g in
      let (by_cores, (h, e3)) = get-or_empty n.test n.num_cores by_latency stats f in
      let same : sort ltb (keys by_threads) ≡ ns = ok_injective (
        rw (index-get n.test by_cores stats h, index-get n.num_cores by_latency by_cores e3, e2) at
          e') in
      rw (← same)
        (In-sort ltb n.num_threads (keys by_threads) (In-keys n.num_threads d by_threads e1))

  pub lookup-get_perf :
      (n : Names) (d : Perf num) (stats : Stats num)
      → get_perf num stats n.test n.num_cores n.latency n.num_threads ≡ ok d
      → lookup num n stats ≡ some d
  unfolding lookup get_perf
  lookup-get_perf n d stats e =
      let (by_cores, (e1, r1)) = bind_ok (index n.test stats) _ d e in
      let (by_latency, (e2, r2)) = bind_ok (index n.num_cores by_cores) _ d r1 in
      let (by_threads, (e3, r3)) = bind_ok (index n.latency by_latency) _ d r2 in
      rw (
        index-ok n.test by_cores stats e1,
        index-ok n.num_cores by_latency by_cores e2,
        index-ok n.latency by_threads by_latency e3,
        index-ok n.num_threads d by_threads r3,
      )
