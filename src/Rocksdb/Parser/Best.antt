-- ===== src/Rocksdb/Parser/Best.antt =====
-- `get_max_throughput` over the runs of rocksdb/batch.py.
use cxlkvs.Prelude.{
  ℕ, ◌≤◌, ◌≡◌, ◌∙◌, sym, refl, ap, none, ◌⊎◌, inl, inr, true, some, List, [], ◌∷◌, All-In, In, map,
}
use cxlkvs.Py.Text.{Text}
use cxlkvs.Py.Num.{Num}
use cxlkvs.Py.Dict.{get}
use cxlkvs.Py.Result.{ok, ok_injective}
use cxlkvs.Rocksdb.Batch.{Job}
use cxlkvs.Rocksdb.Parser.{Names, Perf, Stats, get_num_threads_list, get_max_throughput}
use cxlkvs.Rocksdb.Parser.JobName.{names_of}
use cxlkvs.Rocksdb.Parser.Lookup.{lookup, distinct, collect, found, get_perf-lookup}
use cxlkvs.Rocksdb.Parser.Found.{
  lookup-collect, get_num_threads_list-lookup, In-num_threads, lookup-get_perf,
}
use cxlkvs.Rocksdb.Parser.Maximum.{Attains, IsMax, get_max_throughput-IsMax}

module _ (num : Num) (logs : Job → List Text) (perf : Job → Perf num) (js : List Job) where
  -- a run of the workload on this number of cores with this latency
  pub record IsAt (test : Text) (num_cores latency : ℕ) (j : Job) : Type 0 where
    pub there : In j js
    pub at_test : (names_of j).test ≡ test
    pub at_cores : (names_of j).num_cores ≡ num_cores
    pub at_latency : (names_of j).latency ≡ latency

  -- `r` is the throughput of the fastest of these runs, or 0 where there is none
  pub record IsBest (test : Text) (num_cores latency r : ℕ) : Type 0 where
    pub above : (j : Job) → IsAt test num_cores latency j → (perf j).throughput ≤ r
    pub attained : (r ≡ 0) ⊎ ((j : Job) × IsAt test num_cores latency j × ((perf j).throughput ≡ r))

  abbrev pub stats : Stats num
  stats = collect num logs perf js []

  module _ (h : distinct (map names_of js) ≡ true) (test : Text) (num_cores latency : ℕ) where
    nothing_before : (m : Names) → lookup num m [] ≡ none
    unfolding lookup get
    nothing_before m = refl

    pub run-found : (j : Job) → In j js → lookup num (names_of j) stats ≡ some (perf j)
    run-found j i =
        All-In (λ k. lookup num (names_of k) stats ≡ some (perf k)) j js
          (found num logs perf js [] h) i

    attained-run :
        (ns : List ℕ) (r : ℕ)
        → Attains num stats test num_cores latency ns r
        → (j : Job) × IsAt test num_cores latency j × ((perf j).throughput ≡ r)
    attained-run (n ∷ ns) r (inr k) = attained-run ns r k
    attained-run (n ∷ ns) r (inl (p, e, same)) =
        let m : Names = record {
          test = test;
          num_cores = num_cores;
          num_threads = n;
          latency = latency;
        } in
        elim (lookup-collect num logs perf js m p [] (lookup-get_perf num m p stats e)) [
          | inl e0 ↦ cc (e0, nothing_before m)
          | inr (j, there, key, eq) ↦ (
            j,
            record {
              there = there;
              at_test = ap (λ x. x.test) key;
              at_cores = ap (λ x. x.num_cores) key;
              at_latency = ap (λ x. x.latency) key;
            },
            ap (λ x. x.throughput) eq ∙ same,
          )
        ]
    attained-run [] r k = absurd k

    above-run :
        (ns : List ℕ) (r : ℕ) (j : Job)
        → IsMax num stats test num_cores latency ns r
        → IsAt test num_cores latency j
        → In (names_of j).num_threads ns
        → (perf j).throughput ≤ r
    above-run ns r j mx at there =
        let (p, e, le) = All-In _ (names_of j).num_threads ns mx.above there in
        let own = get_perf-lookup num (names_of j) (perf j) stats (run-found j at.there) in
        let same : perf j ≡ p =
          ok_injective (sym (rw (at.at_test, at.at_cores, at.at_latency) at own) ∙ e) in
        rw same le

    -- Where some run of the workload on this number of cores is there, with any latency, the maximum is returned, and is the
    -- throughput of the fastest of the runs with this latency, whatever the order of the directories.
    pub get_max_throughput-IsBest :
        (i : Job)
        → In i js
        → (names_of i).test ≡ test
        → (names_of i).num_cores ≡ num_cores
        → (r : ℕ) × (get_max_throughput num stats test num_cores latency ≡ ok r)
          × IsBest test num_cores latency r
    get_max_throughput-IsBest i there e f =
        let (ns, g0) =
          get_num_threads_list-lookup num (names_of i) (perf i) latency stats (run-found i there) in
        let g : get_num_threads_list num stats test num_cores latency ≡ ok ns = rw (e, f) at g0 in
        let (r, out, mx) = get_max_throughput-IsMax num stats test num_cores latency ns g in
        let listed : (j : Job) → IsAt test num_cores latency j → In (names_of j).num_threads ns =
          λ j at.
            In-num_threads num (names_of j) (perf j) ns stats (run-found j at.there)
              (rw (at.at_test, at.at_cores, at.at_latency) g) in
        (
          r,
          out,
          record {
            above = λ j at. above-run ns r j mx at (listed j at);
            attained = elim mx.attained [ inl zero ↦ inl zero | inr k ↦ inr (attained-run ns r k) ];
          },
        )
