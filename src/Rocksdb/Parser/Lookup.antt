-- ===== src/Rocksdb/Parser/Lookup.antt =====
-- The runs of rocksdb/batch.py in the nested dictionary of `RocksDBParser`.
use cxlkvs.Prelude.{
  ◌≡◌, refl, ◌∙◌, Bool, true, not, ◌&&◌, Option, none, some, List, [], ◌∷◌, All, arith, ◌==◌,
  nat_eq, text_eq, if◌then◌else◌, map, Bool-cases, inl, inr,
}
use cxlkvs.Py.Text.{Text}
use cxlkvs.Py.Num.{Num}
use cxlkvs.Py.Result.{ok}
use cxlkvs.Py.Dict.{get-single, get-or_empty, index-get, get, get-put, or_empty}
use cxlkvs.Rocksdb.Batch.{Job, job_id}
use cxlkvs.Rocksdb.Parser.{
  Names, LogDir, log_name, Perf, Stats, parse_file, add_perf, add_log, add_dir, add_dirs, parse,
  get_perf, read_names,
}
use cxlkvs.Rocksdb.Parser.JobName.{names_of, read_names-job_id}
use cxlkvs.Rocksdb.Parser.Suffix.{All-map, IsName}

abbrev pub same_names : Names → Names → Bool
same_names a b =
    a.test == b.test
    && (a.num_cores == b.num_cores && (a.latency == b.latency && a.num_threads == b.num_threads))

abbrev not_in : Names → List Names → Bool
not_in n [] = true
not_in n (m ∷ ns) = not (same_names m n) && not_in n ns

-- no two runs have the same key
abbrev pub distinct : List Names → Bool
distinct [] = true
distinct (n ∷ ns) = not_in n ns && distinct ns

pub same_names_refl : (n : Names) → same_names n n ≡ true
same_names_refl n = rw (
  (text_eq.equal_iff n.test n.test).1 refl,
  (nat_eq.equal_iff n.num_cores n.num_cores).1 refl,
  (nat_eq.equal_iff n.latency n.latency).1 refl,
  (nat_eq.equal_iff n.num_threads n.num_threads).1 refl,
)

pub and_parts : (a b : Bool) → a && b ≡ true → (a ≡ true) × (b ≡ true)
and_parts a b h = ground arith

module _ (num : Num) where
  unfoldable pub lookup : Names → Stats num → Option (Perf num)
  lookup n stats =
      get n.num_threads
        (or_empty (get n.latency (or_empty (get n.num_cores (or_empty (get n.test stats))))))

  pub lookup-add_perf :
      (n m : Names) (d : Perf num) (stats : Stats num)
      → lookup m (add_perf num n d stats) ≡ (if same_names n m then some d else lookup m stats)
  unfolding lookup add_perf
  lookup-add_perf n m d stats = elim (Bool-cases (n.test == m.test)) [
    | inr e ↦ rw (get-put, e)
    | inl e ↦
        let test = (text_eq.equal_iff n.test m.test).0 e in
        elim (Bool-cases (n.num_cores == m.num_cores)) [
          | inr f ↦ rw (get-put, e, get-put, f, test)
          | inl f ↦
              let cores = (nat_eq.equal_iff n.num_cores m.num_cores).0 f in
              elim (Bool-cases (n.latency == m.latency)) [
                | inr g ↦ rw (get-put, e, get-put, f, get-put, g, test, cores)
                | inl g ↦
                    let late = (nat_eq.equal_iff n.latency m.latency).0 g in
                    rw (get-put, e, get-put, f, get-put, g, get-put, test, cores, late)
              ]
        ]
  ]

  pub get_perf-lookup :
      (n : Names) (d : Perf num) (stats : Stats num)
      → lookup n stats ≡ some d
      → get_perf num stats n.test n.num_cores n.latency n.num_threads ≡ ok d
  unfolding lookup get_perf
  get_perf-lookup n d stats e =
      let (by_threads, (g, e1)) = get-or_empty n.latency n.num_threads d _ e in
      let (by_latency, (f, e2)) = get-or_empty n.num_cores n.latency by_threads _ g in
      let (by_cores, (h, e3)) = get-or_empty n.test n.num_cores by_latency stats f in
      rw (
        index-get n.test by_cores stats h,
        index-get n.num_cores by_latency by_cores e3,
        index-get n.latency by_threads by_latency e2,
        index-get n.num_threads d by_threads e1,
      )

  add_dir-found :
      (f : LogDir) (n : Names) (names : Option Names) (lines : List Text) (d : Perf num)
      (stats : Stats num)
      → read_names f.name names ≡ ok (some n)
      → get (log_name n) f.files ≡ some lines
      → parse_file num lines n.test ≡ ok d
      → add_dir num f names stats ≡ ok (some n, add_perf num n d stats)
  unfolding add_dir add_log
  add_dir-found f n names lines d stats e g h = rw (add_dir, e, add_log, g, h)

  module _ (logs : Job → List Text) (perf : Job → Perf num) where
    -- the directory that a run leaves
    abbrev pub dir_of : Job → LogDir
    dir_of j = record { name = job_id j; files = (log_name (names_of j), logs j) ∷ [] }

    unfoldable pub collect : List Job → Stats num → Stats num
    collect [] stats = stats
    collect (j ∷ js) stats = collect js (add_perf num (names_of j) (perf j) stats)

    -- the log of a run is read to its figures
    abbrev pub IsLogged : Job → Type 0
    IsLogged j = IsName j.workload × (parse_file num (logs j) j.workload ≡ ok (perf j))

    add_dir-dir_of :
        (j : Job) (names : Option Names) (stats : Stats num)
        → IsLogged j
        → add_dir num (dir_of j) names stats
          ≡ ok (some (names_of j), add_perf num (names_of j) (perf j) stats)
    unfolding names_of
    add_dir-dir_of j names stats h =
        add_dir-found (dir_of j) (names_of j) names (logs j) (perf j) stats
          (read_names-job_id j names h.0) (get-single (log_name (names_of j)) (logs j)) h.1

    pub add_dirs-collect :
        (js : List Job) (names : Option Names) (stats : Stats num)
        → All IsLogged js
        → add_dirs num (map dir_of js) names stats ≡ ok (collect js stats)
    unfolding collect add_dirs
    add_dirs-collect [] names stats h = refl
    add_dirs-collect (j ∷ js) names stats h =
        rw (add_dir-dir_of j names stats h.0)
          (add_dirs-collect js (some (names_of j)) (add_perf num (names_of j) (perf j) stats) h.1)

    -- later runs with other keys leave a value where it is
    kept :
        (js : List Job) (n : Names) (d : Perf num) (stats : Stats num)
        → not_in n (map names_of js) ≡ true
        → lookup n stats ≡ some d
        → lookup n (collect js stats) ≡ some d
    unfolding collect
    kept [] n d stats h e = e
    kept (j ∷ js) n d stats h e = elim (Bool-cases (same_names (names_of j) n)) [
      | inl f ↦ cc (rw f at h)
      | inr f ↦ kept js n d _ (rw f at h) (lookup-add_perf (names_of j) n (perf j) stats ∙ rw f e)
    ]

    pub found :
        (js : List Job) (stats : Stats num)
        → distinct (map names_of js) ≡ true
        → All (λ j. lookup (names_of j) (collect js stats) ≡ some (perf j)) js
    unfolding collect
    found [] stats h = tt
    found (j ∷ js) stats h =
        let n = names_of j in
        let stats' = add_perf num n (perf j) stats in
        let parts = and_parts (not_in n (map names_of js)) (distinct (map names_of js)) h in
        (
          kept js n (perf j) stats' parts.0
              (lookup-add_perf n n (perf j) stats ∙ rw (same_names_refl n)),
          found js stats' parts.1,
        )

    -- Where each log is parsed by `parse_file`, each workload is not empty and has no white space and no
    -- underscore, and no two runs have the same key: the log directories are parsed, and the figures of
    -- each run are found under its workload, its numbers of cores and threads, and its latency.
    pub parse-get_perf :
        (js : List Job)
        → All IsLogged js
        → distinct (map names_of js) ≡ true
        → (stats : Stats num) × (parse num (map dir_of js) ≡ ok stats)
          × All
              (λ j.
                let n = names_of j in
                get_perf num stats n.test n.num_cores n.latency n.num_threads ≡ ok (perf j))
              js
    unfolding parse
    parse-get_perf js h k = (
      collect js [],
      add_dirs-collect js none [] h,
      All-map (λ j e. get_perf-lookup (names_of j) (perf j) (collect js []) e) js (found js [] k),
    )
