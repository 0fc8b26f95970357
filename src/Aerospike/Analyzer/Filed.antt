-- ===== src/Aerospike/Analyzer/Filed.antt =====
-- What `parse_logs` files: the kept workloads of the logs, each once, and nothing else.
use cxlkvs.Prelude.{
  ℕ, ◌+◌, ◌≡◌, refl, Bool, none, some, List, [], ◌∷◌, ◌++◌, arith, ltb, get_elem?, ◌==◌, nat_eq,
  if◌then◌else◌, Bool-cases, Option-cases, inl, inr,
}
use cxlkvs.Py.Result.{Result, ok, Result-cases}
use cxlkvs.Py.Dict.{get, put}
use cxlkvs.Aerospike.Parser.{parse}
use cxlkvs.Aerospike.Parser.Ops.{Workload}
use cxlkvs.Aerospike.Analyzer.{
  Entry, LogDict, Locals, LogFile, entries_at, append_entry, is_kept, next_latency, keep,
  add_workload, add_workloads, threads_of_name, add_file, add_files, parse_logs,
}

-- the kept workloads of a log, with the server threads of its name
abbrev pub kept_of : ℕ → List Workload → List Entry
kept_of n [] = []
kept_of n (d ∷ ds) =
    let rest = kept_of n ds in
    if is_kept d then record { workload = d; server_threads = n } ∷ rest else rest

abbrev kept_or_nil : Result ℕ → Result (List Workload) → List Entry
kept_or_nil (ok n) (ok ds) = kept_of n ds
kept_or_nil _ _ = []

abbrev pub kept : List LogFile → List Entry
kept [] = []
kept (f ∷ fs) = kept_or_nil (threads_of_name f.name) (parse f.lines) ++ kept fs

-- all entries, whatever their latency
abbrev pub filed : LogDict → List Entry
filed [] = []
filed ((k, es) ∷ d) = es ++ filed d

module _ (p : Entry → Bool) where
  -- how many entries of a kind there are
  abbrev pub tally : List Entry → ℕ
  tally [] = 0
  tally (e ∷ es) = (if p e then 1 else 0) + tally es

  pub tally-append : (xs ys : List Entry) → tally (xs ++ ys) ≡ tally xs + tally ys
  tally-append [] ys = omega arith
  tally-append (x ∷ xs) ys = omega (arith, tally-append xs ys)

  filed-put :
      (k : ℕ) (es : List Entry) (d : LogDict)
      → tally (filed (put k es d)) + tally (entries_at k d) ≡ tally (filed d) + tally es
  unfolding put get entries_at
  filed-put k es [] = omega (arith, tally-append es [])
  filed-put k es ((j, fs) ∷ d) = elim (Bool-cases (j == k)) [
    | inl e ↦
        rw (entries_at, e) (omega (arith, tally-append fs (filed d), tally-append es (filed d)))
    | inr e ↦ rw e (
        omega (
          arith,
          tally-append fs (filed d),
          tally-append fs (filed (put k es d)),
          filed-put k es d,
        ))
  ]

  filed-append_entry :
      (k : ℕ) (e : Entry) (d : LogDict)
      → tally (filed (append_entry k e d)) ≡ tally (filed d) + tally (e ∷ [])
  unfolding append_entry
  filed-append_entry k e d =
      omega
        (arith, filed-put k (entries_at k d ++ e ∷ []) d, tally-append (entries_at k d) (e ∷ []))

  next_latency-log_dict :
      (ms : List ℕ) (d : Workload) (l m : Locals)
      → next_latency ms d l ≡ ok m
      → m.log_dict ≡ l.log_dict
  unfolding next_latency
  next_latency-log_dict ms d l m e = elim (Bool-cases (ltb d.client_threads l.cur_client_threads)) [
    | inr f ↦ let same : l ≡ m = cc (rw f at e) in rw (← same) refl
    | inl f ↦ elim (Option-cases (get_elem? ms l.bumps)) [
      | inl g ↦ cc (rw (f, g) at e)
      | inr (t, g) ↦
          let same : record l { cur_mem_latency = some t; bumps = l.bumps + 1 } ≡ m =
            cc (rw (f, g) at e) in
          rw (← same) refl
    ]
  ]

  filed-keep :
      (n : ℕ) (d : Workload) (l m : Locals)
      → keep n d l ≡ ok m
      → tally (filed m.log_dict)
        ≡ tally (filed l.log_dict) + tally (record { workload = d; server_threads = n } ∷ [])
  unfolding keep
  filed-keep n d l m e = elim (Option-cases l.cur_mem_latency) [
    | inl f ↦ cc (rw f at e)
    | inr (t, f) ↦
        let x : Entry = record { workload = d; server_threads = n } in
        let same : record l { log_dict = append_entry t x l.log_dict } ≡ m = cc (rw f at e) in
        rw (← same) (filed-append_entry t x l.log_dict)
  ]

  filed-add_workload :
      (ms : List ℕ) (n : ℕ) (d : Workload) (l m : Locals)
      → add_workload ms n d l ≡ ok m
      → tally (filed m.log_dict) ≡ tally (filed l.log_dict) + tally (kept_of n (d ∷ []))
  unfolding add_workload
  filed-add_workload ms n d l m e = elim (Bool-cases (is_kept d)) [
    | inr f ↦
        let same : record l { cur_client_threads = d.client_threads } ≡ m = cc (rw f at e) in
        rw (← same, f) (omega arith)
    | inl f ↦ elim (Result-cases (next_latency ms d l)) [
      | inr (x, g) ↦ cc (rw (f, g) at e)
      | inl (l1, g) ↦ elim (Result-cases (keep n d l1)) [
        | inr (x, h) ↦ cc (rw (f, g, h) at e)
        | inl (l2, h) ↦
            let same : record l2 { cur_client_threads = d.client_threads } ≡ m =
              cc (rw (f, g, h) at e) in
            rw (← same, f, ← next_latency-log_dict ms d l l1 g) (filed-keep n d l1 l2 h)
      ]
    ]
  ]

  kept_of-cons :
      (n : ℕ) (d : Workload) (ds : List Workload)
      → tally (kept_of n (d ∷ ds)) ≡ tally (kept_of n (d ∷ [])) + tally (kept_of n ds)
  kept_of-cons n d ds = elim (Bool-cases (is_kept d)) [
    | inl f ↦ rw f (omega arith)
    | inr f ↦ rw f (omega arith)
  ]

  filed-add_workloads :
      (ms : List ℕ) (n : ℕ) (ds : List Workload) (l m : Locals)
      → add_workloads ms n ds l ≡ ok m
      → tally (filed m.log_dict) ≡ tally (filed l.log_dict) + tally (kept_of n ds)
  unfolding add_workloads
  filed-add_workloads ms n [] l m e = let same : l ≡ m = cc e in rw same (omega arith)
  filed-add_workloads ms n (d ∷ ds) l m e = elim (Result-cases (add_workload ms n d l)) [
    | inr (x, f) ↦ cc (rw f at e)
    | inl (l1, f) ↦ omega (
      arith,
      filed-add_workload ms n d l l1 f,
      filed-add_workloads ms n ds l1 m (rw f at e),
      kept_of-cons n d ds,
    )
  ]

  filed-add_files :
      (ms : List ℕ) (fs : List LogFile) (l m : Locals)
      → add_files ms fs l ≡ ok m
      → tally (filed m.log_dict) ≡ tally (filed l.log_dict) + tally (kept fs)
  unfolding add_files add_file
  filed-add_files ms [] l m e = let same : l ≡ m = cc e in rw same (omega arith)
  filed-add_files ms (f ∷ fs) l m e = elim (Result-cases (threads_of_name f.name)) [
    | inr (x, g) ↦ cc (rw g at e)
    | inl (n, g) ↦ elim (Result-cases (parse f.lines)) [
      | inr (x, h) ↦ cc (rw (g, h) at e)
      | inl (ds, h) ↦
          let l0 : Locals = record l { cur_client_threads = 0; bumps = 0 } in
          elim (Result-cases (add_workloads ms n ds l0)) [
            | inr (x, q) ↦ cc (rw (g, h, q) at e)
            | inl (l1, q) ↦
                rw (g, h)
                  (omega (
                    arith,
                    filed-add_workloads ms n ds l0 l1 q,
                    filed-add_files ms fs l1 m (rw (g, h, q) at e),
                    tally-append (kept_of n ds) (kept fs),
                  ))
          ]
    ]
  ]

  -- Where `parse_logs` returns, its lists together hold the kept workloads of the logs, with the
  -- server threads of their log's name, each as often as the logs do, and no others.
  pub parse_logs-kept :
      (fs : List LogFile) (ms : List ℕ) (d : LogDict)
      → parse_logs fs ms ≡ ok d
      → tally (filed d) ≡ tally (kept fs)
  unfolding parse_logs
  parse_logs-kept fs ms d e =
      let l0 : Locals = record {
        log_dict = [];
        cur_mem_latency = none;
        cur_client_threads = 0;
        bumps = 0;
      } in
      elim (Result-cases (add_files ms fs l0)) [
        | inr (x, f) ↦ cc (rw f at e)
        | inl (l, f) ↦
            let same : l.log_dict ≡ d = cc (rw f at e) in
            rw (← same) (omega (arith, filed-add_files ms fs l0 l f))
      ]
