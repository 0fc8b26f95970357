-- ===== src/Aerospike/Analyzer/Kept.antt =====
-- Every run that `parse_logs` files has an operation of reading and is not asynchronous.
use cxlkvs.Prelude.{
  ℕ, ◌≡◌, refl, true, not, List, [], ◌∷◌, ◌++◌, All, arith, ◌==◌, nat_eq, Bool-cases, inl, inr,
  Option, some, none,
}
use cxlkvs.Py.Result.{ok, Result-cases}
use cxlkvs.Py.Dict
use cxlkvs.Aerospike.Parser.{parse}
use cxlkvs.Aerospike.Parser.Ops.{OpStats, Workload}
use cxlkvs.Aerospike.Analyzer.{
  Entry, LogDict, LogFile, entries_at, is_kept, threads_of_name, parse_logs, has_batch,
  runs_of_batch,
}
use cxlkvs.Aerospike.Analyzer.Filed.{kept_of, kept, filed, tally, tally-append, parse_logs-kept}

abbrev pub IsKept : Entry → Type 0
IsKept e = is_kept e.workload ≡ true

kept_of-all :
    (n : ℕ) (ds : List Workload) → tally (λ e. not (is_kept e.workload)) (kept_of n ds) ≡ 0
kept_of-all n [] = refl
kept_of-all n (d ∷ ds) = elim (Bool-cases (is_kept d)) [
  | inl f ↦ rw f (rw f (omega (arith, kept_of-all n ds)))
  | inr f ↦ rw f (kept_of-all n ds)
]

kept-all : (fs : List LogFile) → tally (λ e. not (is_kept e.workload)) (kept fs) ≡ 0
kept-all [] = refl
kept-all (f ∷ fs) = elim (Result-cases (threads_of_name f.name)) [
  | inr (x, g) ↦ rw g (kept-all fs)
  | inl (n, g) ↦ elim (Result-cases (parse f.lines)) [
    | inr (x, h) ↦ rw (g, h) (kept-all fs)
    | inl (ds, h) ↦
        rw (g, h)
          (omega (
            arith,
            tally-append (λ e. not (is_kept e.workload)) (kept_of n ds) (kept fs),
            kept_of-all n ds,
            kept-all fs,
          ))
  ]
]

untold : (es : List Entry) → tally (λ e. not (is_kept e.workload)) es ≡ 0 → All IsKept es
untold [] h = tt
untold (e ∷ es) h = elim (Bool-cases (is_kept e.workload)) [
  | inl f ↦ (f, untold es (omega (arith, rw f at h)))
  | inr f ↦ absurd (omega (arith, rw f at h))
]

All-parts : (es fs : List Entry) → All IsKept (es ++ fs) → All IsKept es × All IsKept fs
All-parts [] fs h = (tt, h)
All-parts (e ∷ es) fs h = let (a, b) = All-parts es fs h.1 in ((h.0, a), b)

abbrev pub AllKept : LogDict → Type 0
AllKept d = (k : ℕ) → All IsKept (entries_at k d)

pub parse_logs-filed :
    (fs : List LogFile) (ms : List ℕ) (d : LogDict) → parse_logs fs ms ≡ ok d → All IsKept (filed d)
parse_logs-filed fs ms d e =
    untold (filed d)
      (omega (arith, parse_logs-kept (λ e. not (is_kept e.workload)) fs ms d e, kept-all fs))

pub filed-AllKept : (d : LogDict) → All IsKept (filed d) → AllKept d
unfolding entries_at Dict.get
filed-AllKept [] h k = tt
filed-AllKept ((j, es) ∷ d) h k =
    let (a, b) = All-parts es (filed d) h in
    elim (Bool-cases (j == k)) [
      | inl f ↦ rw (entries_at, Dict.get, f) a
      | inr f ↦ rw (entries_at, Dict.get, f) (filed-AllKept d b k)
    ]

pub put-AllKept :
    (j : ℕ) (es : List Entry) (d : LogDict) → All IsKept es → AllKept d → AllKept (Dict.put j es d)
unfolding entries_at
put-AllKept j es d h a k = elim (Bool-cases (j == k)) [
  | inl f ↦ rw (entries_at, Dict.get-put, f) h
  | inr f ↦ rw (entries_at, Dict.get-put, f) (a k)
]

pub filed-cons :
    (j : ℕ) (es : List Entry) (d : LogDict)
    → All IsKept (filed ((j, es) ∷ d))
    → All IsKept es × All IsKept (filed d)
filed-cons j es d h = All-parts es (filed d) h

pub runs_of_batch-IsKept :
    (b : ℕ) (es : List Entry) → All IsKept es → All IsKept (runs_of_batch b es)
unfolding runs_of_batch
runs_of_batch-IsKept b [] h = tt
runs_of_batch-IsKept b (e ∷ es) h = elim (Bool-cases (has_batch b e)) [
  | inl f ↦ rw f (h.0, runs_of_batch-IsKept b es h.1)
  | inr f ↦ rw f (runs_of_batch-IsKept b es h.1)
]

pub IsKept-read : (e : Entry) → IsKept e → (o : OpStats) × (e.workload.read ≡ some o)
unfolding is_kept
IsKept-read e h = read-of e.workload.read (λ f. cc (rw f at h))
  where
    read-of : (r : Option OpStats) → (r ≡ none → ⊥) → (o : OpStats) × (r ≡ some o)
    read-of none h = absurd (h refl)
    read-of (some o) h = (o, refl)
