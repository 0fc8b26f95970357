-- ===== src/Aerospike/Analyzer/Last.antt =====
-- The last run with two numbers of threads.
use cxlkvs.Prelude.{
  ℕ, ◌∙◌, ◌≡◌, refl, Bool, true, false, ◌&&◌, ◌||◌, Option, some, List, [], In, In-append_right,
  ◌∷◌, ◌++◌, All, ◌==◌, nat_eq, if◌then◌else◌, Bool-cases, inl, inr, ap,
}
use cxlkvs.Py.Num.{Num}
use cxlkvs.Py.Result.{ok}
use cxlkvs.Aerospike.Analyzer.{Entry, throughput_of}
use cxlkvs.Aerospike.Analyzer.Tables.{Measured, last_run}

-- `d` has these threads
abbrev pub is_at : ℕ → ℕ → Entry → Bool
is_at c s d = d.workload.client_threads == c && d.server_threads == s

abbrev pub any_at : ℕ → ℕ → List Entry → Bool
any_at c s [] = false
any_at c s (d ∷ ds) = is_at c s d || any_at c s ds

-- `d` has these threads, and no run behind it.
pub record IsLast (c s : ℕ) (ds : List Entry) (d : Entry) : Type 0 where
  pub before : List Entry
  pub behind : List Entry
  pub runs : ds ≡ before ++ d ∷ behind
  pub here : is_at c s d ≡ true
  pub others : All (λ e. is_at c s e ≡ false) behind

module _ (c s : ℕ) where
  none_at : (ds : List Entry) → any_at c s ds ≡ false → All (λ e. is_at c s e ≡ false) ds
  none_at [] h = tt
  none_at (d ∷ ds) h = elim (Bool-cases (is_at c s d)) [
    | inl f ↦ cc (rw f at h)
    | inr f ↦ (f, none_at ds (rw f at h))
  ]

  pub any_at-IsLast : (ds : List Entry) → any_at c s ds ≡ true → (d : Entry) × IsLast c s ds d
  any_at-IsLast [] h = cc h
  any_at-IsLast (d ∷ ds) h = elim (Bool-cases (any_at c s ds)) [
    | inl f ↦
        let (x, l) = any_at-IsLast ds f in
        (
          x,
          record {
            before = d ∷ l.before;
            behind = l.behind;
            runs = ap (λ es. d ∷ es) l.runs;
            here = l.here;
            others = l.others;
          },
        )
    | inr f ↦ elim (Bool-cases (is_at c s d)) [
      | inl g ↦
          (d, record { before = []; behind = ds; runs = refl; here = g; others = none_at ds f })
      | inr g ↦ cc (rw (f, g) at h)
    ]
  ]

  module _ (num : Num) where
    open num use {F}

    measured-at :
        (before : List Entry) (d : Entry) (behind : List Entry) (ts : List F)
        → Measured num (before ++ d ∷ behind) ts
        → (t : F) × (throughput_of num d ≡ ok t)
    measured-at [] d behind (t ∷ ts) m = (t, m.0)
    measured-at (e ∷ es) d behind (t ∷ ts) m = measured-at es d behind ts m.1
    measured-at [] d behind [] m = absurd m
    measured-at (e ∷ es) d behind [] m = absurd m

    pub IsLast-measured :
        (ds : List Entry) (d : Entry) (ts : List F)
        → IsLast c s ds d
        → Measured num ds ts
        → (t : F) × (throughput_of num d ≡ ok t)
    IsLast-measured ds d ts l m = measured-at l.before d l.behind ts (rw l.runs at m)

    module _ {V : Type 0} (value : Entry → F → V) where
      last_run-others :
          (ds : List Entry) (ts : List F) (found : Option V)
          → All (λ e. is_at c s e ≡ false) ds
          → last_run num value c s ds ts found ≡ found
      last_run-others [] ts found h = refl
      last_run-others (d ∷ ds) [] found h = refl
      last_run-others (d ∷ ds) (t ∷ ts) found h = rw h.0 (last_run-others ds ts found h.1)

      last_run-split :
          (before : List Entry) (d : Entry) (behind : List Entry) (t : F) (ts : List F)
          (found : Option V)
          → throughput_of num d ≡ ok t
          → is_at c s d ≡ true
          → All (λ e. is_at c s e ≡ false) behind
          → Measured num (before ++ d ∷ behind) ts
          → last_run num value c s (before ++ d ∷ behind) ts found ≡ some (value d t)
      last_run-split [] d behind t (u ∷ ts) found e h k m =
          let same : t ≡ u = cc (e, m.0) in
          let found' : Option V = if is_at c s d then some (value d u) else found in
          let here : found' ≡ some (value d t) = rw (h, same) refl in
          last_run-others behind ts found' k ∙ here
      last_run-split (x ∷ xs) d behind t (u ∷ ts) found e h k m =
          last_run-split xs d behind t ts _ e h k m.1
      last_run-split [] d behind t [] found e h k m = absurd m
      last_run-split (x ∷ xs) d behind t [] found e h k m = absurd m

      pub IsLast-last_run :
          (ds : List Entry) (d : Entry) (t : F) (ts : List F) (found : Option V)
          → IsLast c s ds d
          → throughput_of num d ≡ ok t
          → Measured num ds ts
          → last_run num value c s ds ts found ≡ some (value d t)
      IsLast-last_run ds d t ts found l e m =
          rw l.runs
            (last_run-split l.before d l.behind t ts found e l.here l.others (rw l.runs at m))

pub IsLast-In : (c s : ℕ) (ds : List Entry) (d : Entry) → IsLast c s ds d → In d ds
IsLast-In c s ds d l = rw l.runs (In-append_right d l.before (d ∷ l.behind) (inl refl))
