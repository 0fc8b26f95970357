-- ===== src/Cachelib/Parser/Aligned.antt =====
-- The lists of the result have the same length, also where lines are missing from a log.
use cxlkvs.Prelude.{
  ℕ, suc, ◌+◌, ◌*◌, ◌≡◌, refl, ap, String, Option, none, some, List, [], ◌∷◌, ◌++◌, length, All,
  arith, ◌==◌, string_eq, Option-cases, inl, inr,
}
use cxlkvs.Py.Text.{Text}
use cxlkvs.Py.Num.{true_div, Num}
use cxlkvs.Py.Result.{ok, Result-cases}
use cxlkvs.Py.Dict.{get}
use cxlkvs.Py.Regex.{Groups, match_head}
use cxlkvs.Segments.{line_indices, slices, indices_from}
use cxlkvs.Cachelib.Parser.Format.{header_pattern, first_group, time_of_day, dif_time, base_of}
use cxlkvs.Cachelib.Parser.Counts.{
  one_if, occurrences, names_of_call, in_calls, count, count-append_stat, count-add_parts,
}
use cxlkvs.Cachelib.Parser.{
  float, Stats, Call, as_list, calls, values_at, append_stat, add_time, add_times, parse, is_header,
}

-- the number of header lines
abbrev headers : ℕ → List Text → ℕ
headers i lines = length (indices_from is_header i lines)

headers-none :
    (i : ℕ) (line : Text) (lines : List Text)
    → match_head header_pattern line ≡ none
    → headers i (line ∷ lines) ≡ headers (i + 1) lines
unfolding indices_from is_header
headers-none i line lines f = rw (is_header, f)

headers-some :
    (i : ℕ) (line : Text) (lines : List Text) (m : Groups)
    → match_head header_pattern line ≡ some m
    → headers i (line ∷ lines) ≡ suc (headers (i + 1) lines)
unfolding indices_from is_header
headers-some i line lines m f = rw (is_header, f)

length-slices :
    (is : List ℕ) (n : ℕ) (lines : List Text) → length (slices (is ++ n ∷ []) lines) ≡ length is
unfolding slices
length-slices [] n lines = refl
length-slices (i ∷ []) n lines = refl
length-slices (i ∷ j ∷ is) n lines = ap suc (length-slices (j ∷ is) n lines)

-- the names of all calls
abbrev pub item_names : List Call → List String
item_names [] = []
item_names (c ∷ cs) = names_of_call c ++ item_names cs

module _ (num : Num) where
  count-add_time :
      (k : String) (base : Option ℕ) (m : Groups) (stats : Stats num) (r : Option ℕ × Stats num)
      → add_time num base m stats ≡ ok r
      → count num k r.1 ≡ one_if ("time" == k) + count num k stats
  unfolding add_time
  count-add_time k base m stats r e = elim (Result-cases (first_group m)) [
    | inr (x, f) ↦ cc (rw f at e)
    | inl (g, f) ↦ elim (Result-cases (time_of_day g)) [
      | inr (x, h) ↦ cc (rw (f, h) at e)
      | inl (t, h) ↦
          let d = num.of_nat (dif_time (base_of base t) t) in
          elim (Result-cases (true_div num d (num.of_nat 60))) [
            | inr (x, q) ↦ cc (rw (f, h, q) at e)
            | inl (v, q) ↦
                let same : (some (base_of base t), append_stat num "time" (float v) stats) ≡ r =
                  cc (rw (f, h, q) at e) in
                rw (← same) (count-append_stat num k "time" (float v) stats)
          ]
    ]
  ]

  count-add_times :
      (k : String) (n i : ℕ) (base : Option ℕ) (lines : List Text) (stats s : Stats num)
      → one_if ("time" == k) ≡ n
      → add_times num base lines stats ≡ ok s
      → count num k s ≡ headers i lines * n + count num k stats
  unfolding add_times indices_from
  count-add_times k n i base [] stats s h e = let same : stats ≡ s = cc e in rw same (omega arith)
  count-add_times k n i base (line ∷ lines) stats s h e =
      elim (Option-cases (match_head header_pattern line)) [
        | inl f ↦
            rw (headers-none i line lines f)
              (count-add_times k n (i + 1) base lines stats s h (rw f at e))
        | inr (m, f) ↦ elim (Result-cases (add_time num base m stats)) [
          | inr (x, g) ↦ cc (rw (f, g) at e)
          | inl (r, g) ↦ grind (
            arith,
            headers-some i line lines m f,
            count-add_times k n (i + 1) r.0 lines r.1 s h (rw (f, g) at e),
            count-add_time k base m stats r g,
            h,
          )
        ]
      ]

  count-nil : (k : String) → count num k [] ≡ 0
  unfolding values_at get
  count-nil k = refl

  -- a name that the calls read `n` times for each header, and the loop over the lines `m` times
  count-parse :
      (k : String) (n m : ℕ) (lines : List Text) (s : Stats num)
      → in_calls k calls ≡ n
      → one_if ("time" == k) ≡ m
      → parse num lines [] ≡ ok s
      → count num k s ≡ headers 0 lines * n + headers 0 lines * m
  unfolding parse line_indices
  count-parse k n m lines s h o e = elim (Result-cases (add_times num none lines [])) [
    | inr (x, f) ↦ cc (rw f at e)
    | inl (t, f) ↦
        let is = indices_from is_header 0 lines in
        let parts = length-slices is (length lines) lines in
        grind (
          arith,
          count-add_parts num k n (slices (is ++ length lines ∷ []) lines) t s h (rw f at e),
          parts,
          count-add_times k m 0 none lines [] t o f,
          count-nil k,
        )
  ]

  -- The names of `parse_per_min_stats`, each of which one call reads once.
  abbrev IsRead : List String → Type 0
  IsRead [] = Unit
  IsRead (k ∷ ks) = ((in_calls k calls ≡ 1) × (one_if ("time" == k) ≡ 0)) × IsRead ks

  each :
      (ks : List String) (lines : List Text) (s : Stats num)
      → IsRead ks
      → parse num lines [] ≡ ok s
      → All (λ k. count num k s ≡ headers 0 lines) ks
  each [] lines s h e = tt
  each (k ∷ ks) lines s h e =
      (omega (arith, count-parse k 1 0 lines s h.0.0 h.0.1 e), each ks lines s h.1 e)

  -- Where a log is parsed, the list of times and the list of each item have one value for each header
  -- line of the log, whatever lines of a part are missing.
  pub parse-calls :
      (lines : List Text) (s : Stats num)
      → parse num lines [] ≡ ok s
      → All
          (λ k. length (values_at num k s) ≡ length (indices_from is_header 0 lines))
          ("time" ∷ item_names calls)
  unfolding in_calls occurrences as_list
  parse-calls lines s e = (
    omega (arith, count-parse "time" 0 1 lines s refl refl e),
    each (item_names calls) lines s (ground arith) e,
  )
