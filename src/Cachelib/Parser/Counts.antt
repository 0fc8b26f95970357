-- ===== src/Cachelib/Parser/Counts.antt =====
-- How many values each step of `CacheLibParser` adds to the list of a name.
use cxlkvs.Prelude.{
  ℕ, zero, suc, ◌+◌, ◌*◌, ◌≡◌, refl, ◌∙◌, String, Bool, some, List, [], ◌∷◌, length, length-append,
  drop, get_elem?, arith, ◌==◌, string_eq, if◌then◌else◌, Bool-cases, Option-cases, inl, inr,
}
use cxlkvs.Py.Text.{Text}
use cxlkvs.Py.Num.{Num}
use cxlkvs.Py.Result.{ok, Result-cases}
use cxlkvs.Py.Dict.{get-put}
use cxlkvs.Py.Regex.{Pattern, match_head}
use cxlkvs.Cachelib.Parser.Format.{int_pattern, float_pattern}
use cxlkvs.Cachelib.Parser.{
  Stat, int, Stats, Call, parse_int_items, parse_float_items, as_list, calls, values_at,
  append_stat, scan_items, fill, parse_items, do_call, do_calls, parse_per_min_stats, add_parts,
  convert,
}

abbrev pub one_if : Bool → ℕ
one_if b = if b then 1 else 0

-- how often a name stands in a list
unfoldable pub occurrences : String → List String → ℕ
occurrences k [] = 0
occurrences k (j ∷ js) = one_if (j == k) + occurrences k js

occurrences-drop :
    (k j : String) (ns : List String) (i : ℕ)
    → get_elem? ns i ≡ some j
    → occurrences k (drop i ns) ≡ one_if (j == k) + occurrences k (drop (i + 1) ns)
unfolding occurrences
occurrences-drop k j [] i e = cc e
occurrences-drop k j (n ∷ ns) zero e = let same : n ≡ j = cc e in rw same refl
occurrences-drop k j (n ∷ ns) (suc i) e =
    let next : suc i + 1 ≡ suc (i + 1) = omega arith in rw next (occurrences-drop k j ns i e)

-- the names of a call
abbrev pub names_of_call : Call → List String
names_of_call (parse_int_items pattern ns) = as_list ns
names_of_call (parse_float_items pattern ns) = as_list ns

unfoldable pub in_calls : String → List Call → ℕ
in_calls k [] = 0
in_calls k (c ∷ cs) = in_calls k cs + occurrences k (names_of_call c)

module _ (num : Num) where
  abbrev pub count : String → Stats num → ℕ
  count k stats = length (values_at num k stats)

  pub count-append_stat :
      (k j : String) (v : Stat num) (stats : Stats num)
      → count k (append_stat num j v stats) ≡ one_if (j == k) + count k stats
  unfolding append_stat values_at
  count-append_stat k j v stats = elim (Bool-cases (j == k)) [
    | inr e ↦ rw (values_at, get-put, e) (omega arith)
    | inl e ↦
        let same = (string_eq.equal_iff j k).0 e in
        rw (values_at, get-put, e, length-append, same) (omega arith)
  ]

  count-fill :
      (k : String) (ks : List String) (stats : Stats num)
      → count k (fill num ks stats) ≡ occurrences k ks + count k stats
  unfolding fill occurrences
  count-fill k [] stats = omega arith
  count-fill k (j ∷ js) stats =
      omega (arith, count-fill k js _, count-append_stat k j (int 0) stats)

  count-scan_items :
      (k : String) (pattern : Pattern) (ns : List String) (mode : String) (mc : ℕ)
      (stats : Stats num) (lines : List Text) (r : ℕ × Stats num)
      → scan_items num pattern ns mode mc stats lines ≡ ok r
      → count k r.1 + occurrences k (drop r.0 ns) ≡ count k stats + occurrences k (drop mc ns)
  unfolding scan_items
  count-scan_items k pattern ns mode mc stats [] r e =
      let same : (mc, stats) ≡ r = cc e in rw (← same) refl
  count-scan_items k pattern ns mode mc stats (line ∷ lines) r e =
      elim (Option-cases (match_head pattern line)) [
        | inl f ↦ count-scan_items k pattern ns mode mc stats lines r (rw f at e)
        | inr (m, f) ↦ elim (Option-cases (get_elem? ns mc)) [
          | inl g ↦ cc (rw (f, g) at e)
          | inr (j, g) ↦ elim (Result-cases (convert num mode m)) [
            | inr (x, h) ↦ cc (rw (f, g, h) at e)
            | inl (v, h) ↦
                count-scan_items k pattern ns mode (mc + 1) (append_stat num j v stats) lines r
                  (rw (f, g, h) at e)
                ∙ omega (arith, count-append_stat k j v stats, occurrences-drop k j ns mc g)
          ]
        ]
      ]

  count-parse_items :
      (k : String) (lines : List Text) (pattern : Pattern) (ns : List String) (mode : String)
      (stats s : Stats num)
      → parse_items num lines pattern ns mode stats ≡ ok s
      → count k s ≡ occurrences k ns + count k stats
  unfolding parse_items
  count-parse_items k lines pattern ns mode stats s e =
      elim (Result-cases (scan_items num pattern ns mode 0 stats lines)) [
        | inr (x, f) ↦ cc (rw f at e)
        | inl (r, f) ↦
            let same : fill num (drop r.0 ns) r.1 ≡ s = cc (rw f at e) in
            rw (← same) (
              omega (
                arith,
                count-fill k (drop r.0 ns) r.1,
                count-scan_items k pattern ns mode 0 stats lines r f,
              ))
      ]

  count-do_call :
      (k : String) (lines : List Text) (c : Call) (stats s : Stats num)
      → do_call num lines c stats ≡ ok s
      → count k s ≡ occurrences k (names_of_call c) + count k stats
  unfolding do_call
  count-do_call k lines (parse_int_items pattern ns) stats s e =
      count-parse_items k lines (int_pattern pattern) (as_list ns) "int" stats s e
  count-do_call k lines (parse_float_items pattern ns) stats s e =
      count-parse_items k lines (float_pattern pattern) (as_list ns) "float" stats s e

  pub count-do_calls :
      (k : String) (lines : List Text) (cs : List Call) (stats s : Stats num)
      → do_calls num lines cs stats ≡ ok s
      → count k s ≡ in_calls k cs + count k stats
  unfolding do_calls in_calls
  count-do_calls k lines [] stats s e = let same : stats ≡ s = cc e in rw same (omega arith)
  count-do_calls k lines (c ∷ cs) stats s e = elim (Result-cases (do_call num lines c stats)) [
    | inr (x, f) ↦ cc (rw f at e)
    | inl (t, f) ↦
        omega (arith, count-do_calls k lines cs t s (rw f at e), count-do_call k lines c stats t f)
  ]

  pub count-add_parts :
      (k : String) (n : ℕ) (parts : List (List Text)) (stats s : Stats num)
      → in_calls k calls ≡ n
      → add_parts num parts stats ≡ ok s
      → count k s ≡ length parts * n + count k stats
  unfolding add_parts parse_per_min_stats
  count-add_parts k n [] stats s h e = let same : stats ≡ s = cc e in rw same (omega arith)
  count-add_parts k n (part ∷ parts) stats s h e =
      elim (Result-cases (do_calls num part calls stats)) [
        | inr (x, f) ↦ cc (rw f at e)
        | inl (t, f) ↦ grind (
          arith,
          count-add_parts k n parts t s h (rw f at e),
          count-do_calls k part calls stats t f,
          h,
        )
      ]
