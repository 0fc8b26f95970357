-- ===== src/Cachelib/Parser.antt =====
-- notebooks/utils/cachelib_parser.py: the class `CacheLibParser`, on the lines of a log. Its result is
-- a dictionary of lists, one value per minute in each.
pub mod Format
pub mod Clock
pub mod Counts
pub mod Aligned
use cxlkvs.Prelude.{
  ℕ, zero, suc, ◌+◌, ◌-◌, ◌*◌, String, Bool, false, true, Option, none, some, ◌||◌, List, [], ◌∷◌,
  ◌++◌, ltb, leb, drop, get_elem?, ◌==◌, nat_eq, string_eq, if◌then◌else◌,
}
use cxlkvs.Prelude.Int.{ℤ, pos, negsuc}
use cxlkvs.Py.Text.{Text, codes, is_digit, is_space, int_digits, remove_char, split}
use cxlkvs.Py.Result.{Result, ok, err, value_error, index_error, raised, ◌>>=◌}
use cxlkvs.Py.Num.{Num, float_text, true_div}
use cxlkvs.Py.Dict
use cxlkvs.Py.Dict.{Dict}
use cxlkvs.Py.Regex.{
  Pattern, Groups, optional, many, one, group, some_of, spaces, lit, is_char, match_head,
}
use cxlkvs.Py.Regex.Fields.{is_num_char}
use cxlkvs.Cachelib.Parser.Format.{
  int_pattern, float_pattern, header_pattern, first_group, time_of_day, dif_time, base_of,
}
use cxlkvs.Segments.{line_indices, slices}

-- `item_names`, a text or a list
pub data ItemNames : Type 0 where
  name : String → ItemNames
  names : List String → ItemNames

-- `if(not isinstance(item_names, list)): …`
unfoldable pub as_list : ItemNames → List String
as_list (name n) = n ∷ []
as_list (names ns) = ns

unfoldable pub is_header : Text → Bool
unfolding match_head
is_header line = elim (match_head header_pattern line) [ none ↦ false | some _ ↦ true ]

-- A call of `parse_int_items` or `parse_float_items`.
pub data Call : Type 0 where
  parse_int_items : String → ItemNames → Call
  parse_float_items : String → ItemNames → Call

-- the calls of `parse_per_min_stats`
abbrev pub calls : List Call
calls =
    parse_int_items "Items in RAM" (name "item_ram")
    ∷ parse_int_items "Items in NVM" (name "item_nvm")
    ∷ parse_int_items "Alloc Attempts" (name "alloc")
    ∷ parse_int_items "Evict Attempts" (name "evict")
    ∷ parse_int_items "RAM Evictions" (name "evict_ram")
    ∷ parse_int_items "Cache Gets" (names ("cache_gets_total" ∷ "cache_gets" ∷ []))
    ∷ parse_float_items "Hit Ratio" (names ("hit_total" ∷ "hit" ∷ []))
    ∷ parse_float_items "RAM Hit Ratio" (names ("hit_ram_total" ∷ "hit_ram" ∷ []))
    ∷ parse_float_items "NVM Hit Ratio" (names ("hit_nvm_total" ∷ "hit_nvm" ∷ []))
    ∷ parse_float_items "Cache Find API latency p50" (name "find_p50")
    ∷ parse_float_items "Cache Find API latency p90" (name "find_p90")
    ∷ parse_float_items "Cache Find API latency p99" (name "find_p99")
    ∷ parse_float_items "Cache Find API latency p999" (name "find_p999")
    ∷ parse_float_items "Cache Find API latency p9999" (name "find_p9999")
    ∷ parse_float_items "Cache Find API latency p99999" (name "find_p99999")
    ∷ parse_float_items "Cache Find API latency p999999" (name "find_p999999")
    ∷ parse_float_items "Cache Find API latency p100" (name "find_p100")
    ∷ []

module _ (num : Num) where
  open num use {F, of_nat}

  pub data Stat : Type 0 where
    int : ℕ → Stat
    float : F → Stat

  abbrev pub Stats : Type 0
  Stats = Dict String (List Stat)

  -- `self.stats[name]` of the `defaultdict(list)`
  unfoldable pub values_at : String → Stats → List Stat
  values_at k stats = elim (Dict.get k stats) [ none ↦ [] | some vs ↦ vs ]

  -- `self.stats[name].append(val)`
  unfoldable pub append_stat : String → Stat → Stats → Stats
  unfolding values_at
  append_stat k v stats = Dict.put k (values_at k stats ++ v ∷ []) stats

  -- the value of a match, in a mode
  unfoldable pub convert : String → Groups → Result Stat
  unfolding first_group
  convert mode m =
      if mode == "int"
      then (do g ← first_group m; n ← int_digits (remove_char b',' g); ok (int n))
      else if mode == "float"
      then (do g ← first_group m; x ← float_text num g; ok (float x))
      else err (raised "unsupported mode")

  -- the body of the test, at the name of this match
  abbrev append_item : String → Groups → Option String → ℕ → Stats → Result (ℕ × Stats)
  append_item mode m none match_count stats = err (raised "too many matches")
  append_item mode m (some k) match_count stats = do
    v ← convert mode m
    ok (match_count + 1, append_stat k v stats)

  abbrev scan_line : List String → String → Option Groups → ℕ → Stats → Result (ℕ × Stats)
  scan_line item_names mode none match_count stats = ok (match_count, stats)
  scan_line item_names mode (some m) match_count stats =
      append_item mode m (get_elem? item_names match_count) match_count stats

  -- The loop: the number of matches, and the lists.
  unfoldable pub scan_items :
      Pattern → List String → String → ℕ → Stats → List Text → Result (ℕ × Stats)
  unfolding convert append_stat match_head
  scan_items pattern item_names mode match_count stats [] = ok (match_count, stats)
  scan_items pattern item_names mode match_count stats (line ∷ lines) = do
    r ← scan_line item_names mode (match_head pattern line) match_count stats
    scan_items pattern item_names mode r.0 r.1 lines

  -- the zeros for the names that have no match
  unfoldable pub fill : List String → Stats → Stats
  unfolding append_stat
  fill [] stats = stats
  fill (k ∷ ks) stats = fill ks (append_stat k (int 0) stats)

  unfoldable pub parse_items : List Text → Pattern → List String → String → Stats → Result Stats
  unfolding scan_items fill
  parse_items lines pattern item_names mode stats = do
    r ← scan_items pattern item_names mode 0 stats lines
    ok (fill (drop r.0 item_names) r.1)

  unfoldable pub do_call : List Text → Call → Stats → Result Stats
  unfolding parse_items as_list
  do_call lines (parse_int_items pattern ns) stats =
      parse_items lines (int_pattern pattern) (as_list ns) "int" stats
  do_call lines (parse_float_items pattern ns) stats =
      parse_items lines (float_pattern pattern) (as_list ns) "float" stats

  unfoldable pub do_calls : List Text → List Call → Stats → Result Stats
  unfolding do_call
  do_calls lines [] stats = ok stats
  do_calls lines (c ∷ cs) stats = do s ← do_call lines c stats; do_calls lines cs s

  unfoldable pub parse_per_min_stats : List Text → Stats → Result Stats
  unfolding do_calls
  parse_per_min_stats lines stats = do_calls lines calls stats

  -- the body of the test: the base time behind it, and the lists
  unfoldable pub add_time : Option ℕ → Groups → Stats → Result (Option ℕ × Stats)
  unfolding append_stat first_group time_of_day dif_time
  add_time base_time m stats = do
    g ← first_group m
    t ← time_of_day g
    let base = base_of base_time t
    minutes ← true_div num (of_nat (dif_time base t)) (of_nat 60)
    ok (some base, append_stat "time" (float minutes) stats)

  abbrev time_line : Option ℕ → Option Groups → Stats → Result (Option ℕ × Stats)
  time_line base_time none stats = ok (base_time, stats)
  time_line base_time (some m) stats = add_time base_time m stats

  -- what the loop over the lines does for `time`: `none` is `first`
  unfoldable pub add_times : Option ℕ → List Text → Stats → Result Stats
  unfolding add_time match_head
  add_times base_time [] stats = ok stats
  add_times base_time (line ∷ lines) stats = do
    r ← time_line base_time (match_head header_pattern line) stats
    add_times r.0 lines r.1

  -- the loop over the parts
  unfoldable pub add_parts : List (List Text) → Stats → Result Stats
  unfolding parse_per_min_stats
  add_parts [] stats = ok stats
  add_parts (part ∷ parts) stats = do s ← parse_per_min_stats part stats; add_parts parts s

  unfoldable pub parse : List Text → Stats → Result Stats
  unfolding add_times add_parts is_header
  parse lines stats = do
    s ← add_times none lines stats
    add_parts (slices (line_indices is_header lines) lines) s
