-- ===== src/Rocksdb/Parser.antt =====
-- notebooks/utils/rocksdb_parser.py: the class `RocksDBParser`, over the contents of a log directory.
pub mod Suffix
pub mod JobName
pub mod Lookup
pub mod Maximum
pub mod Found
pub mod Best
use cxlkvs.Prelude.{
  ℕ, String, Bool, false, true, Option, none, some, List, [], ◌∷◌, ◌++◌, ltb, map, drop, ◌==◌,
  nat_eq, text_eq, if◌then◌else◌,
}
use cxlkvs.Prelude.Int.{ℤ, pos, negsuc}
use cxlkvs.Py.Text.{Text, codes, int_digits, int_text, split, starts_with, strip}
use cxlkvs.Py.Result.{
  Result, ok, err, value_error, index_error, unbound_local, file_not_found, ◌>>=◌,
}
use cxlkvs.Py.Num.{Num, float_text}
use cxlkvs.Py.Decimal.{decimal}
use cxlkvs.Py.Dict
use cxlkvs.Py.Dict.{Dict, or_empty}
use cxlkvs.Py.Regex.{
  Pattern, Groups, group, some_of, number, spaces, lit, not_space, match_head, search_any,
}
use cxlkvs.Py.Sort.{sort}

-- `(\S+)_core(\d+)_threads(\d+)`, with any pattern behind it
abbrev pub names_then : Pattern → Pattern
names_then ps =
    group (some_of not_space) ++ (lit "_core" ++ (number ++ (lit "_threads" ++ (number ++ ps))))

abbrev pub dram_pattern : Pattern
dram_pattern = names_then (lit "_dram")

abbrev pub cxl_pattern : Pattern
cxl_pattern = names_then (lit "_cxl" ++ number)

-- The variables that a directory's name sets, always together.
pub record Names : Type 0 where
  pub test : Text
  pub num_cores : ℕ
  pub num_threads : ℕ
  pub latency : ℕ

-- the body of the first test
unfoldable pub read_dram : Groups → Result Names
read_dram (a ∷ b ∷ c ∷ _) = do
  num_cores ← int_digits b
  num_threads ← int_digits c
  ok (record { test = a; num_cores = num_cores; num_threads = num_threads; latency = 0 })
read_dram _ = err index_error

-- the body of the second
unfoldable pub read_cxl : Groups → Result Names
read_cxl (a ∷ b ∷ c ∷ d ∷ _) = do
  num_cores ← int_digits b
  num_threads ← int_digits c
  latency ← int_digits d
  ok (record {
    test = a;
    num_cores = num_cores;
    num_threads = num_threads;
    latency = if latency == 0 then 500 else latency;
  })
read_cxl _ = err index_error

-- `if(m is not None): …`; the variables keep their values where it is None
abbrev pub on_match : Option Groups → (Groups → Result Names) → Option Names → Result (Option Names)
on_match none body names = ok names
on_match (some m) body names = do n ← body m; ok (some n)

-- both tests, for the name of a directory
unfoldable pub read_names : Text → Option Names → Result (Option Names)
unfolding read_dram read_cxl match_head
read_names name names = do
  names' ← on_match (match_head dram_pattern name) read_dram names
  on_match (match_head cxl_pattern name) read_cxl names'

-- r'(\d+)\s+ops\/sec'
abbrev pub throughput_pattern : Pattern
throughput_pattern = number ++ (spaces ++ lit "ops/sec")

-- 'benchmark_%s.t%d.log'
unfoldable pub log_name : Names → Text
log_name n =
    codes "benchmark_" ++ (n.test ++ (codes ".t" ++ (decimal n.num_threads ++ codes ".log")))

-- A directory, with the lines of each of its files.
pub record LogDir : Type 0 where
  pub name : Text
  pub files : Dict Text (List Text)

unfoldable pub is_percentile : ℤ → ℕ → Bool
is_percentile (pos n) percentile = n == percentile
is_percentile (negsuc n) percentile = false

-- `k, v = s.split(':')`
unfoldable pub two_parts : List Text → Result (Text × Text)
two_parts (k ∷ v ∷ []) = ok (k, v)
two_parts _ = err value_error

unfoldable pub first_group : Groups → Result Text
first_group (a ∷ _) = ok a
first_group [] = err index_error

-- `list(d.keys())`
abbrev pub keys {ℓ} : {K : Type 0} {V : Type ℓ} → Dict K V → List K
keys d = map (λ kv. kv.0) d

-- the two branches of `get_num_threads_list`
abbrev pub sorted_keys {ℓ} : {V : Type ℓ} → Option (Dict ℕ V) → List ℕ
sorted_keys none = []
sorted_keys (some by_threads) = sort ltb (keys by_threads)

module _ (num : Num) where
  open num use {F, of_nat}

  unfoldable pub get_op_latency : List Text → ℕ → Result (Option F)
  unfolding two_parts is_percentile
  get_op_latency [] percentile = ok none
  get_op_latency (s ∷ string_list) percentile = do
    kv ← two_parts (split b':' s)
    k ← int_text kv.0
    let rest = get_op_latency string_list percentile
    if is_percentile k percentile then (do v ← float_text num kv.1; ok (some v)) else rest

  -- The dictionary `d`, and the variables of `_parse_file`. A latency is None where the line has no
  -- such percentile.
  pub record Perf : Type 0 where
    pub throughput : ℕ
    pub latency_p50 : Option F
    pub latency_p90 : Option F
    pub latency_p99 : Option F

  -- the first test
  unfoldable pub read_throughput : Text → Text → Perf → Result Perf
  unfolding first_group search_any
  read_throughput test_name line d =
      if starts_with line test_name
      then elim (search_any throughput_pattern line) [
        | none ↦ ok d
        | some m ↦ (do g ← first_group m; n ← int_digits g; ok (record d { throughput = n }))
      ]
      else ok d

  -- the second
  unfoldable pub read_latencies : Text → Perf → Result Perf
  unfolding get_op_latency
  read_latencies line d =
      let str_list = drop 2 (split b'P' (strip line)) in
      if starts_with line (codes "Percentiles")
      then (do
        p50 ← get_op_latency str_list 50
        p90 ← get_op_latency str_list 90
        p99 ← get_op_latency str_list 99
        ok (record d { latency_p50 = p50; latency_p90 = p90; latency_p99 = p99 }))
      else ok d

  unfoldable pub parse_lines : Text → List Text → Perf → Result Perf
  unfolding read_throughput read_latencies
  parse_lines test_name [] d = ok d
  parse_lines test_name (line ∷ lines) d = do
    d' ← read_throughput test_name line d
    d'' ← read_latencies line d'
    parse_lines test_name lines d''

  -- `_parse_file`, on the lines of the file
  unfoldable pub parse_file : List Text → Text → Result Perf
  unfolding parse_lines
  parse_file lines test_name = parse_lines test_name lines (record {
    throughput = 0;
    latency_p50 = some (of_nat 0);
    latency_p90 = some (of_nat 0);
    latency_p99 = some (of_nat 0);
  })

  -- `stats[test][num_cores][latency][num_threads]`
  abbrev pub Stats : Type 0
  Stats = Dict Text (Dict ℕ (Dict ℕ (Dict ℕ Perf)))

  unfoldable pub add_perf : Names → Perf → Stats → Stats
  add_perf n d stats =
      let by_cores = or_empty (Dict.get n.test stats) in
      let by_latency = or_empty (Dict.get n.num_cores by_cores) in
      let by_threads = or_empty (Dict.get n.latency by_latency) in
      Dict.put n.test
        (Dict.put n.num_cores (Dict.put n.latency (Dict.put n.num_threads d by_threads) by_latency)
          by_cores)
        stats

  -- what follows the two tests
  unfoldable pub add_log : LogDir → Names → Stats → Result Stats
  unfolding add_perf parse_file log_name
  add_log f n stats = elim (Dict.get (log_name n) f.files) [
    | none ↦ err file_not_found
    | some lines ↦ (do d ← parse_file lines n.test; ok (add_perf n d stats))
  ]

  -- the body of the loop over the directories
  unfoldable pub add_dir : LogDir → Option Names → Stats → Result (Option Names × Stats)
  unfolding add_log read_names
  add_dir f names stats = do
    names' ← read_names f.name names
    elim names' [
      | none ↦ err unbound_local
      | some n ↦ (do stats' ← add_log f n stats; ok (some n, stats'))
    ]

  unfoldable pub add_dirs : List LogDir → Option Names → Stats → Result Stats
  unfolding add_dir
  add_dirs [] names stats = ok stats
  add_dirs (f ∷ fs) names stats = do r ← add_dir f names stats; add_dirs fs r.0 r.1

  -- `_parse`, on the entries of the directory in the order of `iterdir`
  unfoldable pub parse : List LogDir → Result Stats
  unfolding add_dirs
  parse dirs = add_dirs dirs none []

  unfoldable pub get_test_names : Stats → List Text
  get_test_names stats = keys stats

  unfoldable pub get_num_cores_list : Stats → Text → Result (List ℕ)
  get_num_cores_list stats test = do by_cores ← Dict.index test stats; ok (sort ltb (keys by_cores))

  unfoldable pub get_latency_list : Stats → Text → ℕ → Result (List ℕ)
  get_latency_list stats test num_cores = do
    by_cores ← Dict.index test stats
    by_latency ← Dict.index num_cores by_cores
    ok (sort ltb (keys by_latency))

  unfoldable pub get_num_threads_list : Stats → Text → ℕ → ℕ → Result (List ℕ)
  get_num_threads_list stats test num_cores latency = do
    by_cores ← Dict.index test stats
    by_latency ← Dict.index num_cores by_cores
    ok (sorted_keys (Dict.get latency by_latency))

  unfoldable pub get_perf : Stats → Text → ℕ → ℕ → ℕ → Result Perf
  get_perf stats test num_cores latency num_threads = do
    by_cores ← Dict.index test stats
    by_latency ← Dict.index num_cores by_cores
    by_threads ← Dict.index latency by_latency
    Dict.index num_threads by_threads

  -- the loop, from the maximum so far
  unfoldable pub max_from : Stats → Text → ℕ → ℕ → ℕ → List ℕ → Result ℕ
  unfolding get_perf
  max_from stats test num_cores latency max_throughput [] = ok max_throughput
  max_from stats test num_cores latency max_throughput (num_threads ∷ rest) = do
    perf ← get_perf stats test num_cores latency num_threads
    let more = ltb max_throughput perf.throughput
    max_from stats test num_cores latency (if more then perf.throughput else max_throughput) rest

  unfoldable pub get_max_throughput : Stats → Text → ℕ → ℕ → Result ℕ
  unfolding max_from get_num_threads_list
  get_max_throughput stats test num_cores latency = do
    ns ← get_num_threads_list stats test num_cores latency
    max_from stats test num_cores latency 0 ns
