-- ===== src/Microbench/Parser.antt =====
-- notebooks/utils/microbench_parser.py: the runs of several batches, and the throughputs that are
-- plotted from them. A run is the dictionary that microbench/batch.py wrote to its JSON file.
pub mod Peeks
pub mod Picks
pub mod Lengths
use cxlkvs.Prelude.{
  String, Bool, true, false, not, ◌&&◌, ◌||◌, none, some, List, [], ◌∷◌, ◌++◌, ◌==◌, ltb, nat_eq,
  string_eq, text_eq, if◌then◌else◌,
}
use cxlkvs.Prelude.Int.{ℤ, pos, negsuc}
use cxlkvs.Py.Result.{Result, ok, err, raised, type_error, index_error, ◌>>=◌}
use cxlkvs.Py.Text.{Text, int_text}
use cxlkvs.Py.Num.{Num, float_text, true_div}
use cxlkvs.Py.Dict
use cxlkvs.Py.Dict.{Dict}
use cxlkvs.Py.Sort.{sort, min_list}
use cxlkvs.Microbench.Batch.Output.{Value, num, text, Run}

-- `key in MicrobenchParser.PERF_KEYS`
unfoldable pub is_perf : String → Bool
is_perf key =
    key == "time"
    || key == "p50"
    || key == "p90"
    || key == "p99"
    || key == "p999"
    || key == "p9999"
    || key == "p99999"

-- What `_cast` returns. The values of one key are cast alike.
pub data Cast (F : Type 0) : Type 0 where
  float : F → Cast F
  int : ℤ → Cast F
  raw : Value → Cast F

int_eq : ℤ → ℤ → Bool
int_eq (pos a) (pos b) = a == b
int_eq (negsuc a) (negsuc b) = a == b
int_eq _ _ = false

int_less : ℤ → ℤ → Bool
int_less (pos a) (pos b) = ltb a b
int_less (negsuc a) (negsuc b) = ltb b a
int_less (pos a) (negsuc b) = false
int_less (negsuc a) (pos b) = true

value_eq : Value → Value → Bool
value_eq (num a) (num b) = a == b
value_eq (text a) (text b) = a == b
value_eq _ _ = false

text_less : Text → Text → Bool
text_less [] [] = false
text_less [] (y ∷ ys) = true
text_less (x ∷ xs) [] = false
text_less (x ∷ xs) (y ∷ ys) = ltb x y || (x == y && text_less xs ys)

value_less : Value → Value → Bool
unfolding text_less
value_less (num a) (num b) = ltb a b
value_less (text a) (text b) = text_less a b
value_less _ _ = false

-- `int(value)`
to_int : Value → Result ℤ
to_int (num n) = ok (pos n)
to_int (text s) = int_text s

module _ (nm : Num) where
  open nm use {F, of_nat, of_negsuc, less, same, same_nat, same_negsuc}

  -- an int and a float
  int_float_eq : ℤ → F → Bool
  int_float_eq (pos n) x = same_nat n x
  int_float_eq (negsuc n) x = same_negsuc n x

  -- `==`, by which an int equals the float of the same number
  unfoldable pub cast_eq : Cast F → Cast F → Bool
  unfolding int_eq value_eq int_float_eq
  cast_eq (float a) (float b) = same a b
  cast_eq (int a) (int b) = int_eq a b
  cast_eq (raw a) (raw b) = value_eq a b
  cast_eq (int a) (float b) = int_float_eq a b
  cast_eq (float a) (int b) = int_float_eq b a
  cast_eq (raw (num a)) (int b) = int_eq (pos a) b
  cast_eq (int a) (raw (num b)) = int_eq a (pos b)
  cast_eq (raw (num a)) (float b) = same_nat a b
  cast_eq (float a) (raw (num b)) = same_nat b a
  cast_eq _ _ = false

  cast_less : Cast F → Cast F → Bool
  unfolding int_less value_less
  cast_less (float a) (float b) = less a b
  cast_less (int a) (int b) = int_less a b
  cast_less (raw a) (raw b) = value_less a b
  cast_less _ _ = false

  -- `float(value)`
  unfoldable pub to_float : Value → Result F
  to_float (num n) = ok (of_nat n)
  to_float (text s) = float_text nm s

  unfoldable pub cast : String → Value → Result (Cast F)
  unfolding is_perf to_float to_int
  cast key value =
      if is_perf key
      then (do x ← to_float value; ok (float x))
      else if key == "filename"
      then ok (raw value)
      else do n ← to_int value; ok (int n)

  -- The object. A set is the list of its elements, in the order of insertion.
  pub record MicrobenchParser : Type 0 where
    pub tests : List Run
    pub key_set : List String
    pub val_set_dict : Dict String (List (Cast F))

  pub contains_key : String → List String → Bool
  contains_key k [] = false
  contains_key k (j ∷ js) = j == k || contains_key k js

  contains_value : Cast F → List (Cast F) → Bool
  unfolding cast_eq
  contains_value v [] = false
  contains_value v (w ∷ ws) = cast_eq w v || contains_value v ws

  -- `self.key_set.add(k)`
  add_key : String → List String → List String
  unfolding contains_key
  add_key k ks = if contains_key k ks then ks else ks ++ k ∷ []

  -- `d[k]` of the `defaultdict(set)`; the empty set that it inserts for a missing key cannot be
  -- told from a missing one
  values_at : String → Dict String (List (Cast F)) → List (Cast F)
  values_at k d = elim (Dict.get k d) [ none ↦ [] | some vs ↦ vs ]

  -- `self.val_set_dict[k].add(v)`
  add_value : String → Cast F → Dict String (List (Cast F)) → Dict String (List (Cast F))
  unfolding values_at contains_value
  add_value k v d =
      let vs = values_at k d in Dict.put k (if contains_value v vs then vs else vs ++ v ∷ []) d

  -- the body of the inner loop of `_parse`
  unfoldable pub add_item : MicrobenchParser → String → Value → Result MicrobenchParser
  unfolding cast add_key add_value is_perf
  add_item p k value = do
    v ← cast k value
    ok (record p {
      key_set = add_key k p.key_set;
      val_set_dict = if not (is_perf k) then add_value k v p.val_set_dict else p.val_set_dict;
    })

  unfoldable pub add_items : MicrobenchParser → Run → Result MicrobenchParser
  unfolding add_item
  add_items p [] = ok p
  add_items p ((k, v) ∷ items) = do p' ← add_item p k v; add_items p' items

  unfoldable pub add_tests : MicrobenchParser → List Run → Result MicrobenchParser
  unfolding add_items
  add_tests p [] = ok p
  add_tests p (test ∷ rest) = do p' ← add_items p test; add_tests p' rest

  -- `self.data += json.load(f)` for each file
  unfoldable pub load : List (List Run) → List Run
  load [] = []
  load (file ∷ files) = file ++ load files

  -- `__init__`, on the contents of the files
  unfoldable pub make_parser : List (List Run) → Result MicrobenchParser
  unfolding add_tests load
  make_parser files =
      let data_read = load files in
      add_tests (record { tests = data_read; key_set = []; val_set_dict = [] }) data_read

  -- `get_values`
  unfoldable pub get_values : MicrobenchParser → String → List (Cast F)
  unfolding values_at cast_less
  get_values p key = sort cast_less (values_at key p.val_set_dict)

  -- `k in spec_dict and spec_dict[k] != v`
  unfoldable pub differs : Dict String (Cast F) → String → Cast F → Bool
  unfolding cast_eq
  differs spec k v = elim (Dict.get k spec) [ none ↦ false | some w ↦ not (cast_eq w v) ]

  -- The inner loop of `get_perf`; a difference ends it.
  unfoldable pub is_match : Dict String (Cast F) → String → List String → Run → Result Bool
  unfolding cast contains_key differs
  is_match spec perf_key var_key [] = ok true
  is_match spec perf_key var_key ((k, value) ∷ items) = do
    v ← cast k value
    let rest = is_match spec perf_key var_key items
    if not (k == perf_key) && not (contains_key k var_key) && differs spec k v
        then ok false
        else rest

  -- the outer loop
  unfoldable pub perf_of : Dict String (Cast F) → String → List String → List Run → Result (List F)
  unfolding is_match to_float
  perf_of spec perf_key var_key [] = ok []
  perf_of spec perf_key var_key (test ∷ tests) = do
    matched ← is_match spec perf_key var_key test
    let rest = perf_of spec perf_key var_key tests
    let appended = (do value ← Dict.index perf_key test; x ← to_float value; xs ← rest; ok (x ∷ xs))
    if matched then appended else rest

  -- `get_perf`, with `var_key` as a list
  unfoldable pub get_perf :
      MicrobenchParser → Dict String (Cast F) → String → List String → Result (List F)
  unfolding perf_of is_perf
  get_perf p spec perf_key var_key =
      if not (is_perf perf_key)
      then err (raised "not a performance key")
      else perf_of spec perf_key var_key p.tests

  -- the loop over `self.get_keys()`, which gives each key its least value
  first_values :
      MicrobenchParser → List String → Dict String (Cast F) → Result (Dict String (Cast F))
  unfolding get_values is_perf
  first_values p [] spec = ok spec
  first_values p (key ∷ keys) spec =
      let skipped = first_values p keys spec in
      if not (is_perf key)
      then elim (get_values p key) [
        | [] ↦ err index_error
        | v ∷ vs ↦ first_values p keys (Dict.put key v spec)
      ]
      else skipped

  -- the operand of the division
  to_number : Cast F → Result F
  to_number (float x) = ok x
  to_number (int (pos n)) = ok (of_nat n)
  to_number (int (negsuc n)) = ok (of_negsuc n)
  to_number (raw value) = err type_error

  -- the loop over the latencies, which writes to `spec` as it goes
  throughputs_from : MicrobenchParser → Dict String (Cast F) → List ℤ → Result (List F)
  unfolding get_perf to_number
  throughputs_from p spec [] = ok []
  throughputs_from p spec (latency ∷ latencies) = do
    let spec' = Dict.put "latency" (int latency) spec
    times ← get_perf p spec' "time" ("num_threads" ∷ [])
    count ← Dict.index "count" spec'
    t ← min_list less times
    c ← to_number count
    x ← true_div nm c t
    xs ← throughputs_from p spec' latencies
    ok (x ∷ xs)

  unfoldable pub get_throughputs : MicrobenchParser → List ℤ → ℤ → ℤ → ℤ → ℤ → Result (List F)
  unfolding first_values throughputs_from
  get_throughputs p latency_list num_chases memory_time io_time_pre io_time_post = do
    spec ← first_values p p.key_set []
    let spec1 = Dict.put "num_chases" (int num_chases) spec
    let spec2 = Dict.put "memory_time" (int memory_time) spec1
    let spec3 = Dict.put "io_time_pre" (int io_time_pre) spec2
    let spec4 = Dict.put "io_time_post" (int io_time_post) spec3
    throughputs_from p (Dict.put "prefetch_mode" (int (pos 1)) spec4) latency_list
