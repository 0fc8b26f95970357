-- ===== src/Microbench/Batch/Output.antt =====
-- `parse_output`: the runs of a log, from the lines that microbench/src/main.c prints.
pub mod Printed
pub mod Lines
pub mod Latency
pub mod RoundTrip
use cxlkvs.Prelude.{ℕ, String, Option, none, some, List, [], ◌∷◌, ◌++◌}
use cxlkvs.Py.Result.{Result, ok, err, unbound_local, index_error, ◌>>=◌}
use cxlkvs.Py.Text.{Text, int_digits}
use cxlkvs.Py.Dict.{Dict}
use cxlkvs.Py.Regex.{Pattern, Groups, lit, group, some_of, spaces, match_head, search_any}
use cxlkvs.Py.Regex.Fields.{is_num_char, num_fields}
use cxlkvs.Microbench.Batch.Params.{Params}

-- The values of a run's dictionary: numbers, and the texts that are not converted.
pub data Value : Type 0 where
  num : ℕ → Value
  text : Text → Value

abbrev pub Run : Type 0
Run = Dict String Value

-- the latency percentiles of a run, as texts
pub record Percentiles : Type 0 where
  pub p50 : Text
  pub p90 : Text
  pub p99 : Text
  pub p999 : Text
  pub p9999 : Text
  pub p99999 : Text

-- The local variables of the loop. They keep their values from one round to the next; `none` is a
-- variable that is not assigned yet.
pub record Locals : Type 0 where
  pub params : Option Params
  pub elapsed_time : Option Text
  pub percentiles : Option Percentiles
  pub results : List Run

abbrev pub param_pattern : Pattern
param_pattern = lit "param" ++ num_fields 10

abbrev pub number_text : Pattern
number_text = group (some_of is_num_char)

-- r'^elapsed time\s+=\s+([\d\.]+)\s+sec'
abbrev pub elapsed_pattern : Pattern
elapsed_pattern =
    lit "elapsed time"
    ++ (spaces ++ (lit "=" ++ (spaces ++ (number_text ++ (spaces ++ lit "sec")))))

-- `([\d\.]+),\s+`, and what follows
abbrev pub comma_then : Pattern → Pattern
comma_then ps = number_text ++ (lit "," ++ (spaces ++ ps))

-- r'^op latency\s+=\s+([\d\.]+),\s+([\d\.]+), … ,\s+([\d\.]+)\s+usec'
abbrev pub latency_pattern : Pattern
latency_pattern =
    lit "op latency"
    ++ (spaces
        ++ (lit "="
            ++ (spaces
                ++ comma_then (
                    comma_then (
                      comma_then
                        (comma_then (comma_then (number_text ++ (spaces ++ lit "usec")))))))))

-- r'^average num peeks per IO\s+=\s+([\d\.]+)'
abbrev pub peeks_pattern : Pattern
peeks_pattern = lit "average num peeks per IO" ++ (spaces ++ (lit "=" ++ (spaces ++ number_text)))

unfoldable pub read_params : Groups → Result Params
read_params (a ∷ b ∷ c ∷ d ∷ e ∷ f ∷ g ∷ h ∷ i ∷ j ∷ _) = do
  count ← int_digits a
  num_threads ← int_digits b
  num_xstreams ← int_digits c
  latency ← int_digits d
  num_chases ← int_digits e
  memory_time ← int_digits f
  io_time_pre ← int_digits g
  io_time_post ← int_digits h
  io_mode ← int_digits i
  prefetch_mode ← int_digits j
  ok (record {
    count = count;
    num_threads = num_threads;
    num_xstreams = num_xstreams;
    latency = latency;
    num_chases = num_chases;
    memory_time = memory_time;
    io_time_pre = io_time_pre;
    io_time_post = io_time_post;
    io_mode = io_mode;
    prefetch_mode = prefetch_mode;
  })
read_params _ = err index_error

unfoldable pub read_percentiles : Groups → Result Percentiles
read_percentiles (a ∷ b ∷ c ∷ d ∷ e ∷ f ∷ _) =
    ok (record { p50 = a; p90 = b; p99 = c; p999 = d; p9999 = e; p99999 = f })
read_percentiles _ = err index_error

unfoldable pub read_text : Groups → Result Text
read_text (a ∷ _) = ok a
read_text [] = err index_error

-- reading a local variable
unfoldable pub bound : {A : Type 0} → Option A → Result A
bound none = err unbound_local
bound (some a) = ok a

-- The dictionary `d`, in the order of its assignments.
unfoldable pub make_run : Text → ℕ → ℕ → Params → Text → Percentiles → Text → Run
make_run filename chain_size access_size p elapsed_time q num_peeks =
    ("filename", text filename)
    ∷ ("chain_size", num chain_size)
    ∷ ("access_size", num access_size)
    ∷ ("count", num p.count)
    ∷ ("num_threads", num p.num_threads)
    ∷ ("num_xstreams", num p.num_xstreams)
    ∷ ("latency", num p.latency)
    ∷ ("num_chases", num p.num_chases)
    ∷ ("memory_time", num p.memory_time)
    ∷ ("io_time_pre", num p.io_time_pre)
    ∷ ("io_time_post", num p.io_time_post)
    ∷ ("io_mode", num p.io_mode)
    ∷ ("prefetch_mode", num p.prefetch_mode)
    ∷ ("time", text elapsed_time)
    ∷ ("p50", text q.p50)
    ∷ ("p90", text q.p90)
    ∷ ("p99", text q.p99)
    ∷ ("p999", text q.p999)
    ∷ ("p9999", text q.p9999)
    ∷ ("p99999", text q.p99999)
    ∷ ("num_peeks", text num_peeks)
    ∷ []

-- `if(m is not None): …; continue`, and what follows
abbrev pub on_match : Option Groups → (Groups → Result Locals) → Result Locals → Result Locals
on_match none body next = next
on_match (some m) body next = body m

module _ (filename : Text) (chain_size access_size : ℕ) where
  -- the body of the last test
  unfoldable pub finish_run : Locals → Groups → Result Locals
  unfolding read_text bound make_run
  finish_run l m = do
    num_peeks ← read_text m
    p ← bound l.params
    elapsed_time ← bound l.elapsed_time
    q ← bound l.percentiles
    let d = make_run filename chain_size access_size p elapsed_time q num_peeks
    ok (record l { results = l.results ++ d ∷ [] })

  -- the body of the loop over the lines
  unfoldable pub parse_line : Locals → Text → Result Locals
  unfolding finish_run read_params read_percentiles read_text
  parse_line l line =
      on_match (search_any param_pattern line)
        (λ m. do p ← read_params m; ok (record l { params = some p }))
        (on_match (match_head elapsed_pattern line)
          (λ m. do t ← read_text m; ok (record l { elapsed_time = some t }))
          (on_match (match_head latency_pattern line)
            (λ m. do q ← read_percentiles m; ok (record l { percentiles = some q }))
            (on_match (match_head peeks_pattern line) (finish_run l) (ok l))))

  unfoldable pub parse_lines : Locals → List Text → Result Locals
  unfolding parse_line
  parse_lines l [] = ok l
  parse_lines l (line ∷ lines) = do l' ← parse_line l line; parse_lines l' lines

  unfoldable pub parse_output : List Text → Result (List Run)
  unfolding parse_lines
  parse_output lines = do
    l ←
        parse_lines
          (record { params = none; elapsed_time = none; percentiles = none; results = [] }) lines
    ok l.results
