-- ===== src/Aerospike/Parser/Ops.antt =====
-- `_parse_op_stats` and `_parse_workload` of notebooks/utils/aerospike_parser.py.
use cxlkvs.Prelude.{ℕ, String, Bool, ◌||◌, Option, none, some, List, [], ◌∷◌, ◌++◌, ◌==◌, nat_eq}
use cxlkvs.Prelude.Int.{ℤ}
use cxlkvs.Py.Result.{Result, ok, err, raised, value_error, index_error, ◌>>=◌}
use cxlkvs.Py.Text.{Text, is_digit, is_space, int_text, split}
use cxlkvs.Py.Regex.{Pattern, Groups, many, some_of, lit, group, spaces, is_dot, match_head}
use cxlkvs.Aerospike.Parser.Items.{parse_int_items, parse_bool_items}
use cxlkvs.Aerospike.Parser.Time.{DateTime, from_iso_format}

pub record OpStats : Type 0 where
  pub timestamp : DateTime
  pub runtime : ℤ
  pub num_ops : ℤ
  pub latency_min : ℤ
  pub latency_max : ℤ
  pub latency_p50 : ℤ
  pub latency_p90 : ℤ
  pub latency_p99 : ℤ
  pub latency_p999 : ℤ
  pub latency_p9999 : ℤ

abbrev is_time_char : ℕ → Bool
is_time_char c = is_digit c || c == b'-' || c == b'T' || c == b':' || c == b'Z'

-- rf'^hdr:\s*{mode}\s+([\d\-T\:Z]+)\s+(.+)'
unfoldable pub op_pattern : String → Pattern
op_pattern mode =
    lit "hdr:"
    ++ (many is_space
        ∷ (lit mode
            ++ (spaces ++ (group (some_of is_time_char) ++ (spaces ++ group (some_of is_dot))))))

-- `s[:-1]`
unfoldable pub drop_last : Text → Text
drop_last [] = []
drop_last (c ∷ []) = []
drop_last (c ∷ d ∷ s) = c ∷ drop_last (d ∷ s)

-- `t, op, l, h, … = fields`, and the conversions in the source's order
unfoldable pub read_fields : DateTime → List Text → Result OpStats
unfolding int_text
read_fields at (t ∷ op ∷ l ∷ h ∷ p50 ∷ p90 ∷ p99 ∷ p999 ∷ p9999 ∷ []) = do
  runtime ← int_text t
  num_ops ← int_text op
  low ← int_text l
  high ← int_text h
  q50 ← int_text p50
  q90 ← int_text p90
  q99 ← int_text p99
  q999 ← int_text p999
  q9999 ← int_text p9999
  ok (record {
    timestamp = at;
    runtime = runtime;
    num_ops = num_ops;
    latency_min = low;
    latency_max = high;
    latency_p50 = q50;
    latency_p90 = q90;
    latency_p99 = q99;
    latency_p999 = q999;
    latency_p9999 = q9999;
  })
read_fields at _ = err value_error

-- what the loop does with the groups `m[1]` and `m[2]`
unfoldable pub read_op : Groups → Result OpStats
unfolding drop_last read_fields from_iso_format split
read_op (dt_str ∷ fields ∷ _) = do
  at ← from_iso_format (drop_last dt_str)
  read_fields at (split b',' fields)
read_op _ = err index_error

-- One round; `found` is `d`, once `match` is set.
unfoldable pub next_op : Option OpStats → Option Groups → Result (Option OpStats)
unfolding read_op
next_op found none = ok found
next_op (some d) (some m) = err (raised "too many matches")
next_op none (some m) = do d ← read_op m; ok (some d)

unfoldable pub scan_op : Pattern → Option OpStats → List Text → Result (Option OpStats)
unfolding next_op
scan_op pattern found [] = ok found
scan_op pattern found (line ∷ lines) = do
  found' ← next_op found (match_head pattern line)
  scan_op pattern found' lines

-- `None` where no line matches
unfoldable pub parse_op_stats : String → List Text → Result (Option OpStats)
unfolding scan_op op_pattern
parse_op_stats mode lines = scan_op (op_pattern mode) none lines

pub record Workload : Type 0 where
  pub batch_write : ℕ
  pub batch_read : ℕ
  pub client_threads : ℕ
  pub is_async : Text
  pub write : Option OpStats
  pub read : Option OpStats

unfoldable pub parse_workload : List Text → Result Workload
unfolding parse_int_items parse_bool_items parse_op_stats
parse_workload lines = do
  batch_write ← parse_int_items lines "batch-write-size"
  batch_read ← parse_int_items lines "batch-read-size"
  client_threads ← parse_int_items lines "threads"
  is_async ← parse_bool_items lines "async"
  write ← parse_op_stats "write" lines
  read ← parse_op_stats "read" lines
  ok (record {
    batch_write = batch_write;
    batch_read = batch_read;
    client_threads = client_threads;
    is_async = is_async;
    write = write;
    read = read;
  })
