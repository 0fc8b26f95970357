-- ===== src/Aerospike/Parser.antt =====
-- notebooks/utils/aerospike_parser.py: a log of benchmark runs, each behind a line `hosts:`, as a
-- list of workloads. A log is the list of its lines, each with its newline.
pub mod Items
pub mod Ops
pub mod Time
pub mod Blockwise
use cxlkvs.Prelude.{
  ℕ, String, ◌≡◌, Bool, true, false, ◌||◌, Option, none, some, List, [], ◌∷◌, ◌++◌, ◌==◌, nat_eq,
  if◌then◌else◌,
}
use cxlkvs.Py.Result.{Result, ok, err, ◌>>=◌}
use cxlkvs.Py.Text.{Text}
use cxlkvs.Py.Regex.{lit, match_head}
use cxlkvs.Segments.{line_indices, slices}
use cxlkvs.Aerospike.Parser.Ops.{Workload, parse_workload}

-- `re.search('^hosts:', line) is not None`
unfoldable pub is_hosts : Text → Bool
unfolding match_head
is_hosts line = elim (match_head (lit "hosts:") line) [ none ↦ false | some _ ↦ true ]

-- the loop that fills `stats`; the first exception ends it
unfoldable pub parse_all : List (List Text) → Result (List Workload)
parse_all [] = ok []
parse_all (part ∷ parts) = do ret ← parse_workload part; stats ← parse_all parts; ok (ret ∷ stats)

unfoldable pub parse : List Text → Result (List Workload)
unfolding parse_all
parse lines = parse_all (slices (line_indices is_hosts lines) lines)
