-- ===== src/Aerospike/Parser/Blockwise.antt =====
-- The whole log: one workload for each line `hosts:`, read from the lines up to the next one.
use cxlkvs.Prelude.{◌≡◌, ◌↔◌, refl, List, [], ◌∷◌, arith}
use cxlkvs.Py.Result.{ok}
use cxlkvs.Py.Text.{Text}
use cxlkvs.Segments.Blocks.{blocks, slices-line_indices}
use cxlkvs.Aerospike.Parser.Ops.{Workload, parse_workload}
use cxlkvs.Aerospike.Parser.{is_hosts, parse_all, parse}

-- one workload for each block, in order, each read from its block
abbrev pub Reads : List (List Text) → List Workload → Type 0
Reads [] [] = Unit
Reads (b ∷ bs) (w ∷ ws) = (parse_workload b ≡ ok w) × Reads bs ws
Reads _ _ = ⊥

parse_all-Reads : (bs : List (List Text)) (ws : List Workload) → parse_all bs ≡ ok ws → Reads bs ws
unfolding parse_all
parse_all-Reads [] [] e = tt
parse_all-Reads [] (w ∷ ws) e = cc
parse_all-Reads (b ∷ bs) [] e = ground arith
parse_all-Reads (b ∷ bs) (w ∷ ws) e = ground (arith, parse_all-Reads bs ws)

Reads-parse_all : (bs : List (List Text)) (ws : List Workload) → Reads bs ws → parse_all bs ≡ ok ws
unfolding parse_all
Reads-parse_all [] [] e = refl
Reads-parse_all [] (w ∷ ws) e = absurd e
Reads-parse_all (b ∷ bs) [] e = absurd e
Reads-parse_all (b ∷ bs) (w ∷ ws) e = rw (e.0, Reads-parse_all bs ws e.1)

-- The parser returns `ws` exactly when the blocks that the lines `hosts:` begin read as `ws`, one
-- workload for each block.
pub parse-Reads :
    (lines : List Text) (ws : List Workload)
    → (parse lines ≡ ok ws) ↔ Reads (blocks is_hosts lines) ws
unfolding parse
parse-Reads lines ws =
    rw slices-line_indices
      (parse_all-Reads (blocks is_hosts lines) ws, Reads-parse_all (blocks is_hosts lines) ws)
