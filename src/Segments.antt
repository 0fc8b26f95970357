-- ===== src/Segments.antt =====
-- Splitting a log at its header lines: the index arithmetic that notebooks/utils/aerospike_parser.py
-- and notebooks/utils/cachelib_parser.py share.
pub mod Blocks
use cxlkvs.Prelude.{ℕ, ◌+◌, ◌-◌, Bool, List, [], ◌∷◌, ◌++◌, length, take, drop, if◌then◌else◌}

module _ {ℓ} {A : Type ℓ} where
  -- the indices that the loop over `enumerate(lines)` appends
  unfoldable pub indices_from : (A → Bool) → ℕ → List A → List ℕ
  indices_from header i [] = []
  indices_from header i (line ∷ lines) =
      let rest = indices_from header (i + 1) lines in if header line then i ∷ rest else rest

  -- with `len(lines)` behind them
  unfoldable pub line_indices : (A → Bool) → List A → List ℕ
  unfolding indices_from
  line_indices header lines = indices_from header 0 lines ++ length lines ∷ []

  -- `lines[s:e]`
  abbrev pub slice : ℕ → ℕ → List A → List A
  slice s e lines = take (e - s) (drop s lines)

  -- the slices of the loop over `range(len(line_indices) - 1)`
  unfoldable pub slices : List ℕ → List A → List (List A)
  slices [] lines = []
  slices (s ∷ []) lines = []
  slices (s ∷ e ∷ rest) lines = slice s e lines ∷ slices (e ∷ rest) lines
