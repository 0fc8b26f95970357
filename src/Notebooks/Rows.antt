-- ===== src/Notebooks/Rows.antt =====
-- The loops of the notebooks that fill `max_throughput_dict` and `throughput_dict`.
pub mod Zip
pub mod Columns
pub mod Each
use cxlkvs.Prelude.{get_elem?, ℕ, ◌+◌, Option, none, some, List, [], ◌∷◌, ◌++◌, nat_eq}
use cxlkvs.Py.Result.{err, index_error, Result, ok, ◌>>=◌}
use cxlkvs.Py.Dict
use cxlkvs.Py.Dict.{Dict}

abbrev pub or_nil {ℓ} : {V : Type ℓ} → Option (List V) → List V
or_nil none = []
or_nil (some vs) = vs

-- `throughput_dict[lat].append(t)`, where `throughput_dict` is a `defaultdict(list)`
unfoldable pub append_to {ℓ} : {V : Type ℓ} → ℕ → V → Dict ℕ (List V) → Dict ℕ (List V)
append_to lat t d = Dict.put lat (or_nil (Dict.get lat d) ++ t ∷ []) d

-- What is appended: the value for the number of the round, the latency and the number of cores.
module _ {ℓ} {V : Type ℓ} (value : ℕ → ℕ → ℕ → Result V) where
  -- the inner loop
  unfoldable pub add_row : ℕ → ℕ → List ℕ → Dict ℕ (List V) → Result (Dict ℕ (List V))
  unfolding append_to
  add_row i lat [] d = ok d
  add_row i lat (num_cores ∷ rest) d = do
    t ← value i lat num_cores
    add_row i lat rest (append_to lat t d)

  -- `for i, lat in enumerate(latencies)`, from the round `i`
  unfoldable pub add_rows : List ℕ → ℕ → List ℕ → Dict ℕ (List V) → Result (Dict ℕ (List V))
  unfolding add_row
  add_rows cores i [] d = ok d
  add_rows cores i (lat ∷ lats) d = do d' ← add_row i lat cores d; add_rows cores (i + 1) lats d'

abbrev or_index_error {ℓ} : {A : Type ℓ} → Option A → Result A
or_index_error none = err index_error
or_index_error (some x) = ok x

-- `xs[i]`
unfoldable pub item {ℓ} : {A : Type ℓ} → List A → ℕ → Result A
item xs i = or_index_error (get_elem? xs i)

module _ {V : Type 0} where
  -- `max_throughput_dict[num_cores][i]`
  unfoldable pub at_core : Dict ℕ (List V) → ℕ → ℕ → ℕ → Result V
  unfolding item
  at_core max_dict i lat num_cores = do xs ← Dict.index num_cores max_dict; item xs i

-- The loop over the numbers of cores that assigns to a key for each.
module _ {ℓ} {V : Type ℓ} (value : ℕ → Result V) where
  unfoldable pub add_cores : List ℕ → Dict ℕ V → Result (Dict ℕ V)
  add_cores [] d = ok d
  add_cores (num_cores ∷ rest) d = do v ← value num_cores; add_cores rest (Dict.put num_cores v d)
