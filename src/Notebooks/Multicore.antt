-- ===== src/Notebooks/Multicore.antt =====
-- notebooks/multicore.ipynb: the row of one latency of a table that another notebook has stored as JSON.
pub mod Stored
use cxlkvs.Prelude.{ℕ, ◌*◌, List, [], ◌∷◌, map, take, text_eq}
use cxlkvs.Py.Text.{Text}
use cxlkvs.Py.Decimal.{decimal}
use cxlkvs.Py.Num.{Num}
use cxlkvs.Py.Result.{Result, ok, ◌>>=◌}
use cxlkvs.Py.Dict
use cxlkvs.Py.Dict.{Dict}
use cxlkvs.Notebooks.Rows.Zip.{zip}
use cxlkvs.Notebooks.Plot.Bars.{Pyplot}

abbrev pub num_cores_list : List ℕ
num_cores_list = 1 ∷ 2 ∷ 4 ∷ 8 ∷ 16 ∷ []

abbrev pub cxl_latency : ℕ
cxl_latency = 5000

-- What `json.load` gives of what `json.dump` has written: the keys have become texts.
unfoldable pub through_json {ℓ} : {V : Type ℓ} → Dict ℕ V → Dict Text V
through_json d = map (λ kv. (decimal kv.0, kv.1)) d

-- The annotations of one curve: the points that they stand at, and the factors that they show.
pub record Curve (F : Type 0) : Type 0 where
  pub points : List (ℕ × F)
  pub factors : List F

module _ (num : Num) where
  open num use {F, of_nat, mul, div}

  -- `y / ys[0]` for the points
  unfoldable pub factors_of : List F → List F
  factors_of [] = []
  factors_of (y ∷ ys) = map (λ x. div x y) (y ∷ ys)

  -- `np.array(row) * 1e-6`
  unfoldable pub millions : List ℕ → List F
  millions row = map (λ y. mul (of_nat y) (div (of_nat 1) (of_nat 1000000))) row

  -- The annotations stop at the offsets of their texts, of which there are five.
  unfoldable pub curve_of : List ℕ → Curve F
  unfolding factors_of millions
  curve_of row =
      let ys = millions row in
      record { points = take 5 (zip num_cores_list ys); factors = take 5 (factors_of ys) }

  unfoldable pub curve : Pyplot F → Dict Text (List ℕ) → Result (Curve F)
  unfolding curve_of millions
  curve plt d = do
    row ← Dict.index (decimal cxl_latency) d
    drawn ← plt.plot (map of_nat num_cores_list) (millions row)
    ok (curve_of row)
