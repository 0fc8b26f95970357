-- ===== src/Py/Sort.antt =====
-- `sorted(xs)` and `min(xs)`, for a test `less`.
pub mod Members
pub mod Least
use cxlkvs.Prelude.{Bool, List, [], ◌∷◌, if◌then◌else◌}
use cxlkvs.Py.Result.{Result, ok, err, value_error}

module _ {ℓ} {A : Type ℓ} (less : A → A → Bool) where
  -- Equal elements keep their order.
  unfoldable pub insert : A → List A → List A
  insert x [] = x ∷ []
  insert x (y ∷ ys) = let later = insert x ys in if less y x then y ∷ later else x ∷ y ∷ ys

  unfoldable pub sort : List A → List A
  unfolding insert
  sort [] = []
  sort (x ∷ xs) = insert x (sort xs)

  -- the first of the least elements
  unfoldable pub min_from : A → List A → A
  min_from m [] = m
  min_from m (x ∷ xs) = min_from (if less x m then x else m) xs

  unfoldable pub min_list : List A → Result A
  unfolding min_from
  min_list [] = err value_error
  min_list (x ∷ xs) = ok (min_from x xs)
