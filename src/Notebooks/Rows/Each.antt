-- ===== src/Notebooks/Rows/Each.antt =====
-- A table whose every value goes through a function.
use cxlkvs.Prelude.{ℕ, zero, suc, ◌+◌, ◌≡◌, ap, refl, List, [], ◌∷◌, map, get_elem?}
use mathlib.Core.Option
use cxlkvs.Py.Result.{Result, ok, ◌>>=◌, traverse, traverse_from, traverse_from_ok, traverse_ok}
use cxlkvs.Notebooks.Rows.Columns.{cell}

module _ {V W : Type 0} (g : V → W) where
  abbrev pub then_g : Result V → Result W
  then_g r = do x ← r; ok (g x)

  traverse-then_g :
      (f : ℕ → Result V) (xs : List ℕ) (ys : List V)
      → traverse f xs ≡ ok ys
      → traverse (λ x. then_g (f x)) xs ≡ ok (map g ys)
  unfolding traverse
  traverse-then_g f [] ys e = ap (λ r. do zs ← r; ok (map g zs)) e
  traverse-then_g f (x ∷ xs) zs e =
      let (y, ys, e1, e2, e3) = traverse_ok f x xs zs e in
      rw (← e3) (rw (e1, traverse-then_g f xs ys e2))

  pub traverse_from-then_g :
      (f : ℕ → ℕ → ℕ → Result V) (cs : List ℕ) (i : ℕ) (xs : List ℕ) (yss : List (List V))
      → traverse_from (λ j lat. traverse (f j lat) cs) i xs ≡ ok yss
      → traverse_from (λ j lat. traverse (λ c. then_g (f j lat c)) cs) i xs ≡ ok (map (map g) yss)
  unfolding traverse_from
  traverse_from-then_g f cs i [] yss e = ap (λ r. do zs ← r; ok (map (map g) zs)) e
  traverse_from-then_g f cs i (x ∷ xs) zss e =
      let (ys, yss, e1, e2, e3) = traverse_from_ok (λ j lat. traverse (f j lat) cs) i x xs zss e in
      rw (← e3) (rw (traverse-then_g (f i x) cs ys e1, traverse_from-then_g f cs (i + 1) xs yss e2))

  get_elem?-map : (xs : List V) (j : ℕ) → get_elem? (map g xs) j ≡ Option.map g (get_elem? xs j)
  get_elem?-map [] j = refl
  get_elem?-map (x ∷ xs) zero = refl
  get_elem?-map (x ∷ xs) (suc j) = get_elem?-map xs j

  pub cell-map :
      (xss : List (List V)) (i j : ℕ) → cell (map (map g) xss) i j ≡ Option.map g (cell xss i j)
  cell-map [] i j = refl
  cell-map (xs ∷ xss) zero j = get_elem?-map xs j
  cell-map (xs ∷ xss) (suc i) j = cell-map xss i j
