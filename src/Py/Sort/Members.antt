-- ===== src/Py/Sort/Members.antt =====
-- The elements of a sorted list are those of the list, and one is there where the list has one.
use cxlkvs.Prelude.{Bool, ◌≡◌, refl, List, [], ◌∷◌, In, All, Bool-cases, inl, inr}
use cxlkvs.Py.Sort.{insert, sort}

pub All_members {κ} :
    {A : Type 0} (P : A → Type κ) (xs : List A) → ((x : A) → In x xs → P x) → All P xs
All_members P [] h = tt
All_members P (x ∷ xs) h = (h x (inl refl), All_members P xs (λ y i. h y (inr i)))

module _ {A : Type 0} (less : A → A → Bool) where
  In-insert : (x y : A) (ys : List A) → In x (insert less y ys) → In x (y ∷ ys)
  unfolding insert
  In-insert x y [] i = i
  In-insert x y (z ∷ ys) i = elim (Bool-cases (less z y)) [
    | inr f ↦ rw f at i
    | inl f ↦
        let i' : In x (z ∷ insert less y ys) = rw f at i in
        elim i' [
          | inl e ↦ inr (inl e)
          | inr j ↦ elim (In-insert x y ys j) [ inl e ↦ inl e | inr k ↦ inr (inr k) ]
        ]
  ]

  pub In-sort : (x : A) (xs : List A) → In x (sort less xs) → In x xs
  unfolding sort
  In-sort x [] i = i
  In-sort x (y ∷ xs) i = elim (In-insert x y (sort less xs) i) [
    | inl e ↦ inl e
    | inr j ↦ inr (In-sort x xs j)
  ]

  insert-cons : (x : A) (xs : List A) → (y : A) × (ys : List A) × (insert less x xs ≡ y ∷ ys)
  unfolding insert
  insert-cons x [] = (x, [], refl)
  insert-cons x (z ∷ xs) = elim (Bool-cases (less z x)) [
    | inl f ↦ (z, insert less x xs, rw f refl)
    | inr f ↦ (x, z ∷ xs, rw f refl)
  ]

  pub sort-cons :
      (x : A) (xs : List A) → In x xs → (y : A) × (ys : List A) × (sort less xs ≡ y ∷ ys)
  unfolding sort
  sort-cons x [] i = absurd i
  sort-cons x (z ∷ xs) i = insert-cons z (sort less xs)
