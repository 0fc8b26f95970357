-- ===== src/Py/Sort/Least.antt =====
-- `min` returns an element that no other is below.
use cxlkvs.Prelude.{Bool, true, false, ◌≡◌, refl, List, [], ◌∷◌, In, Bool-cases, inl, inr}
use cxlkvs.Py.Num.{Num, IsOrdered}
use cxlkvs.Py.Result.{ok, ok_injective}
use mathlib.Core.Path.{subst}
use cxlkvs.Py.Sort.{min_from, min_list}

-- the laws of a test for which `min` is meant
pub record IsStrict {A : Type 0} (less : A → A → Bool) : Type 0 where
  pub irrefl : (a : A) → less a a ≡ false
  pub asym : (a b : A) → less a b ≡ true → less b a ≡ false
  pub not_trans : (a b c : A) → less a b ≡ false → less b c ≡ false → less a c ≡ false

module _ {A : Type 0} (less : A → A → Bool) where
  below : (m x : A) (xs : List A) → less x m ≡ true → min_from less x xs ≡ min_from less m (x ∷ xs)
  unfolding min_from
  below m x xs e = rw e refl

  not_below :
      (m x : A) (xs : List A) → less x m ≡ false → min_from less m xs ≡ min_from less m (x ∷ xs)
  unfolding min_from
  not_below m x xs e = rw e refl

  single : (m : A) → min_from less m [] ≡ m
  unfolding min_from
  single m = refl

  min_from-In : (m : A) (xs : List A) → In (min_from less m xs) (m ∷ xs)
  min_from-In m [] = inl (single m)
  min_from-In m (x ∷ xs) = elim (Bool-cases (less x m)) [
    | inl e ↦ subst (λ z. In z (m ∷ x ∷ xs)) (below m x xs e) (inr (min_from-In x xs))
    | inr e ↦
        subst (λ z. In z (m ∷ x ∷ xs)) (not_below m x xs e)
          (elim (min_from-In m xs) [ inl h ↦ inl h | inr h ↦ inr (inr h) ])
  ]

  module _ (laws : IsStrict less) where
    min_from-least :
        (m : A) (xs : List A) (r : A) → In r (m ∷ xs) → less r (min_from less m xs) ≡ false
    unfolding min_from
    min_from-least m [] r (inl same) = rw same (laws.irrefl m)
    min_from-least m [] r (inr h) = absurd h
    min_from-least m (x ∷ xs) r h = elim (Bool-cases (less x m)) [
      | inl e ↦ rw e (elim h [
        | inl same ↦
            rw same (laws.not_trans m x _ (laws.asym x m e) (min_from-least x xs x (inl refl)))
        | inr later ↦ min_from-least x xs r later
      ])
      | inr e ↦ rw e (elim h [
        | inl same ↦ min_from-least m xs r (inl same)
        | inr (inl same) ↦ rw same (laws.not_trans x m _ e (min_from-least m xs m (inl refl)))
        | inr (inr later) ↦ min_from-least m xs r (inr later)
      ])
    ]

    pub min_list-least :
        (xs : List A) (m : A)
        → min_list less xs ≡ ok m
        → In m xs × ((r : A) → In r xs → less r m ≡ false)
    unfolding min_list
    min_list-least [] m e = cc e
    min_list-least (x ∷ xs) m e =
        subst (λ z. In z (x ∷ xs) × ((r : A) → In r (x ∷ xs) → less r z ≡ false)) (ok_injective e)
          (min_from-In x xs, min_from-least x xs)

module _ (num : Num) (laws : IsOrdered num) where
  less_asym : (a b : num.F) → num.less a b ≡ true → num.less b a ≡ false
  less_asym a b h = elim (Bool-cases (num.less b a)) [
    | inl e ↦ cc (laws.less_trans a b a h e, laws.less_irrefl a)
    | inr e ↦ e
  ]

  pub less-IsStrict : IsStrict num.less
  less-IsStrict = record {
    irrefl = laws.less_irrefl;
    asym = less_asym;
    not_trans = laws.not_less_trans;
  }

  pub greater-IsStrict : IsStrict (λ a b. num.less b a)
  greater-IsStrict = record {
    irrefl = laws.less_irrefl;
    asym = λ a b h. less_asym b a h;
    not_trans = λ a b c h k. laws.not_less_trans c b a k h;
  }
