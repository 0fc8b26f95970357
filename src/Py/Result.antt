-- ===== src/Py/Result.antt =====
-- Python's exceptions as values.
use cxlkvs.Prelude.{
  length, suc, map, All, ap, ℕ, ◌+◌, List, [], ◌∷◌, String, ◌≡◌, ◌⊎◌, inl, inr, refl,
}

pub data PyError : Type 0 where
  value_error : PyError
  key_error : PyError
  index_error : PyError
  type_error : PyError
  zero_division : PyError
  overflow_error : PyError
  unbound_local : PyError
  system_exit : PyError
  name_error : PyError
  file_not_found : PyError
  file_exists : PyError
  -- `raise Exception(message)`
  raised : String → PyError

-- What a call returns: its value, or the exception that it raises.
pub data Result {ℓ} (Value : Type ℓ) : Type ℓ where
  ok : Value → Result Value
  err : PyError → Result Value

-- An exception ends the rest of the block. `abbrev`, so that a block computes as far as its calls do.
module _ {ℓ κ} {Value : Type ℓ} {Next : Type κ} where
  infixl 5 ◌>>=◌
  abbrev pub ◌>>=◌ : Result Value → (Value → Result Next) → Result Next
  ◌>>=◌ (err raised_error) next = err raised_error
  ◌>>=◌ (ok value) next = next value

-- a call whose value is not used
infixl 5 ◌>>◌
abbrev pub ◌>>◌ {κ} : {Next : Type κ} → Result (Unit {0}) → Result Next → Result Next
first >> next = first >>= λ (done : Unit {0}). next

pub ok_injective {ℓ} : {A : Type ℓ} {a b : A} → ok a ≡ ok b → a ≡ b
ok_injective {a = a} e = ap (λ r. elim r [ ok x ↦ x | err y ↦ a ]) e

pub Result-cases {ℓ} :
    {A : Type ℓ} (r : Result A) → ((a : A) × (r ≡ ok a)) ⊎ ((e : PyError) × (r ≡ err e))
Result-cases (ok a) = inl (a, refl)
Result-cases (err e) = inr (e, refl)

-- What holds of every value that is returned; nothing is said of an exception.
abbrev pub Ensures {ℓ κ} : {A : Type ℓ} → (A → Type κ) → Result A → Type κ
Ensures P (ok a) = P a
Ensures P (err e) = Unit

module _ {ℓ κ} {A : Type ℓ} (P : A → Type κ) where
  pub Ensures-every : (r : Result A) → ((a : A) → P a) → Ensures P r
  Ensures-every (ok a) h = h a
  Ensures-every (err e) h = tt

  pub Ensures_ok : (r : Result A) (a : A) → r ≡ ok a → Ensures P r → P a
  Ensures_ok r a e h = rw e at h

  pub Ensures-weaken {ι} :
      (Q : A → Type ι) (r : Result A) → ((a : A) → P a → Q a) → Ensures P r → Ensures Q r
  Ensures-weaken Q (ok a) f h = f a h
  Ensures-weaken Q (err e) f h = tt

  pub Ensures-bind {ι} :
      {C : Type ι} (r : Result C) (next : C → Result A)
      → Ensures (λ c. Ensures P (next c)) r
      → Ensures P (r >>= next)
  Ensures-bind (ok c) next h = h
  Ensures-bind (err e) next h = tt

-- `for x in xs: ys.append(f(x))`, from the number `i` of the first round
unfoldable pub traverse_from {ℓ κ} :
    {A : Type ℓ} {B : Type κ} → (ℕ → A → Result B) → ℕ → List A → Result (List B)
traverse_from f i [] = ok []
traverse_from f i (x ∷ xs) = do y ← f i x; ys ← traverse_from f (i + 1) xs; ok (y ∷ ys)

unfoldable pub traverse {ℓ κ} :
    {A : Type ℓ} {B : Type κ} → (A → Result B) → List A → Result (List B)
traverse f [] = ok []
traverse f (x ∷ xs) = do y ← f x; ys ← traverse f xs; ok (y ∷ ys)

pub bind_ok {ℓ κ} :
    {A : Type ℓ} {B : Type κ} (r : Result A) (next : A → Result B) (b : B)
    → (r >>= next) ≡ ok b
    → (a : A) × ((r ≡ ok a) × (next a ≡ ok b))
bind_ok (ok a) next b e = (a, (refl, e))
bind_ok (err x) next b e = cc e

-- a loop that returned, at its first element
pub traverse_from_ok {ℓ κ} :
    {A : Type ℓ} {B : Type κ} (f : ℕ → A → Result B) (i : ℕ) (x : A) (xs : List A) (zs : List B)
    → traverse_from f i (x ∷ xs) ≡ ok zs
    → (y : B) × (ys : List B) × (f i x ≡ ok y)
      × (traverse_from f (i + 1) xs ≡ ok ys)
      × (y ∷ ys ≡ zs)
unfolding traverse_from
traverse_from_ok f i x xs zs e =
    let (y, (e1, e2)) = bind_ok (f i x) _ zs e in
    let (ys, (e3, e4)) = bind_ok (traverse_from f (i + 1) xs) _ zs e2 in
    (y, ys, e1, e3, ok_injective e4)

pub traverse_ok {ℓ κ} :
    {A : Type ℓ} {B : Type κ} (f : A → Result B) (x : A) (xs : List A) (zs : List B)
    → traverse f (x ∷ xs) ≡ ok zs
    → (y : B) × (ys : List B) × (f x ≡ ok y) × (traverse f xs ≡ ok ys) × (y ∷ ys ≡ zs)
unfolding traverse
traverse_ok f x xs zs e =
    let (y, (e1, e2)) = bind_ok (f x) _ zs e in
    let (ys, (e3, e4)) = bind_ok (traverse f xs) _ zs e2 in (y, ys, e1, e3, ok_injective e4)

-- each value with its own element
abbrev pub Pointwise {ℓ κ} : {A : Type ℓ} {B : Type κ} → (A → B → Type 0) → List A → List B → Type 0
Pointwise P [] [] = Unit
Pointwise P (x ∷ xs) (y ∷ ys) = P x y × Pointwise P xs ys
Pointwise P [] (y ∷ ys) = ⊥
Pointwise P (x ∷ xs) [] = ⊥

pub Pointwise-All {ℓ κ} :
    {A : Type ℓ} {B : Type κ} (P : B → Type 0) (xs : List A) (ys : List B)
    → Pointwise (λ x y. P y) xs ys
    → All P ys
Pointwise-All P [] [] h = tt
Pointwise-All P (x ∷ xs) (y ∷ ys) h = (h.0, Pointwise-All P xs ys h.1)
Pointwise-All P [] (y ∷ ys) h = absurd h
Pointwise-All P (x ∷ xs) [] h = absurd h

-- a loop whose every round returns
pub traverse-Pointwise {ℓ κ} :
    {A : Type ℓ} {B : Type κ} (P : A → B → Type 0) (f : A → Result B) (xs : List A)
    → All (λ x. (y : B) × (f x ≡ ok y) × P x y) xs
    → (ys : List B) × (traverse f xs ≡ ok ys) × Pointwise P xs ys
unfolding traverse
traverse-Pointwise P f [] h = ([], refl, tt)
traverse-Pointwise P f (x ∷ xs) h =
    let (y, e, p) = h.0 in
    let (ys, es, ps) = traverse-Pointwise P f xs h.1 in (y ∷ ys, rw (e, es), (p, ps))

pub traverse_from-Pointwise {ℓ κ} :
    {A : Type ℓ} {B : Type κ} (P : A → B → Type 0) (f : ℕ → A → Result B) (i : ℕ) (xs : List A)
    → All (λ x. (j : ℕ) → (y : B) × (f j x ≡ ok y) × P x y) xs
    → (ys : List B) × (traverse_from f i xs ≡ ok ys) × Pointwise P xs ys
unfolding traverse_from
traverse_from-Pointwise P f i [] h = ([], refl, tt)
traverse_from-Pointwise P f i (x ∷ xs) h =
    let (y, e, p) = h.0 i in
    let (ys, es, ps) = traverse_from-Pointwise P f (i + 1) xs h.1 in (y ∷ ys, rw (e, es), (p, ps))

pub traverse-map {ℓ κ} :
    {A : Type ℓ} {B : Type κ} (f : A → Result B) (g : A → B) (xs : List A)
    → All (λ x. f x ≡ ok (g x)) xs
    → traverse f xs ≡ ok (map g xs)
unfolding traverse
traverse-map f g [] h = refl
traverse-map f g (x ∷ xs) h = rw (h.0, traverse-map f g xs h.1)

pub length-traverse {ℓ κ} :
    {A : Type ℓ} {B : Type κ} (f : A → Result B) (xs : List A) (ys : List B)
    → traverse f xs ≡ ok ys
    → length ys ≡ length xs
unfolding traverse
length-traverse f [] ys e = let same : [] ≡ ys = ok_injective e in rw (← same) refl
length-traverse f (x ∷ xs) zs e =
    let (y, ys, e1, e2, e3) = traverse_ok f x xs zs e in
    rw (← e3) (ap suc (length-traverse f xs ys e2))

-- what holds of every value that a round returns
pub traverse-All {ℓ κ ι} :
    {A : Type ℓ} {B : Type κ} (P : B → Type ι) (f : A → Result B) (xs : List A) (ys : List B)
    → ((x : A) (y : B) → f x ≡ ok y → P y)
    → traverse f xs ≡ ok ys
    → All P ys
unfolding traverse
traverse-All P f [] ys h e = let same : [] ≡ ys = ok_injective e in rw (← same) tt
traverse-All P f (x ∷ xs) zs h e =
    let (y, ys, e1, e2, e3) = traverse_ok f x xs zs e in
    rw (← e3) (h x y e1, traverse-All P f xs ys h e2)
