-- ===== src/Py/Codes.antt =====
-- Two literals are the same text where they are the same string.
use Prim.Native.Char.{code}
use text.Mathlib.TextEquality.{Char-path}
use cxlkvs.Prelude.{
  ℕ, ◌≡◌, ◌∙◌, ap, sym, refl, String, ◌∷◌, ◌==◌, string_eq, text_eq, Bool-cases, inl, inr,
}
use cxlkvs.Py.Text.{Text, codes}

cons_injective : (x y : ℕ) (xs ys : Text) → x ∷ xs ≡ y ∷ ys → (x ≡ y) × (xs ≡ ys)
cons_injective x y xs ys e = (cc e, cc e)

codes_injective : (a b : String) → codes a ≡ codes b → a ≡ b
codes_injective String.[] String.[] e = refl
codes_injective String.[] (String.◌∷◌ d b) e = cc e
codes_injective (String.◌∷◌ c a) String.[] e = cc e
codes_injective (String.◌∷◌ c a) (String.◌∷◌ d b) e =
    let (same, rest) = cons_injective (code c) (code d) (codes a) (codes b) e in
    rw (Char-path c d same, codes_injective a b rest) refl

pub codes-equal : (a b : String) → (codes a == codes b) ≡ (a == b)
codes-equal a b = elim (Bool-cases (a == b)) [
  | inl e ↦
      (text_eq.equal_iff (codes a) (codes b)).1 (ap codes ((string_eq.equal_iff a b).0 e)) ∙ sym e
  | inr e ↦ elim (Bool-cases (codes a == codes b)) [
    | inr f ↦ f ∙ sym e
    | inl f ↦ cc (
      (string_eq.equal_iff a b).1
          (codes_injective a b ((text_eq.equal_iff (codes a) (codes b)).0 f)),
      e,
    )
  ]
]
