-- ===== src/Py/Decimal.antt =====
-- `'%d' % n` and `str(n)`, and that `int(...)` reads them back.
use cxlkvs.Prelude.{
  ℕ, zero, suc, ◌+◌, ◌-◌, ◌*◌, ◌/◌, ◌%◌, ◌<◌, ◌≡◌, refl, ap, ◌∙◌, Bool, true, false, List, [], ◌∷◌,
  ◌++◌, All, ltb, if◌then◌else◌, arith, Bool-cases, inl, inr,
}
use cxlkvs.Py.Result.{ok}
use cxlkvs.Py.Text.{Text, is_digit, digits_from, int_digits}

-- the last digit behind those of `n / 10`
decimal_from : ℕ → ℕ → Text
decimal_from zero n = []
decimal_from (suc fuel) n =
    let first = decimal_from fuel (n / 10) in
    (if ltb n 10 then [] else first) ++ (b'0' + n % 10) ∷ []

-- More digits than `n + 1` are never needed.
unfoldable pub decimal : ℕ → Text
unfolding decimal_from
decimal n = decimal_from (suc n) n

eval : ℕ → Text → ℕ
eval acc [] = acc
eval acc (c ∷ s) = eval (acc * 10 + (c - b'0')) s

eval-concat : (acc c : ℕ) (s : Text) → eval acc (s ++ c ∷ []) ≡ eval acc s * 10 + (c - b'0')
unfolding eval
eval-concat acc c [] = refl
eval-concat acc c (x ∷ s) = eval-concat (acc * 10 + (x - b'0')) c s

abbrev pub IsDigits : Text → Type 0
IsDigits = All (λ c. is_digit c ≡ true)

pub All-append {ℓ κ} :
    {A : Type ℓ} (P : A → Type κ) (xs ys : List A) → All P xs → All P ys → All P (xs ++ ys)
All-append P [] ys h k = k
All-append P (x ∷ xs) ys h k = (h.0, All-append P xs ys h.1 k)

digits_from-eval :
    (after : Bool) (acc : ℕ) (c : ℕ) (s : Text)
    → IsDigits (c ∷ s)
    → digits_from after acc (c ∷ s) ≡ ok (eval acc (c ∷ s))
unfolding digits_from eval
digits_from-eval after acc c [] h = rw h.0
digits_from-eval after acc c (d ∷ s) h =
    rw h.0 (digits_from-eval true (acc * 10 + (c - b'0')) d s h.1)

digit-IsDigit : (n : ℕ) → n < 10 → is_digit (b'0' + n) ≡ true
digit-IsDigit n h = ground arith

decimal_from-IsDigits : (fuel n : ℕ) → IsDigits (decimal_from fuel n)
unfolding decimal_from
decimal_from-IsDigits zero n = tt
decimal_from-IsDigits (suc fuel) n =
    All-append _ (if ltb n 10 then [] else decimal_from fuel (n / 10)) _
      (elim (Bool-cases (ltb n 10)) [
        | inl e ↦ rw e tt
        | inr e ↦ rw e (decimal_from-IsDigits fuel (n / 10))
      ])
      (digit-IsDigit (n % 10) (omega arith), tt)

eval-decimal_from : (fuel n : ℕ) → n < fuel → eval 0 (decimal_from fuel n) ≡ n
unfolding decimal_from eval
eval-decimal_from zero n h = elim h [ ]
eval-decimal_from (suc fuel) n h = elim (Bool-cases (ltb n 10)) [
  | inl e ↦ rw e (ground arith)
  | inr e ↦ rw e (
      eval-concat 0 (b'0' + n % 10) (decimal_from fuel (n / 10))
      ∙ ground (arith, eval-decimal_from fuel (n / 10)))
]

concat_nonempty : (s : Text) (c : ℕ) → (d : ℕ) × (t : Text) × (s ++ c ∷ [] ≡ d ∷ t)
concat_nonempty [] c = (c, [], refl)
concat_nonempty (x ∷ s) c = (x, s ++ c ∷ [], refl)

-- a printed number is a digit with digits behind it
pub decimal-IsDigits : (n : ℕ) → IsDigits (decimal n)
unfolding decimal
decimal-IsDigits n = decimal_from-IsDigits (suc n) n

pub decimal-cons : (n : ℕ) → (d : ℕ) × (t : Text) × (decimal n ≡ d ∷ t)
unfolding decimal
decimal-cons n = concat_nonempty _ _

pub int_digits-decimal : (n : ℕ) → int_digits (decimal n) ≡ ok n
unfolding int_digits
int_digits-decimal n =
    let (d, t, e) = decimal-cons n in
    rw e (
      digits_from-eval false 0 d t (rw e at (decimal-IsDigits n))
      ∙ ap ok (rw (← e) (unfold decimal in eval-decimal_from (suc n) n (omega arith))))
