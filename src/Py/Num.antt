-- ===== src/Py/Num.antt =====
-- Python's numbers where the scripts divide or convert to `float`. Floating point is not modelled:
-- the type and its operations are a parameter, and the laws that a theorem uses are its hypotheses.
use cxlkvs.Prelude.{
  ℕ, zero, suc, ◌+◌, ◌-◌, ◌*◌, ◌/◌, ◌≡◌, Bool, true, false, Option, none, some, ltb, nat_beq, arith,
  if◌then◌else◌,
}
use cxlkvs.Py.Result.{Result, ok, err, value_error, zero_division}
use cxlkvs.Py.Text.{Text, int_digits, strip}

pub record Num : Type 1 where
  pub F : Type 0
  -- a natural number, and `-(n + 1)`
  pub of_nat : ℕ → F
  pub of_negsuc : ℕ → F
  -- whether an int is small enough for `float(n)`, which raises `OverflowError` otherwise
  pub fits : ℕ → Bool
  -- `float(s)`, `none` where it raises `ValueError`
  pub of_text : Text → Option F
  pub add : F → F → F
  pub sub : F → F → F
  pub mul : F → F → F
  -- `math.pow(a, n)`
  pub pow : F → ℕ → F
  -- `a / b` at a divisor that is not zero
  pub div : F → F → F
  pub less : F → F → Bool
  pub same : F → F → Bool
  -- whether a float is an int, which is `n` or `-(n + 1)`
  pub same_nat : ℕ → F → Bool
  pub same_negsuc : ℕ → F → Bool

-- The order laws of the numbers that the scripts compute with, none of which is a NaN.
pub record IsOrdered (num : Num) : Type 0 where
  pub less_irrefl : (a : num.F) → num.less a a ≡ false
  pub less_trans : (a b c : num.F) → num.less a b ≡ true → num.less b c ≡ true → num.less a c ≡ true
  -- `<=` is transitive too
  pub not_less_trans :
      (a b c : num.F) → num.less a b ≡ false → num.less b c ≡ false → num.less a c ≡ false

module _ (num : Num) where
  open num use {F, of_nat, of_text, div, less, same}

  abbrev or_value_error : Option F → Result F
  or_value_error none = err value_error
  or_value_error (some x) = ok x

  -- `float(s)`
  abbrev pub float_text : Text → Result F
  float_text s = or_value_error (of_text s)

  -- `a / b`
  abbrev pub true_div : F → F → Result F
  true_div a b = if same b (of_nat 0) then err zero_division else ok (div a b)

  -- `max(a, b)`
  abbrev pub max_num : F → F → F
  max_num a b = if less a b then b else a

unfoldable pub power : ℕ → ℕ → ℕ
power a zero = 1
power a (suc n) = a * power a n

-- A model of the parameter, for examples: natural numbers, with division rounded down.
abbrev pub nat_num : Num
nat_num = record {
  F = ℕ;
  of_nat = λ n. n;
  of_negsuc = λ n. 0;
  fits = λ n. true;
  of_text = λ s. elim (int_digits (strip s)) [ ok n ↦ some n | err e ↦ none ];
  add = λ a b. a + b;
  sub = λ a b. a - b;
  mul = λ a b. a * b;
  pow = power;
  div = λ a b. a / b;
  less = ltb;
  same = nat_beq;
  same_nat = nat_beq;
  same_negsuc = λ n x. false;
}

less_trans_nat : (a b c : ℕ) → ltb a b ≡ true → ltb b c ≡ true → ltb a c ≡ true
less_trans_nat a b c h k = ground arith

not_less_trans_nat : (a b c : ℕ) → ltb a b ≡ false → ltb b c ≡ false → ltb a c ≡ false
not_less_trans_nat a b c h k = ground arith

less_irrefl_nat : (a : ℕ) → ltb a a ≡ false
less_irrefl_nat a = ground arith

pub nat_num-IsOrdered : IsOrdered nat_num
nat_num-IsOrdered = record {
  less_irrefl = less_irrefl_nat;
  less_trans = less_trans_nat;
  not_less_trans = not_less_trans_nat;
}
