-- ===== src/Model/Fixed.antt =====
-- Numbers with eight decimal places, at which the examples about the operation times compute.
use cxlkvs.Prelude.{
  inl, inr, ℕ, zero, suc, ◌+◌, ◌-◌, ◌*◌, ◌/◌, ◌≤◌, ◌≡◌, true, false, arith, ltb, nat_beq, none,
}
use cxlkvs.Py.Num.{Num, IsOrdered}
use cxlkvs.Py.Num.{power}
use cxlkvs.Prelude.Divide.{leb_cases, quotient, times_mono}
use cxlkvs.Prelude.{◌<◌}
use cxlkvs.Model.Rounds.{IsAccurate}
use cxlkvs.Model.Order.{IsAntitone, IsMonotone}

pub le_of_ltb : (a b : ℕ) → ltb b a ≡ false → a ≤ b
le_of_ltb a b h = ground arith

pub ltb_of_le : (a b : ℕ) → a ≤ b → ltb b a ≡ false
ltb_of_le a b h = ground arith

scaled_mono : (a b c : ℕ) → a ≤ b → c * a ≤ c * b
scaled_mono a b c h = grind arith

quotient_mono : (a b c : ℕ) → a ≤ b → a / c ≤ b / c
quotient_mono a b c h = grind arith

scale_mono : (a b : ℕ) → a ≤ b → a * 100000000 ≤ b * 100000000
scale_mono a b h = omega arith

div_mono_nat : (a b c : ℕ) → ltb b a ≡ false → ltb (b / c) (a / c) ≡ false
div_mono_nat a b c h = ltb_of_le (a / c) (b / c) (quotient_mono a b c (le_of_ltb a b h))

mul_mono_nat : (a b c : ℕ) → ltb b a ≡ false → ltb (c * b) (c * a) ≡ false
mul_mono_nat a b c h = ltb_of_le (c * a) (c * b) (scaled_mono a b c (le_of_ltb a b h))

le_trans_nat : (a b c : ℕ) → ltb b a ≡ false → ltb c b ≡ false → ltb c a ≡ false
le_trans_nat a b c h k = ground arith

asym_nat : (a b : ℕ) → ltb a b ≡ true → ltb b a ≡ false
asym_nat a b h = ground arith

irrefl_nat : (a : ℕ) → ltb a a ≡ false
irrefl_nat a = ground arith

nonneg_nat : (a : ℕ) → ltb a 0 ≡ false
nonneg_nat a = ground arith

add_mono_nat : (a b c : ℕ) → ltb b a ≡ false → ltb (b + c) (a + c) ≡ false
add_mono_nat a b c h = ground arith

le_add_nat : (a c : ℕ) → ltb (a + c) a ≡ false
le_add_nat a c = ground arith

add_comm_nat : (a b : ℕ) → a + b ≡ b + a
add_comm_nat a b = omega arith

sub_mono_nat : (a b c : ℕ) → ltb b a ≡ false → ltb (b - c) (a - c) ≡ false
sub_mono_nat a b c h = ground arith

abbrev pub scale : ℕ
scale = 100000000

abbrev pub fixed_power : ℕ → ℕ → ℕ
fixed_power a zero = scale
fixed_power a (suc n) = a * fixed_power a n / scale

-- Numbers in units of 10 ^ -8, each result rounded down.
abbrev pub fixed_num : Num
fixed_num = record {
  F = ℕ;
  of_nat = λ n. n * scale;
  of_negsuc = λ n. 0;
  fits = λ n. true;
  of_text = λ s. none;
  add = λ a b. a + b;
  sub = λ a b. a - b;
  mul = λ a b. a * b / scale;
  pow = fixed_power;
  div = λ a b. a * scale / b;
  less = ltb;
  same = nat_beq;
  same_nat = λ n x. nat_beq (n * scale) x;
  same_negsuc = λ n x. false;
}

times_comm : (a b : ℕ) → a * b ≡ b * a
times_comm a b = grind arith

mul_comm_fixed : (a b : ℕ) → a * b / scale ≡ b * a / scale
mul_comm_fixed a b = rw (times_comm a b)

less_trans_nat : (a b c : ℕ) → ltb a b ≡ true → ltb b c ≡ true → ltb a c ≡ true
less_trans_nat a b c h k = ground arith

pub fixed_num-IsOrdered : IsOrdered fixed_num
fixed_num-IsOrdered = record {
  less_irrefl = irrefl_nat;
  less_trans = less_trans_nat;
  not_less_trans = λ a b c h k. le_trans_nat c b a k h;
}

pub fixed_num-IsMonotone : IsMonotone fixed_num
fixed_num-IsMonotone = record {
  less_irrefl = irrefl_nat;
  less_asym = asym_nat;
  le_trans = le_trans_nat;
  of_nat_nonneg = λ n. nonneg_nat (n * scale);
  add_comm = add_comm_nat;
  mul_comm = mul_comm_fixed;
  sub_mono = sub_mono_nat;
  of_nat_mono = λ m n h. ltb_of_le (m * scale) (n * scale) (scale_mono m n h);
  add_mono = add_mono_nat;
  le_add = λ a c h. le_add_nat a c;
  add_nonneg = λ a b h k. nonneg_nat (a + b);
  mul_nonneg = λ a b h k. nonneg_nat (a * b / scale);
  mul_mono = λ a b c h k. div_mono_nat (c * a) (c * b) scale (mul_mono_nat a b c k);
  div_nonneg = λ a b h k. nonneg_nat (a * scale / b);
  div_mono = λ a b c h k.
      div_mono_nat (a * scale) (b * scale) c
        (ltb_of_le (a * scale) (b * scale) (scale_mono a b (le_of_ltb a b k)));
  pow_nonneg = λ a n h. nonneg_nat (fixed_power a n);
}

-- The power of at most a half falls below the power of a half.
half_step : (a p q y : ℕ) → 2 * a ≤ scale → q * scale ≤ a * p → p * y ≤ scale → q * (2 * y) ≤ scale
half_step a p q y h k l = omega (
  arith,
  times_mono (q * scale) (a * p) (2 * y) k,
  times_mono (2 * a) scale (p * y) h,
  times_mono (p * y) scale scale l,
)

fixed_power-half : (a k : ℕ) → 2 * a ≤ scale → fixed_power a k * power 2 k ≤ scale
unfolding power
fixed_power-half a zero h = omega arith
fixed_power-half a (suc k) h =
    half_step a (fixed_power a k) (fixed_power a (suc k)) (power 2 k) h
      (quotient (a * fixed_power a k) scale (omega arith)).0 (fixed_power-half a k h)

fixed_half : (x : ℕ) → 2 * (1 * scale * scale / (x + 2 * scale)) ≤ scale
fixed_half x = omega (arith, (quotient (1 * scale * scale) (x + 2 * scale) (omega arith)).0)

small_fixed : (c q y : ℕ) → q * y ≤ scale → 2 * (c * 1000000) < y → c * scale * q / scale < 100
small_fixed c q y h k = omega (
  arith,
  (quotient (c * scale * q) scale (omega arith)).0,
  times_mono (2 * (c * 1000000) + 1) y q (omega (arith, k)),
)

ltb_of_lt : (a b : ℕ) → a < b → ltb a b ≡ true
ltb_of_lt a b h = ground arith

small_power :
    (x c k : ℕ)
    → 2 * (c * 1000000) < power 2 k
    → c * scale * fixed_power (1 * scale * scale / (x + 2 * scale)) k / scale < 100
small_power x c k h =
    small_fixed c (fixed_power (1 * scale * scale / (x + 2 * scale)) k) (power 2 k)
      (fixed_power-half (1 * scale * scale / (x + 2 * scale)) k (fixed_half x)) h

pub fixed_num-IsAccurate : IsAccurate fixed_num
fixed_num-IsAccurate = record { small = λ x c k h fit l. ltb_of_lt _ 100 (small_power x c k l) }

quotient_anti : (a b c : ℕ) → 1 ≤ a → a ≤ b → c / b ≤ c / a
quotient_anti a b c h k = elim (leb_cases (c / b) (c / a)) [
  | inl le ↦ le
  | inr gt ↦
      let low = quotient c b (omega (arith, h, k)) in
      let high = quotient c a h in
      let more = times_mono (c / a + 1) (c / b) b (omega (arith, gt)) in
      let wide = times_mono a b (c / a + 1) k in grind arith
]

positive : (a : ℕ) → ltb 0 a ≡ true → 1 ≤ a
positive a h = ground arith

not_zero : (a : ℕ) → ltb 0 a ≡ true → nat_beq a 0 ≡ false
not_zero a h = ground arith

pub fixed_num-IsAntitone : IsAntitone fixed_num
fixed_num-IsAntitone = record {
  div_anti = λ n a b h k.
      ltb_of_le _ _ (quotient_anti a b (n * scale * scale) (positive a h) (le_of_ltb a b k));
  above_zero = not_zero;
}
