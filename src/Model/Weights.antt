-- ===== src/Model/Weights.antt =====
-- The bound on math.comb(seq_length, k) by which the outer loop of the probabilistic model ends.
use cxlkvs.Prelude.{ℕ, zero, suc, ◌+◌, ◌*◌, ◌≤◌, ◌<◌, ◌≡◌, refl, arith}
use native.Mathlib.Decide.{dec_lt}
use cxlkvs.Model.{comb}
use cxlkvs.Py.Num.{power}

comb_zero : (n k : ℕ) → n < k → comb n k ≡ 0
unfolding comb
comb_zero n zero h = elim h [ ]
comb_zero zero (suc k) h = refl
comb_zero (suc n) (suc k) h = omega (arith, comb_zero n k, comb_zero n (suc k))

power_pos : (a n : ℕ) → 0 < a → 0 < power a n
unfolding power
power_pos a zero h = omega arith
power_pos a (suc n) h = grind (arith, power_pos a n h)

pascal_zero : (a b p y : ℕ) → a * p ≤ 1 * y → b ≡ 0 → (a + b) * (2 * p) ≤ 1 * (3 * y)
pascal_zero a b p y h e = rw e (omega arith)

pascal_suc :
    (a b p x y : ℕ)
    → a * p ≤ (3 * x) * y
    → b * (2 * p) ≤ x * (3 * y)
    → (a + b) * (2 * p) ≤ (3 * x) * (3 * y)
pascal_suc a b p x y h k = omega arith

-- C(n + k, k) is at most 3 ^ n * (3 / 2) ^ k.
comb_bound : (n k m : ℕ) → m ≡ n + k → comb m k * power 2 k ≤ power 3 n * power 3 k
unfolding comb power
comb_bound n zero zero h = omega (arith, power_pos 3 n)
comb_bound n zero (suc m) h = omega (arith, power_pos 3 n)
comb_bound n (suc k) zero h = absurd (omega arith)
comb_bound zero (suc k) (suc m) h =
    pascal_zero (comb m k) (comb m (suc k)) (power 2 k) (power 3 k)
      (comb_bound zero k m (omega arith)) (comb_zero m (suc k) (omega arith))
comb_bound (suc n) (suc k) (suc m) h =
    pascal_suc (comb m k) (comb m (suc k)) (power 2 k) (power 3 n) (power 3 k)
      (comb_bound (suc n) k m (omega arith)) (comb_bound n (suc k) m (omega arith))

power-mul : (a b n : ℕ) → power (a * b) n ≡ power a n * power b n
unfolding power
power-mul a b zero = refl
power-mul a b (suc n) = grind (arith, power-mul a b n)

power-add : (a m n k : ℕ) → k ≡ m + n → power a k ≡ power a m * power a n
unfolding power
power-add a zero n k h = let e : k ≡ n = omega arith in rw e (omega arith)
power-add a (suc m) n zero h = absurd (omega arith)
power-add a (suc m) n (suc k) h = grind (arith, power-add a m n k)

-- (4 / 3) ^ (3 m) is at least 2 ^ m
cube_step : (a b c : ℕ) → c * b ≤ a → (2 * c) * (3 * (3 * (3 * b))) ≤ 4 * (4 * (4 * a))
cube_step a b c h = omega arith

three_quarters : (m k : ℕ) → k ≡ 3 * m → power 2 m * power 3 k ≤ power 4 k
unfolding power
three_quarters zero zero h = omega arith
three_quarters zero (suc k) h = absurd (omega arith)
three_quarters (suc m) (suc (suc (suc k))) h =
    cube_step (power 4 k) (power 3 k) (power 2 m) (three_quarters m k (omega arith))
three_quarters (suc m) zero h = absurd (omega arith)
three_quarters (suc m) (suc zero) h = absurd (omega arith)
three_quarters (suc m) (suc (suc zero)) h = absurd (omega arith)

-- 2 * 10 ^ 6 * 3 ^ n is below 2 ^ (21 + 2 n)
four_step : (x y : ℕ) → 2 * 1000000 * x < y → 2 * 1000000 * (3 * x) < 2 * (2 * y)
four_step x y h = omega arith

twenty_one : power 2 21 ≡ 2097152
unfolding power
twenty_one = refl

scale_bound : (n m : ℕ) → m ≡ 21 + 2 * n → 2 * 1000000 * power 3 n < power 2 m
unfolding power
scale_bound zero m h = let e : m ≡ 21 = omega arith in rw e (rw twenty_one (omega arith))
scale_bound (suc n) (suc (suc m)) h =
    four_step (power 3 n) (power 2 m) (scale_bound n m (omega arith))
scale_bound (suc n) zero h = absurd (omega arith)
scale_bound (suc n) (suc zero) h = absurd (omega arith)

mul_mono : (a b p : ℕ) → a ≤ b → a * p ≤ b * p
mul_mono a b p h = grind arith

lt_cancel : (a b p : ℕ) → a * p < b * p → a < b
lt_cancel a b p h = elim (dec_lt a b) [
  | yes lt ↦ lt
  | no ge ↦ absurd (omega (arith, mul_mono b a p (omega arith)))
]

-- the chain of the bounds, with c = C(n + k, k)
chain :
    (c p x y z : ℕ)
    → c * p ≤ x * y
    → z * y ≤ p * p
    → 2 * 1000000 * x < z
    → 0 < y
    → 2 * (c * 1000000) < p
chain c p x y z h1 h2 h3 h7 =
    lt_cancel (2 * (c * 1000000)) p p
      (omega (arith, mul_mono (2 * 1000000 * x + 1) z y (omega arith)))

-- After 63 + 6 n rounds the weight is below the tolerance, with a factor of 2 to spare.
pub comb-lt-power : (n k : ℕ) → k ≡ 63 + 6 * n → 2 * (comb (n + k) k * 1000000) < power 2 k
comb-lt-power n k hk =
    let m : ℕ = 21 + 2 * n in
    chain (comb (n + k) k) (power 2 k) (power 3 n) (power 3 k) (power 2 m)
      (comb_bound n k (n + k) refl) (rw (← power-mul 2 2 k) (three_quarters m k (omega arith)))
      (scale_bound n m refl) (power_pos 3 k (omega arith))
