-- ===== src/Microbench/Chain/Bits.antt =====
-- `&` with a mask of one byte, and `|` of numbers that have no digit in common.
use Prim.Native.Nat.{min, max, digits, bitwise, bit_and, bit_or, bit_and-bitwise, bit_or-bitwise}
use cxlkvs.Prelude.{ℕ, zero, suc, ◌+◌, ◌*◌, ◌/◌, ◌%◌, ◌≤◌, ◌<◌, ◌≡◌, refl, arith}

-- One binary digit at a time, for any operation on digits whose rest `z` agrees with it.
module _ (z : ℕ → ℕ) (f : ℕ → ℕ → ℕ) (rest : (b : ℕ) → z b ≡ z (b / 2) * 2 + f 0 (b % 2)) where
  digits_enough : (a b n m : ℕ) → a ≤ n → a ≤ m → digits z f n a b ≡ digits z f m a b
  digits_enough (suc a) b (suc n) (suc m) h k =
      omega (arith, digits_enough (suc a / 2) (b / 2) n m (omega arith) (omega arith))
  digits_enough (suc a) b zero m h k = absurd (omega arith)
  digits_enough (suc a) b (suc n) zero h k = absurd (omega arith)
  digits_enough zero b (suc n) (suc m) h k = refl
  digits_enough zero b (suc n) zero h k = refl
  digits_enough zero b zero (suc m) h k = refl
  digits_enough zero b zero zero h k = refl

  bitwise_half : (a b : ℕ) → bitwise z f a b ≡ bitwise z f (a / 2) (b / 2) * 2 + f (a % 2) (b % 2)
  bitwise_half zero b = rest b
  bitwise_half (suc a) b =
      omega (arith, digits_enough (suc a / 2) (b / 2) a (suc a / 2) (omega arith) (omega arith))

and_half : (a b : ℕ) → bit_and a b ≡ bit_and (a / 2) (b / 2) * 2 + min (a % 2) (b % 2)
and_half a b = omega (
  arith,
  bit_and-bitwise a b,
  bit_and-bitwise (a / 2) (b / 2),
  bitwise_half (λ c. 0) min (λ c. omega arith) a b,
)

or_half : (a b : ℕ) → bit_or a b ≡ bit_or (a / 2) (b / 2) * 2 + max (a % 2) (b % 2)
or_half a b = omega (
  arith,
  bit_or-bitwise a b,
  bit_or-bitwise (a / 2) (b / 2),
  bitwise_half (λ c. c) max (λ c. omega arith) a b,
)

and_zero_digits : (n a : ℕ) → digits (λ c. 0) min n a 0 ≡ 0
and_zero_digits zero a = refl
and_zero_digits (suc n) zero = refl
and_zero_digits (suc n) (suc a) = omega (arith, and_zero_digits n (suc a / 2))

and_zero : (a : ℕ) → bit_and a 0 ≡ 0
and_zero a = omega (arith, bit_and-bitwise a 0, and_zero_digits a a)

or_zero_digits : (n a : ℕ) → a ≤ n → digits (λ c. c) max n a 0 ≡ a
or_zero_digits zero zero h = refl
or_zero_digits zero (suc a) h = absurd (omega arith)
or_zero_digits (suc n) zero h = refl
or_zero_digits (suc n) (suc a) h = omega (arith, or_zero_digits n (suc a / 2) (omega arith))

or_zero : (a : ℕ) → bit_or a 0 ≡ a
or_zero a = omega (arith, bit_or-bitwise a 0, or_zero_digits a a (omega arith))

and_odd : (a m : ℕ) → bit_and a (m * 2 + 1) ≡ bit_and (a / 2) m * 2 + a % 2
and_odd a m =
    let q : (m * 2 + 1) / 2 ≡ m = omega arith in omega (arith, rw q at (and_half a (m * 2 + 1)))

and_even : (a m : ℕ) → bit_and a (m * 2) ≡ bit_and (a / 2) m * 2
and_even a m = let q : (m * 2) / 2 ≡ m = omega arith in omega (arith, rw q at (and_half a (m * 2)))

pub and_byte : (a : ℕ) → bit_and a 255 ≡ a % 256
and_byte a = omega (
  arith,
  and_odd a 127,
  and_odd (a / 2) 63,
  and_odd (a / 2 / 2) 31,
  and_odd (a / 2 / 2 / 2) 15,
  and_odd (a / 2 / 2 / 2 / 2) 7,
  and_odd (a / 2 / 2 / 2 / 2 / 2) 3,
  and_odd (a / 2 / 2 / 2 / 2 / 2 / 2) 1,
  and_odd (a / 2 / 2 / 2 / 2 / 2 / 2 / 2) 0,
  and_zero (a / 2 / 2 / 2 / 2 / 2 / 2 / 2 / 2),
)

halves : ℕ → ℕ
halves a = a / 2 / 2 / 2 / 2 / 2 / 2 / 2 / 2

halves-256 : (a : ℕ) → halves a ≡ a / 256
unfolding halves
halves-256 a = omega arith

doubles : ℕ → ℕ
doubles a = a * 2 * 2 * 2 * 2 * 2 * 2 * 2 * 2

doubles-256 : (a : ℕ) → doubles a ≡ a * 256
unfolding doubles
doubles-256 a = omega arith

and_halves : (a m : ℕ) → bit_and a (doubles m) ≡ bit_and (halves a) m * 256
unfolding halves doubles
and_halves a m = omega (
  arith,
  and_even (a) (m * 2 * 2 * 2 * 2 * 2 * 2 * 2),
  and_even (a / 2) (m * 2 * 2 * 2 * 2 * 2 * 2),
  and_even (a / 2 / 2) (m * 2 * 2 * 2 * 2 * 2),
  and_even (a / 2 / 2 / 2) (m * 2 * 2 * 2 * 2),
  and_even (a / 2 / 2 / 2 / 2) (m * 2 * 2 * 2),
  and_even (a / 2 / 2 / 2 / 2 / 2) (m * 2 * 2),
  and_even (a / 2 / 2 / 2 / 2 / 2 / 2) (m * 2),
  and_even (a / 2 / 2 / 2 / 2 / 2 / 2 / 2) (m),
)

-- a mask behind eight zeros
pub and_shift : (a m : ℕ) → bit_and a (m * 256) ≡ bit_and (a / 256) m * 256
and_shift a m = rw (doubles-256 m, halves-256 a) at (and_halves a m)

or_even : (a b : ℕ) → bit_or (a * 2) (b * 2) ≡ bit_or a b * 2
or_even a b =
    let p : (a * 2) / 2 ≡ a = omega arith in
    let q : (b * 2) / 2 ≡ b = omega arith in omega (arith, rw (p, q) at (or_half (a * 2) (b * 2)))

or_doubles : (a b : ℕ) → bit_or (doubles a) (doubles b) ≡ bit_or a b * 256
unfolding doubles
or_doubles a b = omega (
  arith,
  or_even (a * 2 * 2 * 2 * 2 * 2 * 2 * 2) (b * 2 * 2 * 2 * 2 * 2 * 2 * 2),
  or_even (a * 2 * 2 * 2 * 2 * 2 * 2) (b * 2 * 2 * 2 * 2 * 2 * 2),
  or_even (a * 2 * 2 * 2 * 2 * 2) (b * 2 * 2 * 2 * 2 * 2),
  or_even (a * 2 * 2 * 2 * 2) (b * 2 * 2 * 2 * 2),
  or_even (a * 2 * 2 * 2) (b * 2 * 2 * 2),
  or_even (a * 2 * 2) (b * 2 * 2),
  or_even (a * 2) (b * 2),
  or_even (a) (b),
)

pub or_shift : (a b : ℕ) → bit_or (a * 256) (b * 256) ≡ bit_or a b * 256
or_shift a b = rw (doubles-256 a, doubles-256 b) at (or_doubles a b)

or_digit : (a b : ℕ) → bit_or (a * 2) b ≡ bit_or a (b / 2) * 2 + b % 2
or_digit a b = let p : (a * 2) / 2 ≡ a = omega arith in omega (arith, rw p at (or_half (a * 2) b))

or_halves : (a b : ℕ) → bit_or (doubles a) b ≡ bit_or a (halves b) * 256 + b % 256
unfolding doubles halves
or_halves a b = omega (
  arith,
  or_digit (a * 2 * 2 * 2 * 2 * 2 * 2 * 2) (b),
  or_digit (a * 2 * 2 * 2 * 2 * 2 * 2) (b / 2),
  or_digit (a * 2 * 2 * 2 * 2 * 2) (b / 2 / 2),
  or_digit (a * 2 * 2 * 2 * 2) (b / 2 / 2 / 2),
  or_digit (a * 2 * 2 * 2) (b / 2 / 2 / 2 / 2),
  or_digit (a * 2 * 2) (b / 2 / 2 / 2 / 2 / 2),
  or_digit (a * 2) (b / 2 / 2 / 2 / 2 / 2 / 2),
  or_digit (a) (b / 2 / 2 / 2 / 2 / 2 / 2 / 2),
)

-- the last byte
pub or_byte : (a b : ℕ) → b < 256 → bit_or (a * 256) b ≡ a * 256 + b
or_byte a b h =
    let q : halves b ≡ 0 = omega (arith, halves-256 b) in
    omega (arith, rw (doubles-256 a, q, or_zero) at (or_halves a b))
