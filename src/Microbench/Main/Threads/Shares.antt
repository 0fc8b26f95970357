-- ===== src/Microbench/Main/Threads/Shares.antt =====
-- The shares of the threads cover the operations, one behind the other, and differ by one at most.
use cxlkvs.Prelude.{
  ℕ, zero, suc, ◌+◌, ◌-◌, ◌*◌, ◌/◌, ◌%◌, ◌^◌, ◌≤◌, ◌<◌, ◌≡◌, ap, refl, List, [], ◌∷◌, All, length,
  arith, ltb, inl, inr, if◌then◌else◌,
}
use cxlkvs.Prelude.Divide.{leb_cases, quotient, times_mono}
use cxlkvs.Prelude.Int.{ℤ, pos, negsuc}
use cxlkvs.Microbench.Main.Threads.{
  Share, shares_from, shares, total_from, total_of, compare_latencies,
}

times_suc : (c i : ℕ) → c * (i + 1) ≡ c * i + c
times_suc c i = grind arith

module _ (x q y n a c : ℕ) where
  sum_low : x * n ≤ a → q * n ≤ c → a + c < y * n + n → x + q ≤ y
  sum_low h k l = elim (leb_cases (x + q) y) [
    | inl le ↦ le
    | inr gt ↦ absurd (grind (arith, times_mono (y + 1) (x + q) n (omega arith)))
  ]

  sum_high : a < x * n + n → c < q * n + n → y * n ≤ a + c → y ≤ x + q + 1
  sum_high h k l = elim (leb_cases y (x + q + 1)) [
    | inl le ↦ le
    | inr gt ↦ absurd (grind (arith, times_mono (x + q + 2) y n (omega arith)))
  ]

module _ (c i n : ℕ) (h : 1 ≤ n) where
  step_low : c * i / n + c / n ≤ c * (i + 1) / n
  step_low = rw (times_suc c i) (
      sum_low (c * i / n) (c / n) ((c * i + c) / n) n (c * i) c (quotient (c * i) n h).0
        (quotient c n h).0 (quotient (c * i + c) n h).1)

  step_high : c * (i + 1) / n ≤ c * i / n + c / n + 1
  step_high = rw (times_suc c i) (
      sum_high (c * i / n) (c / n) ((c * i + c) / n) n (c * i) c (quotient (c * i) n h).1
        (quotient c n h).1 (quotient (c * i + c) n h).0)

last_place : (c n : ℕ) → 1 ≤ n → c * n / n ≡ c
last_place c n h = grind (arith, quotient (c * n) n h)

-- one behind the other, from `start` to `end`
abbrev pub Follows : ℕ → List Share → ℕ → Type 0
Follows start [] end = start ≡ end
Follows start (s ∷ ss) end = (s.start ≡ start) × Follows (start + s.count) ss end

abbrev pub IsFair : ℕ → ℕ → Share → Type 0
IsFair c n s = (c / n ≤ s.count) × (s.count ≤ c / n + 1)

Follows-le : (start end : ℕ) (ss : List Share) → Follows start ss end → start ≤ end
Follows-le start end [] h = omega (arith, h)
Follows-le start end (s ∷ ss) h = omega (arith, Follows-le (start + s.count) end ss h.1)

total_from-Follows :
    (start end : ℕ) (ss : List Share)
    → end < 2 ^ 31
    → Follows start ss end
    → total_from start ss ≡ end
unfolding total_from
total_from-Follows start end [] small h = h
total_from-Follows start end (s ∷ ss) small h =
    let fits : (start + s.count) % 2 ^ 32 ≡ start + s.count =
      omega (arith, small, Follows-le (start + s.count) end ss h.1) in
    rw fits (total_from-Follows (start + s.count) end ss small h.1)

module _ (c n : ℕ) (h : 1 ≤ n) (n_small : n < 2 ^ 31) (c_small : c < 2 ^ 31) where
  abbrev place : ℕ → ℕ
  place i = c * i / n

  place_le : (i : ℕ) → i ≤ n → place i ≤ c
  place_le i le = elim (leb_cases (place i) c) [
    | inl below ↦ below
    | inr above ↦ absurd (
        grind (
          arith,
          times_mono (c + 1) (place i) n (omega arith),
          times_mono i n c le,
          (quotient (c * i) n h).0,
        ))
  ]

  product_small : (i : ℕ) → i < n → c * (i + 1) % 2 ^ 64 ≡ c * (i + 1)
  product_small i lt = omega (arith, times_mono c (2 ^ 31) (i + 1) (omega arith))

  shares_from-Follows :
      (left i : ℕ)
      → i + left ≡ n
      → (length (shares_from c n left i (place i)) ≡ left)
        × Follows (place i) (shares_from c n left i (place i)) c
        × All (IsFair c n) (shares_from c n left i (place i))
  unfolding shares_from
  shares_from-Follows zero i e =
      let last : i ≡ n = omega arith in (refl, rw last (last_place c n h), tt)
  shares_from-Follows (suc left) i e =
      let (len, follows, fair) = shares_from-Follows left (i + 1) (omega arith) in
      let below = place_le (i + 1) (omega arith) in
      let low = step_low c i n h in
      let high = step_high c i n h in
      let next : place i + (place (i + 1) + 2 ^ 64 - place i) % 2 ^ 64 % 2 ^ 32 ≡ place (i + 1) =
        omega arith in
      rw (product_small i (omega arith))
        (ap suc len, (refl, rw next follows), ((omega arith, omega arith), fair))

  -- With at least one thread, and where the two numbers fit into an `int`, every thread gets a share, the shares
  -- cover the places of `op_latencies` from 0 to `count`, one behind the other and none twice, each has
  -- the quotient or one more, and `total` is `count`.
  pub shares-Follows :
      (length (shares c n) ≡ n)
      × Follows 0 (shares c n) c
      × All (IsFair c n) (shares c n)
      × (total_of (shares c n) ≡ c)
  unfolding shares total_of
  shares-Follows =
      let start : place 0 ≡ 0 = omega (arith, (quotient (c * 0) n h).0) in
      let (len, follows, fair) = rw start at (shares_from-Follows n 0 (omega arith)) in
      (len, follows, fair, total_from-Follows 0 c (shares_from c n n 0 0) c_small follows)

-- `a - b`
abbrev difference : ℕ → ℕ → ℤ
difference a b = if ltb a b then negsuc (b - a - 1) else pos (a - b)

-- `compare` returns the difference of two latencies, and so their order, where it is at least -2^31 and
-- less than 2^31 nanoseconds.
pub compare_latencies-difference :
    (a b : ℕ)
    → a < 2 ^ 63
    → b < 2 ^ 63
    → a < b + 2 ^ 31
    → b ≤ a + 2 ^ 31
    → compare_latencies a b ≡ difference a b
unfolding compare_latencies
compare_latencies-difference a b h k l m = ground arith
