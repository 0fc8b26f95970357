-- ===== src/Prelude/Divide.antt =====
-- Products and quotients of variables.
use Prim.Native.Nat.{ℕ, ◌+◌, ◌*◌, ◌/◌, ◌≤◌, ◌<◌}
use mathlib.Core.Logic.{◌⊎◌, inl, inr}
use native.Mathlib.Omega.{arith}
use cxlkvs.Prelude.Tests.{ltb, Bool-cases}

pub leb_cases : (a b : ℕ) → (a ≤ b) ⊎ (b < a)
leb_cases a b = elim (Bool-cases (ltb b a)) [
  | inl e ↦ inr (ground arith)
  | inr e ↦ inl (ground arith)
]

-- `a / n` is the number of times that `n` goes into `a`
pub quotient : (a n : ℕ) → 1 ≤ n → (a / n * n ≤ a) × (a < a / n * n + n)
quotient a n h = grind arith

pub times_mono : (a b n : ℕ) → a ≤ b → a * n ≤ b * n
times_mono a b n h = grind arith
