-- ===== src/Microbench/Chain/Bytes.antt =====
-- A pointer that is stored is loaded again.
use Prim.Native.Nat.{bit_and, bit_or}
use cxlkvs.Prelude.{ℕ, zero, suc, ◌+◌, ◌-◌, ◌^◌, ◌*◌, ◌/◌, ◌%◌, ◌<◌, ◌≡◌, ◌∙◌, ap, refl, arith}
use cxlkvs.Microbench.Chain.{store, load}
use cxlkvs.Microbench.Chain.Bits.{and_byte, and_shift, or_shift, or_byte}

-- `n` bytes of zeros behind a number
abbrev shift : ℕ → ℕ → ℕ
shift zero a = a
shift (suc n) a = shift n a * 256

-- and the number without its last `n` bytes
abbrev unshift : ℕ → ℕ → ℕ
unshift zero a = a
unshift (suc n) a = unshift n (a / 256)

-- one byte of a number, in its place
bit_and-shift : (n a : ℕ) → bit_and a (shift n 255) ≡ shift n (unshift n a % 256)
bit_and-shift zero a = and_byte a
bit_and-shift (suc n) a = and_shift a (shift n 255) ∙ ap (λ b. b * 256) (bit_and-shift n (a / 256))

bit_or-shift :
    (n a b : ℕ) → b < 256 → bit_or (shift n (a * 256)) (shift n b) ≡ shift n (a * 256 + b)
bit_or-shift zero a b h = or_byte a b h
bit_or-shift (suc n) a b h =
    or_shift (shift n (a * 256)) (shift n b) ∙ ap (λ c. c * 256) (bit_or-shift n a b h)

shift_suc : (n a : ℕ) → shift n a * 256 ≡ shift n (a * 256)
shift_suc zero a = refl
shift_suc (suc n) a = ap (λ b. b * 256) (shift_suc n a)

-- the next byte behind what is there
next_byte : (n a b : ℕ) → bit_or (shift (suc n) a) (shift n (b % 256)) ≡ shift n (a * 256 + b % 256)
next_byte n a b = rw (shift_suc n a) (bit_or-shift n a (b % 256) (omega arith))

-- the first `n + 1` of the eight bytes
abbrev head_bytes : ℕ → ℕ → ℕ
head_bytes zero v = unshift 7 v % 256
head_bytes (suc n) v = head_bytes n v * 256 + unshift (6 - n) v % 256

load-store_bytes : (v : ℕ) → load (store v) ≡ head_bytes 7 v
unfolding load store
load-store_bytes v =
    rw
      (
        bit_and-shift 7 v,
        bit_and-shift 6 v,
        bit_and-shift 5 v,
        bit_and-shift 4 v,
        bit_and-shift 3 v,
        bit_and-shift 2 v,
        bit_and-shift 1 v,
        bit_and-shift 0 v,
        next_byte 6 (head_bytes 0 v) (unshift 6 v),
        next_byte 5 (head_bytes 1 v) (unshift 5 v),
        next_byte 4 (head_bytes 2 v) (unshift 4 v),
        next_byte 3 (head_bytes 3 v) (unshift 3 v),
        next_byte 2 (head_bytes 4 v) (unshift 2 v),
        next_byte 1 (head_bytes 5 v) (unshift 1 v),
        next_byte 0 (head_bytes 6 v) v,
      )
      refl

-- What is loaded is the number that was stored, for every number of 64 bits: the eight words keep all its bytes.
pub load-store : (v : ℕ) → v < 2 ^ 64 → load (store v) ≡ v
load-store v h = omega (arith, load-store_bytes v)
