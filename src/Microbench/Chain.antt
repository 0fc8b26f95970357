-- ===== src/Microbench/Chain.antt =====
-- microbench/src/chain.c: the chain of pointers that the threads follow.
pub mod Bits
pub mod Bytes
pub mod Shuffle
pub mod Links
pub mod Cycle
mod Tests
use Prim.Native.Nat.{bit_and, bit_or}
use cxlkvs.Prelude.{
  ℕ, zero, suc, ◌+◌, ◌-◌, ◌*◌, ◌/◌, ◌%◌, ◌^◌, Option, none, some, ltb, ◌==◌, nat_eq, if◌then◌else◌,
}

-- `struct item_t`: one pointer, a byte of it in each of eight words, which fill a cache line.
pub record Item : Type 0 where
  pub val0 : ℕ
  pub val1 : ℕ
  pub val2 : ℕ
  pub val3 : ℕ
  pub val4 : ℕ
  pub val5 : ℕ
  pub val6 : ℕ
  pub val7 : ℕ

unfoldable pub store : ℕ → Item
store val = record {
  val0 = bit_and val 0xff00000000000000;
  val1 = bit_and val 0x00ff000000000000;
  val2 = bit_and val 0x0000ff0000000000;
  val3 = bit_and val 0x000000ff00000000;
  val4 = bit_and val 0x00000000ff000000;
  val5 = bit_and val 0x0000000000ff0000;
  val6 = bit_and val 0x000000000000ff00;
  val7 = bit_and val 0x00000000000000ff;
}

unfoldable pub load : Item → ℕ
load src =
    bit_or
      (bit_or
        (bit_or (bit_or (bit_or (bit_or (bit_or src.val0 src.val1) src.val2) src.val3) src.val4)
          src.val5)
        src.val6)
      src.val7

-- An array: its length, and its elements. An access outside it is undefined behaviour, here `none`.
pub record Array (Element : Type 0) : Type 0 where
  pub len : ℕ
  pub at : ℕ → Element

module _ {Element : Type 0} where
  abbrev pub set : ℕ → Element → (ℕ → Element) → ℕ → Element
  set i x f k = if k == i then x else f k

  unfoldable pub read : Array Element → ℕ → Option Element
  read a i = if ltb i a.len then some (a.at i) else none

  unfoldable pub write : ℕ → Element → Array Element → Option (Array Element)
  write i x a = if ltb i a.len then some (record a { at = set i x a.at }) else none

-- an access, and what follows it
infixl 5 ◌>>=◌
abbrev pub ◌>>=◌ : {A B : Type 0} → Option A → (A → Option B) → Option B
◌>>=◌ none next = none
◌>>=◌ (some a) next = next a

-- `a - b` and `a * b` on `uint64_t`
abbrev pub sub64 : ℕ → ℕ → ℕ
sub64 a b = (a + 2 ^ 64 - b) % 2 ^ 64

abbrev pub mul64 : ℕ → ℕ → ℕ
mul64 a b = a * b % 2 ^ 64

-- the first loop, for `left` more rounds
unfoldable pub fill : ℕ → ℕ → Array ℕ → Option (Array ℕ)
unfolding write
fill zero i idx = some idx
fill (suc left) i idx = do idx' ← write i (i + 1) idx; fill left (i + 1) idx'

unfoldable pub swap : ℕ → ℕ → Array ℕ → Option (Array ℕ)
unfolding read write
swap i j idx = do tmp ← read idx j; x ← read idx i; idx' ← write j x idx; write i tmp idx'

-- the third loop, for `left` more rounds
unfoldable pub link : ℕ → ℕ → Array ℕ → Array Item → Option (Array Item)
unfolding read write store
link zero i idx chain = some chain
link (suc left) i idx chain = do
  p ← read idx (sub64 i 1)
  next ← read idx i
  chain' ← write p (store next) chain
  link left (i + 1) idx chain'

-- `rand` gives the number that each call returns, and `rand_max` is `RAND_MAX`.
module _ (rand : ℕ → ℕ) (rand_max : ℕ) where
  -- the number `r`, and how many calls there have been
  unfoldable pub draw : ℕ → ℕ → ℕ × ℕ
  draw i calls =
      if ltb (rand_max + 1) i
      then ((rand calls + mul64 (rand (calls + 1)) (rand_max + 1)) % 2 ^ 64, calls + 2)
      else (rand calls, calls + 1)

  -- the second loop, from `i` down to 1
  unfoldable pub shuffle : ℕ → ℕ → Array ℕ → Option (Array ℕ)
  unfolding draw swap
  shuffle zero calls idx = some idx
  shuffle (suc i) calls idx = do
    let (r, calls') = draw (suc i) calls
    idx' ← swap (suc i) (r % suc i) idx
    shuffle i calls' idx'

  -- the indices, in memory that `malloc` has left with `garbage` in it
  unfoldable pub make_indices : (ℕ → ℕ) → ℕ → Option (Array ℕ)
  unfolding fill shuffle
  make_indices garbage size = do
    idx ← fill (sub64 size 1) 0 (record { len = mul64 (sub64 size 1) 8 / 8; at = garbage })
    shuffle (sub64 size 2) 0 idx

-- the chain of the indices, in memory that `mmap` gives, full of zeros
unfoldable pub make_chain : Array ℕ → ℕ → Option (Array Item)
unfolding link
make_chain idx size = do
  first ← read idx 0
  chain0 ← write 0 (store first) (record { len = mul64 size 64 / 64; at = λ p. store 0 })
  chain ← link (sub64 size 1 - 1) 1 idx chain0
  last ← read idx (sub64 size 2)
  write last (store 0) chain

-- where the allocations do not fail
unfoldable pub create_pointer_chain : (ℕ → ℕ) → ℕ → (ℕ → ℕ) → ℕ → Option (Array Item)
unfolding make_indices make_chain
create_pointer_chain rand rand_max garbage size = do
  idx ← make_indices rand rand_max garbage size
  make_chain idx size

-- `p = load(chain[p])`, `n` times
unfoldable pub follow : Array Item → ℕ → ℕ → Option ℕ
unfolding read load
follow chain zero p = some p
follow chain (suc n) p = do x ← read chain p; follow chain n (load x)
