-- ===== src/Microbench/Main/Operation.antt =====
-- microbench/src/main.c: the pointers that an operation follows, and the part of the file that it reads or writes.
use Prim.Native.Nat.{bit_or}
use cxlkvs.Prelude.{
  ℕ, zero, suc, ◌+◌, ◌-◌, ◌*◌, ◌/◌, ◌%◌, ◌^◌, ◌≤◌, ◌<◌, ◌≡◌, refl, sym, ◌∙◌, Option, Option-cases,
  inl, inr, Bool-cases, some, arith, ltb, if◌then◌else◌,
}
use cxlkvs.Microbench.Chain.{Item, load, Array, read, ◌>>=◌, follow, create_pointer_chain}
use cxlkvs.Microbench.Chain.Shuffle.{read_inside}
use cxlkvs.Prelude.Divide.{leb_cases, quotient, times_mono}
use cxlkvs.Microbench.Chain.Cycle.{some_injective, IsCycle, create_pointer_chain-IsCycle}

-- `rand` gives the numbers that the calls return, in their order.
module _ (rand : ℕ → ℕ) where
  unfoldable pub init_pointer : ℕ → ℕ
  init_pointer chain_size = bit_or (rand 0 * 2 ^ 31) (rand 1) % chain_size

  -- Pausing, prefetching and yielding do not change the pointer.
  unfoldable pub chase_pointers : ℕ → ℕ → Array Item → Option ℕ
  unfolding init_pointer follow
  chase_pointers num_chases chain_size chain = follow chain num_chases (init_pointer chain_size)

-- `num_chases + fluctuation`, where the number of chases is not negative and below the greatest `int`:
-- `r` is what `rand` returns
unfoldable pub fluctuated : ℕ → ℕ → ℕ
fluctuated num_chases r = if ltb 0 num_chases then num_chases + r % 3 - 1 else num_chases

unfoldable pub io_addr : ℕ → ℕ → ℕ → ℕ
io_addr file_size access_size p = p % (file_size / access_size) * access_size

follow-suc :
    (chain : Array Item) (n p : ℕ)
    → follow chain (suc n) p ≡ (do q ← follow chain n p; x ← read chain q; some (load x))
unfolding follow
follow-suc chain zero p = refl
follow-suc chain (suc n) p = elim (Option-cases (read chain p)) [
  | inl e ↦ rw e
  | inr (x, e) ↦ rw e (follow-suc chain n (load x))
]

module _ (size : ℕ) (chain : Array Item) (len : chain.len ≡ size) (cycle : IsCycle size chain) where
  next_inside : (p : ℕ) → p < size → load (chain.at p) < size
  next_inside p lt =
      let (k, le, e) = cycle.exhausts p lt in
      let step : follow chain (suc k) 0 ≡ some (load (chain.at p)) =
        follow-suc chain k 0 ∙ rw (e, read_inside chain p (omega arith)) in
      elim (Bool-cases (ltb (suc k) size)) [
        | inl more ↦
            let (q, e', below) = cycle.inside (suc k) (ground arith) in
            omega (arith, some_injective (sym step ∙ e'))
        | inr last ↦
            let whole : suc k ≡ size = ground arith in
            let back : follow chain (suc k) 0 ≡ some 0 = rw whole cycle.returns in
            omega (arith, some_injective (sym step ∙ back))
      ]

  follow-inside : (n p : ℕ) → p < size → (q : ℕ) × (follow chain n p ≡ some q) × (q < size)
  unfolding follow
  follow-inside zero p lt = (p, refl, lt)
  follow-inside (suc n) p lt =
      let (q, e, below) = follow-inside n (load (chain.at p)) (next_inside p lt) in
      (q, rw (read_inside chain p (omega arith)) e, below)

io_addr-inside :
    (file_size access_size p : ℕ)
    → 1 ≤ access_size
    → access_size ≤ file_size
    → io_addr file_size access_size p + access_size ≤ file_size
unfolding io_addr
io_addr-inside file_size access_size p h k =
    let parts = file_size / access_size in
    let (low, high) = quotient file_size access_size h in
    let some_part : 1 ≤ parts = elim (leb_cases 1 parts) [
      | inl le ↦ le
      | inr lt ↦ absurd (grind arith)
    ] in
    let below : p % parts < parts = omega arith in
    grind (arith, times_mono (p % parts + 1) parts access_size (omega arith))

io_addr_multiple :
    (file_size access_size p : ℕ)
    → 1 ≤ access_size
    → io_addr file_size access_size p % access_size ≡ 0
unfolding io_addr
io_addr_multiple file_size access_size p h = grind arith

init_pointer_below : (rand : ℕ → ℕ) (size : ℕ) → 1 ≤ size → init_pointer rand size < size
unfolding init_pointer
init_pointer_below rand size h = omega arith

-- Whatever `rand` returns, an operation follows the chain of `create_pointer_chain` without an access
-- outside it, and what it then reads or writes lies within the file, at a multiple of its own size.
module _ (rand : ℕ → ℕ) (rand_max : ℕ) (garbage : ℕ → ℕ) (n : ℕ)
    (small : (n + 2) * 64 < 2 ^ 64) where
  pub chase_pointers-io_addr :
      (rand' : ℕ → ℕ) (r num_chases file_size access_size : ℕ)
      → 1 ≤ access_size
      → access_size ≤ file_size
      → (chain : Array Item) × (create_pointer_chain rand rand_max garbage (n + 2) ≡ some chain)
        × (p : ℕ) × (chase_pointers rand' (fluctuated num_chases r) (n + 2) chain ≡ some p)
        × (p < n + 2)
        × (io_addr file_size access_size p + access_size ≤ file_size)
        × (io_addr file_size access_size p % access_size ≡ 0)
  unfolding chase_pointers
  chase_pointers-io_addr rand' r num_chases file_size access_size h k =
      let (chain, e, len, cycle) = create_pointer_chain-IsCycle n small rand rand_max garbage in
      let start : init_pointer rand' (n + 2) < n + 2 =
        init_pointer_below rand' (n + 2) (omega arith) in
      let (p, e', below) =
        follow-inside (n + 2) chain len cycle (fluctuated num_chases r) (init_pointer rand' (n + 2))
          start in
      (
        chain,
        e,
        p,
        e',
        below,
        io_addr-inside file_size access_size p h k,
        io_addr_multiple file_size access_size p h,
      )
