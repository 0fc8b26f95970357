-- ===== src/Segments/Blocks.antt =====
-- What the slices are: each header line with the lines up to the next one.
use mathlib.Core.Path.{ap₂}
use mathlib.Core.List.{flatten}
use cxlkvs.Prelude.{
  ℕ, suc, ◌+◌, ◌-◌, ◌≡◌, refl, ap, ◌∙◌, Bool, true, false, List, [], ◌∷◌, ◌++◌, length, take, drop,
  All, length-append, append_assoc, if◌then◌else◌, inl, inr, Bool-cases, arith,
}
use cxlkvs.Segments.{indices_from, line_indices, slice, slices}

module _ {ℓ} {A : Type ℓ} where
  -- the lines before the next header
  unfoldable pub before : (A → Bool) → List A → List A
  before header [] = []
  before header (line ∷ lines) =
      let rest = before header lines in if header line then [] else line ∷ rest

  -- the lines from the first header on
  unfoldable pub from_header : (A → Bool) → List A → List A
  from_header header [] = []
  from_header header (line ∷ lines) =
      let rest = from_header header lines in if header line then line ∷ lines else rest

  -- one block for each header line
  unfoldable pub blocks : (A → Bool) → List A → List (List A)
  unfolding before
  blocks header [] = []
  blocks header (line ∷ lines) =
      let rest = blocks header lines in
      if header line then (line ∷ before header lines) ∷ rest else rest

module _ {ℓ} {A : Type ℓ} where
  drop-append : (xs ys : List A) → drop (length xs) (xs ++ ys) ≡ ys
  drop-append [] ys = refl
  drop-append (x ∷ xs) ys = drop-append xs ys

  take-before :
      (header : A → Bool) (lines : List A)
      → take (length (before header lines)) lines ≡ before header lines
  unfolding before
  take-before header [] = refl
  take-before header (line ∷ lines) = elim (Bool-cases (header line)) [
    | inl found ↦ rw found
    | inr other ↦ rw other (ap (◌∷◌ line) (take-before header lines))
  ]

  -- the end of the block that begins before `lines` is the next index
  next_index :
      (header : A → Bool) (lines : List A) (j end : ℕ)
      → end ≡ j + length lines
      → (rest : List ℕ) × (indices_from header j lines ++ end ∷ []
          ≡ (j + length (before header lines)) ∷ rest)
  unfolding indices_from before
  next_index header [] j end h = ([], ap (λ n. n ∷ []) (omega arith))
  next_index header (line ∷ lines) j end h = elim (Bool-cases (header line)) [
    | inl found ↦ rw found (
      indices_from header (j + 1) lines ++ end ∷ [],
      ap (λ n. n ∷ (indices_from header (j + 1) lines ++ end ∷ [])) (omega arith),
    )
    | inr other ↦
        let (rest, e) = next_index header lines (j + 1) end (omega arith) in
        rw other (rest, e ∙ ap (λ n. n ∷ rest) (omega arith))
  ]

  slices-cons :
      (i k : ℕ) (is rest : List ℕ) (lines : List A)
      → is ≡ k ∷ rest
      → slices (i ∷ is) lines ≡ slice i k lines ∷ slices is lines
  unfolding slices
  slices-cons i k is rest lines e = rw e

  slice_block :
      (header : A → Bool) (pre : List A) (line : A) (lines : List A) (i k : ℕ)
      → i ≡ length pre
      → k ≡ i + 1 + length (before header lines)
      → slice i k (pre ++ line ∷ lines) ≡ line ∷ before header lines
  slice_block header pre line lines i k h e =
      let gap : k - i ≡ suc (length (before header lines)) = omega arith in
      rw (gap, h, drop-append) (ap (◌∷◌ line) (take-before header lines))

  slices-blocks_from :
      (header : A → Bool) (lines pre : List A) (i end : ℕ)
      → i ≡ length pre
      → end ≡ i + length lines
      → slices (indices_from header i lines ++ end ∷ []) (pre ++ lines) ≡ blocks header lines
  unfolding slices indices_from blocks
  slices-blocks_from header [] pre i end h e = refl
  slices-blocks_from header (line ∷ lines) pre i end h e =
      let later : slices (indices_from header (i + 1) lines ++ end ∷ []) (pre ++ line ∷ lines)
          ≡ blocks header lines =
        rw (append_assoc pre (line ∷ []) lines) at (
          slices-blocks_from header lines (pre ++ line ∷ []) (i + 1) end
            (omega (arith, length-append pre (line ∷ []))) (omega arith)) in
      elim (Bool-cases (header line)) [
        | inl found ↦
            let (rest, next) = next_index header lines (i + 1) end (omega arith) in
            rw found (
              slices-cons i _ _ rest (pre ++ line ∷ lines) next
              ∙ ap₂ ◌∷◌ (slice_block header pre line lines i _ h refl) later)
        | inr other ↦ rw other later
      ]

  -- The slices between the indices are the blocks.
  pub slices-line_indices :
      (header : A → Bool) (lines : List A)
      → slices (line_indices header lines) lines ≡ blocks header lines
  unfolding line_indices
  slices-line_indices header lines =
      slices-blocks_from header lines [] 0 (length lines) refl (omega arith)

  before-from_header :
      (header : A → Bool) (lines : List A) → before header lines ++ from_header header lines ≡ lines
  unfolding before from_header
  before-from_header header [] = refl
  before-from_header header (line ∷ lines) = elim (Bool-cases (header line)) [
    | inl found ↦ rw found
    | inr other ↦ rw other (ap (◌∷◌ line) (before-from_header header lines))
  ]

  -- Nothing from the first header on is lost, doubled or moved.
  pub flatten-blocks :
      (header : A → Bool) (lines : List A)
      → flatten (blocks header lines) ≡ from_header header lines
  unfolding blocks from_header flatten
  flatten-blocks header [] = refl
  flatten-blocks header (line ∷ lines) = elim (Bool-cases (header line)) [
    | inl found ↦
        rw (found, flatten-blocks header lines) (ap (◌∷◌ line) (before-from_header header lines))
    | inr other ↦ rw other (flatten-blocks header lines)
  ]

  before-plain :
      (header : A → Bool) (lines : List A) → All (λ l. header l ≡ false) (before header lines)
  unfolding before
  before-plain header [] = tt
  before-plain header (line ∷ lines) = elim (Bool-cases (header line)) [
    | inl found ↦ rw found tt
    | inr other ↦ rw other (other, before-plain header lines)
  ]

  -- A block is one header line with lines that are no headers.
  abbrev pub IsBlock : (A → Bool) → List A → Type 0
  IsBlock header [] = ⊥
  IsBlock header (line ∷ lines) = (header line ≡ true) × All (λ l. header l ≡ false) lines

  pub blocks-IsBlock :
      (header : A → Bool) (lines : List A) → All (IsBlock header) (blocks header lines)
  unfolding blocks
  blocks-IsBlock header [] = tt
  blocks-IsBlock header (line ∷ lines) = elim (Bool-cases (header line)) [
    | inl found ↦ rw found ((found, before-plain header lines), blocks-IsBlock header lines)
    | inr other ↦ rw other (blocks-IsBlock header lines)
  ]
