-- ===== src/Microbench/Parser/Picks.antt =====
-- Which runs `get_perf` takes.
use cxlkvs.Prelude.{
  In, sym, none, some, ◌≡◌, refl, ◌⊎◌, inl, inr, Bool, true, false, not, ◌&&◌, String, List, [],
  ◌∷◌, All, arith, ◌==◌, string_eq, Bool-cases, Option-cases,
}
use cxlkvs.Py.Num.{Num}
use cxlkvs.Py.Result.{ok, Result-cases}
use cxlkvs.Py.Dict
use cxlkvs.Py.Dict.{Dict, index}
use cxlkvs.Microbench.Batch.Output.{Run, Value}
use cxlkvs.Microbench.Parser.{
  cast_eq, Cast, MicrobenchParser, cast, to_float, contains_key, differs, is_match, perf_of,
  get_perf, is_perf,
}

all_tests : (a b c : Bool) → not a && not b && c ≡ true → (a ≡ false) × (b ≡ false) × (c ≡ true)
all_tests a b c h = ground arith

some_test : (a b c : Bool) → not a && not b && c ≡ false → (a ≡ true) ⊎ ((b ≡ true) ⊎ (c ≡ false))
some_test true b c h = inl refl
some_test false true c h = inr (inl refl)
some_test false false c h = inr (inr h)

other_key : (k key : String) → (k == key) ≡ false → ¬ (k ≡ key)
other_key k key h e = cc ((string_eq.equal_iff k key).1 e, h)

contains_key-In : (nm : Num) (k : String) (ks : List String) → contains_key nm k ks ≡ true → In k ks
unfolding contains_key
contains_key-In nm k [] h = cc h
contains_key-In nm k (j ∷ js) h = elim (Bool-cases (j == k)) [
  | inl e ↦ inl (sym ((string_eq.equal_iff j k).0 e))
  | inr e ↦ inr (contains_key-In nm k js (rw e at h))
]

contains_key-not-In :
    (nm : Num) (k : String) (ks : List String) → contains_key nm k ks ≡ false → ¬ In k ks
unfolding contains_key
contains_key-not-In nm k [] h there = absurd there
contains_key-not-In nm k (j ∷ js) h there = elim (Bool-cases (j == k)) [
  | inl e ↦ cc (rw e at h)
  | inr e ↦ elim there [
    | inl same ↦ cc ((string_eq.equal_iff j k).1 (sym same), e)
    | inr later ↦ contains_key-not-In nm k js (rw e at h) later
  ]
]

module _ (nm : Num) (spec : Dict String (Cast nm.F)) (perf_key : String)
    (var_key : List String) where
  -- an item that is looked at, for which another value is asked for
  abbrev pub IsOther : String × Value → Type 0
  IsOther kv =
      (v : Cast nm.F) × (cast nm kv.0 kv.1 ≡ ok v)
      × (¬ (kv.0 ≡ perf_key))
      × (¬ In kv.0 var_key)
      × ((w : Cast nm.F) × (Dict.get kv.0 spec ≡ some w) × (cast_eq nm w v ≡ false))

  -- an item that is not looked at, for which nothing is asked for, or that has the value asked for
  abbrev pub Agrees : String × Value → Type 0
  Agrees kv =
      (v : Cast nm.F) × (cast nm kv.0 kv.1 ≡ ok v)
      × ((kv.0 ≡ perf_key)
          ⊎ (In kv.0 var_key
              ⊎ ((Dict.get kv.0 spec ≡ none)
                  ⊎ ((w : Cast nm.F) × (Dict.get kv.0 spec ≡ some w) × (cast_eq nm w v ≡ true)))))

  other_asked :
      (k : String) (v : Cast nm.F)
      → differs nm spec k v ≡ true
      → (w : Cast nm.F) × (Dict.get k spec ≡ some w) × (cast_eq nm w v ≡ false)
  unfolding differs
  other_asked k v h = elim (Option-cases (Dict.get k spec)) [
    | inl e ↦ cc (rw (differs, e) at h)
    | inr (w, e) ↦ elim (Bool-cases (cast_eq nm w v)) [
      | inl f ↦ cc (rw (differs, e, f) at h)
      | inr f ↦ (w, e, f)
    ]
  ]

  none_or_same :
      (k : String) (v : Cast nm.F)
      → differs nm spec k v ≡ false
      → (Dict.get k spec ≡ none)
        ⊎ ((w : Cast nm.F) × (Dict.get k spec ≡ some w) × (cast_eq nm w v ≡ true))
  unfolding differs
  none_or_same k v h = elim (Option-cases (Dict.get k spec)) [
    | inl e ↦ inl e
    | inr (w, e) ↦ elim (Bool-cases (cast_eq nm w v)) [
      | inl f ↦ inr (w, e, f)
      | inr f ↦ cc (rw (differs, e, f) at h)
    ]
  ]

  agreement :
      (k : String) (v : Cast nm.F)
      → not (k == perf_key) && not (contains_key nm k var_key) && differs nm spec k v ≡ false
      → (k ≡ perf_key)
        ⊎ (In k var_key
            ⊎ ((Dict.get k spec ≡ none)
                ⊎ ((w : Cast nm.F) × (Dict.get k spec ≡ some w) × (cast_eq nm w v ≡ true))))
  agreement k v h =
      elim (some_test (k == perf_key) (contains_key nm k var_key) (differs nm spec k v) h) [
        | inl e ↦ inl ((string_eq.equal_iff k perf_key).0 e)
        | inr (inl e) ↦ inr (inl (contains_key-In nm k var_key e))
        | inr (inr e) ↦ inr (inr (none_or_same k v e))
      ]

  abbrev pub HasOther : Run → Type 0
  HasOther [] = ⊥
  HasOther (kv ∷ items) = IsOther kv ⊎ HasOther items

  -- `xs` are the figures of the runs that agree in all items, in order; each other run has an item
  -- that does not.
  abbrev pub Picks : List Run → List nm.F → Type 0
  Picks [] [] = Unit
  Picks [] (x ∷ xs) = ⊥
  Picks (test ∷ tests) [] = HasOther test × Picks tests []
  Picks (test ∷ tests) (x ∷ xs) =
      (All Agrees test
        × ((value : Value) × (index perf_key test ≡ ok value) × (to_float nm value ≡ ok x))
        × Picks tests xs)
      ⊎ (HasOther test × Picks tests (x ∷ xs))

  abbrev Decided : Run → Bool → Type 0
  Decided test true = All Agrees test
  Decided test false = HasOther test

  Decided-cons :
      (k : String) (value : Value) (items : Run) (b : Bool)
      → Agrees (k, value)
      → Decided items b
      → Decided ((k, value) ∷ items) b
  Decided-cons k value items true h d = (h, d)
  Decided-cons k value items false h d = inr d

  is_match-Decided :
      (test : Run) (b : Bool) → is_match nm spec perf_key var_key test ≡ ok b → Decided test b
  unfolding is_match
  is_match-Decided [] b e = let same : true ≡ b = cc e in rw (← same) tt
  is_match-Decided ((k, value) ∷ items) b e = elim (Result-cases (cast nm k value)) [
    | inr (x, f) ↦ cc (rw f at e)
    | inl (v, f) ↦
        elim (Bool-cases
          (not (k == perf_key) && not (contains_key nm k var_key) && differs nm spec k v)) [
            | inl g ↦
                let same : false ≡ b = cc (rw (f, g) at e) in
                let (a, c, d) =
                  all_tests (k == perf_key) (contains_key nm k var_key) (differs nm spec k v) g in
                rw (← same) (
                  inl (
                    v,
                    f,
                    other_key k perf_key a,
                    contains_key-not-In nm k var_key c,
                    other_asked k v d,
                  ))
            | inr g ↦
                Decided-cons k value items b (v, f, agreement k v g)
                  (is_match-Decided items b (rw (f, g) at e))
          ]
  ]

  Picks-skip :
      (test : Run) (tests : List Run) (xs : List nm.F)
      → HasOther test
      → Picks tests xs
      → Picks (test ∷ tests) xs
  Picks-skip test tests [] h p = (h, p)
  Picks-skip test tests (x ∷ xs) h p = inr (h, p)

  perf_of-Picks :
      (tests : List Run) (xs : List nm.F)
      → perf_of nm spec perf_key var_key tests ≡ ok xs
      → Picks tests xs
  unfolding perf_of
  perf_of-Picks [] xs e = let same : [] ≡ xs = cc e in rw (← same) tt
  perf_of-Picks (test ∷ tests) xs e = elim (Result-cases (is_match nm spec perf_key var_key test)) [
    | inr (x, f) ↦ cc (rw f at e)
    | inl (b, f) ↦ elim (Bool-cases b) [
      | inr g ↦
          let miss : is_match nm spec perf_key var_key test ≡ ok false = rw g at f in
          Picks-skip test tests xs (is_match-Decided test false miss)
            (perf_of-Picks tests xs (rw miss at e))
      | inl g ↦
          let hit : is_match nm spec perf_key var_key test ≡ ok true = rw g at f in
          elim (Result-cases (index perf_key test)) [
            | inr (x, h) ↦ cc (rw (hit, h) at e)
            | inl (value, h) ↦ elim (Result-cases (to_float nm value)) [
              | inr (x, q) ↦ cc (rw (hit, h, q) at e)
              | inl (x, q) ↦ elim (Result-cases (perf_of nm spec perf_key var_key tests)) [
                | inr (y, t) ↦ cc (rw (hit, h, q, t) at e)
                | inl (ys, t) ↦
                    let same : x ∷ ys ≡ xs = cc (rw (hit, h, q, t) at e) in
                    rw (← same) (
                      inl (is_match-Decided test true hit, (value, h, q), perf_of-Picks tests ys t))
              ]
            ]
          ]
    ]
  ]

  -- What `get_perf` returns are the figures, under a performance key, of the runs each item of which
  -- has that key or a variable one, or a key for which no value is asked for, or the value asked for,
  -- in the order of the runs; every other run has an item, with none of these keys, for which another
  -- value is asked for.
  pub get_perf-Picks :
      (p : MicrobenchParser nm) (xs : List nm.F)
      → get_perf nm p spec perf_key var_key ≡ ok xs
      → (is_perf perf_key ≡ true) × Picks p.tests xs
  unfolding get_perf
  get_perf-Picks p xs e = elim (Bool-cases (is_perf perf_key)) [
    | inl f ↦ (f, perf_of-Picks p.tests xs (rw f at e))
    | inr f ↦ cc (rw f at e)
  ]
