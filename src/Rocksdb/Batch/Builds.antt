-- ===== src/Rocksdb/Batch/Builds.antt =====
-- db_bench is built for one number of cores: which build each run of the script gets.
use cxlkvs.Prelude.{
  ℕ, ◌*◌, ◌≡◌, refl, ◌∙◌, Option, none, some, List, [], ◌∷◌, ◌++◌, nat_eq, ◌==◌, Bool-cases, inl,
  inr, Option-cases,
}
use cxlkvs.Py.Text.{Text, codes}
use cxlkvs.Py.Result.{ok}
use cxlkvs.Rocksdb.Batch.{
  Step, change_num_cores, run_benchmark, for_each, cxl_job, memory_sweep, read_only, last_value,
  read_write_mix, steps,
}

-- From the build `built`, each run has the build for its own number of cores.
abbrev pub IsBuilt : Option ℕ → List Step → Type 0
IsBuilt built [] = Unit
IsBuilt built (change_num_cores n ∷ ss) = IsBuilt (some n) ss
IsBuilt built (run_benchmark j ∷ ss) = (built ≡ some j.num_cores) × IsBuilt built ss

-- the build behind the steps
abbrev after : Option ℕ → List Step → Option ℕ
after built [] = built
after built (change_num_cores n ∷ ss) = after (some n) ss
after built (run_benchmark j ∷ ss) = after built ss

after-append : (b : Option ℕ) (xs ys : List Step) → after b (xs ++ ys) ≡ after (after b xs) ys
after-append b [] ys = refl
after-append b (change_num_cores n ∷ xs) ys = after-append (some n) xs ys
after-append b (run_benchmark j ∷ xs) ys = after-append b xs ys

append-IsBuilt :
    (b : Option ℕ) (xs ys : List Step)
    → IsBuilt b xs
    → IsBuilt (after b xs) ys
    → IsBuilt b (xs ++ ys)
append-IsBuilt b [] ys h k = k
append-IsBuilt b (change_num_cores n ∷ xs) ys h k = append-IsBuilt (some n) xs ys h k
append-IsBuilt b (run_benchmark j ∷ xs) ys h k = (h.0, append-IsBuilt b xs ys h.1 k)

-- steps that keep the build, and have it
abbrev Keeps : ℕ → List Step → Type 0
Keeps c ss = IsBuilt (some c) ss × (after (some c) ss ≡ some c)

follow :
    (c : ℕ) (xs ys : List Step) (b : Option ℕ)
    → Keeps c xs
    → IsBuilt (some c) ys × (after (some c) ys ≡ b)
    → IsBuilt (some c) (xs ++ ys) × (after (some c) (xs ++ ys) ≡ b)
follow c xs ys b h k =
    (append-IsBuilt (some c) xs ys h.0 (rw h.1 (k.0)), after-append (some c) xs ys ∙ rw h.1 (k.1))

append-Keeps : (c : ℕ) (xs ys : List Step) → Keeps c xs → Keeps c ys → Keeps c (xs ++ ys)
append-Keeps c xs ys = follow c xs ys (some c)

for_each-Keeps :
    {A : Type 0} (c : ℕ) (xs : List A) (body : A → List Step)
    → ((x : A) → Keeps c (body x))
    → Keeps c (for_each xs body)
unfolding for_each
for_each-Keeps c [] body h = (tt, refl)
for_each-Keeps c (x ∷ xs) body h =
    append-Keeps c (body x) (for_each xs body) (h x) (for_each-Keeps c xs body h)

memory_sweep-Keeps : (ls : List ℕ) (w : Text) (c t : ℕ) → Keeps c (memory_sweep ls w c t)
unfolding memory_sweep
memory_sweep-Keeps ls w c t =
    let rest = for_each-Keeps c ls (λ l. cxl_job w c t l ∷ []) (λ l. ((refl, tt), refl)) in
    ((refl, rest.0), rest.1)

module _ (ts ls : List ℕ) where
  abbrev runs_on : ℕ → List Step
  runs_on c = for_each ts λ t. memory_sweep ls (codes "readrandom") c (t * c)

  runs_on-Keeps : (c : ℕ) → Keeps c (runs_on c)
  runs_on-Keeps c =
      for_each-Keeps c ts (λ t. memory_sweep ls (codes "readrandom") c (t * c))
        (λ t. memory_sweep-Keeps ls (codes "readrandom") c (t * c))

  read_only-IsBuilt :
      (cs : List ℕ) (b : Option ℕ) (c : ℕ)
      → last_value cs ≡ some c
      → IsBuilt b (read_only cs ts ls) × (after b (read_only cs ts ls) ≡ some c)
  unfolding read_only last_value for_each
  read_only-IsBuilt [] b c e = cc e
  read_only-IsBuilt (x ∷ []) b c e = follow x (runs_on x) [] (some c) (runs_on-Keeps x) (tt, e)
  read_only-IsBuilt (x ∷ y ∷ cs) b c e =
      follow x (runs_on x) (read_only (y ∷ cs) ts ls) (some c) (runs_on-Keeps x)
        (read_only-IsBuilt (y ∷ cs) (some x) c e)

  mix-Keeps :
      (n : ℕ)
      → Keeps n
          (for_each (1024 ∷ 2048 ∷ []) λ t. memory_sweep ls (codes "readrandomwriterandom") n t)
  mix-Keeps n =
      for_each-Keeps n (1024 ∷ 2048 ∷ []) (memory_sweep ls (codes "readrandomwriterandom") n)
        (memory_sweep-Keeps ls (codes "readrandomwriterandom") n)

  read_write_mix-IsBuilt : (c : ℕ) → IsBuilt (some c) (read_write_mix c ls)
  unfolding read_write_mix
  read_write_mix-IsBuilt c = elim (Bool-cases (c == 16)) [
    | inl e ↦ rw (read_write_mix, e) ((mix-Keeps c).0)
    | inr e ↦ rw (read_write_mix, e) ((mix-Keeps 16).0)
  ]

  -- Whatever the lists of the script, where it does not raise: each run is made with the build for its
  -- own number of cores, in the second part too, where the number is what the first loop has left.
  pub steps-IsBuilt : (cs : List ℕ) (ss : List Step) → steps cs ts ls ≡ ok ss → IsBuilt none ss
  unfolding steps
  steps-IsBuilt cs ss e = elim (Option-cases (last_value cs)) [
    | inl f ↦ cc (rw (steps, f) at e)
    | inr (c, f) ↦
        let first = read_only-IsBuilt cs none c f in
        let all : read_only cs ts ls ++ read_write_mix c ls ≡ ss = cc (rw (steps, f) at e) in
        rw (← all) (
          append-IsBuilt none (read_only cs ts ls) (read_write_mix c ls) first.0
            (rw first.1 (read_write_mix-IsBuilt c)))
  ]
