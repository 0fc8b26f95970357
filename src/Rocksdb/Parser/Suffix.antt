-- ===== src/Rocksdb/Parser/Suffix.antt =====
-- What stands behind the workload in the name of a run's directory: where the patterns match in it, and
-- where they do not.
use cxlkvs.Prelude.{
  ℕ, ◌≡◌, ◌≢◌, refl, Bool, true, false, not, ◌&&◌, List, [], ◌∷◌, ◌++◌, All, arith, ◌==◌, nat_eq,
}
use cxlkvs.Py.Text.{Text, codes, is_digit}
use cxlkvs.Py.Decimal.{decimal, decimal-IsDigits, decimal-cons, All-append}
use cxlkvs.Py.Regex.{Pattern, one, is_char, lit, number, not_space, some_of, group, run, leave}
use cxlkvs.Py.Regex.Backtrack.{
  RefusesAll-one, RefusesAll-leave, Refuses, RefusesAll, RefusesAll-append, Refuses-some_of,
}
use cxlkvs.Rocksdb.Batch.{Job, cores_and_threads, memory_suffix}

-- a letter or another character of a workload's name
abbrev pub is_name_char : ℕ → Bool
is_name_char c = not_space c && not (c == b'_')

abbrev pub IsName : Text → Type 0
IsName t = (t ≢ []) × All (λ c. is_name_char c ≡ true) t

pub name_char_not_space : (c : ℕ) → is_name_char c ≡ true → not_space c ≡ true
name_char_not_space c h = ground arith

pub digit_not_space : (c : ℕ) → is_digit c ≡ true → not_space c ≡ true
digit_not_space c h = ground arith

pub digit_not_underscore : (c : ℕ) → is_digit c ≡ true → is_char b'_' c ≡ false
digit_not_underscore c h = ground arith

pub name_char_not_underscore : (c : ℕ) → is_name_char c ≡ true → is_char b'_' c ≡ false
name_char_not_underscore c h = ground arith

pub All-map {ℓ} :
    {A : Type ℓ} {P Q : A → Type 0} (f : (a : A) → P a → Q a) (xs : List A) → All P xs → All Q xs
All-map f [] h = tt
All-map f (x ∷ xs) h = (f x h.0, All-map f xs h.1)

pub digits_not_underscore : (n : ℕ) → All (λ c. is_char b'_' c ≡ false) (decimal n)
digits_not_underscore n = All-map digit_not_underscore (decimal n) (decimal-IsDigits n)

-- what stands behind the workload
abbrev pub suffix : Job → Text
suffix j = cores_and_threads j.num_cores j.num_threads (memory_suffix j.use_cxl j.latency)

pub memory_suffix-not_space :
    (use_cxl : Bool) (latency : ℕ) → All (λ c. not_space c ≡ true) (memory_suffix use_cxl latency)
unfolding memory_suffix
memory_suffix-not_space true latency =
    (refl, (refl, (refl, (refl, All-map digit_not_space _ (decimal-IsDigits latency)))))
memory_suffix-not_space false latency = (refl, (refl, (refl, (refl, (refl, tt)))))

pub digits_then :
    (n : ℕ) (rest : Text)
    → All (λ c. not_space c ≡ true) rest
    → All (λ c. not_space c ≡ true) (decimal n ++ rest)
digits_then n rest h =
    All-append _ (decimal n) rest (All-map digit_not_space _ (decimal-IsDigits n)) h

pub suffix-not_space : (j : Job) → All (λ c. not_space c ≡ true) (suffix j)
unfolding cores_and_threads
suffix-not_space j =
    All-append _ (codes "_core") _ (refl, (refl, (refl, (refl, (refl, tt)))))
      (digits_then j.num_cores _ (
        All-append _ (codes "_threads") _
          (refl, (refl, (refl, (refl, (refl, (refl, (refl, (refl, tt))))))))
          (digits_then j.num_threads _ (memory_suffix-not_space j.use_cxl j.latency))))

abbrev pub NoUnderscore : Text → Type 0
NoUnderscore = All (λ c. is_char b'_' c ≡ false)

-- what stands behind the last underscore
unfoldable pub memory_tail : Bool → ℕ → Text
memory_tail true latency = codes "cxl" ++ decimal latency
memory_tail false latency = codes "dram"

pub memory_tail-NoUnderscore : (use_cxl : Bool) (n : ℕ) → NoUnderscore (memory_tail use_cxl n)
unfolding memory_tail
memory_tail-NoUnderscore true n = (refl, (refl, (refl, digits_not_underscore n)))
memory_tail-NoUnderscore false n = (refl, (refl, (refl, (refl, tt))))

pub memory_suffix-memory_tail :
    (use_cxl : Bool) (n : ℕ) → memory_suffix use_cxl n ≡ b'_' ∷ memory_tail use_cxl n
unfolding memory_suffix memory_tail
memory_suffix-memory_tail true n = refl
memory_suffix-memory_tail false n = refl

-- `_` and a pattern behind it
module _ (ps : Pattern) where
  abbrev pub under : Pattern
  under = one (is_char b'_') ∷ ps

  pub over : (xs s : Text) → NoUnderscore xs → RefusesAll under s → RefusesAll under (xs ++ s)
  over = RefusesAll-append (is_char b'_') ps

-- A class behind an underscore, over characters that it takes, and then `_` refused.
pub class_Refuses :
    (q : ℕ → Bool) (ps : Pattern) (c : ℕ) (t rest : Text)
    → NoUnderscore (c ∷ t)
    → RefusesAll (under ps) rest
    → Refuses (group (some_of q) ++ under ps) (c ∷ t ++ rest)
unfolding run
class_Refuses q ps c t rest h k gs cur =
    Refuses-some_of q (leave ∷ under ps) (c ∷ t ++ rest)
      (RefusesAll-leave (under ps) (t ++ rest) (over ps t rest h.1 k)) gs []

pub number-Refuses :
    (ps : Pattern) (n : ℕ) (rest : Text)
    → RefusesAll (under ps) rest
    → Refuses (number ++ under ps) (decimal n ++ rest)
number-Refuses ps n rest k =
    let (d, t, e) = decimal-cons n in
    rw e (class_Refuses is_digit ps d t rest (rw e at (digits_not_underscore n)) k)

abbrev pub core_then : Pattern → Pattern
core_then ps = lit "_core" ++ (number ++ (lit "_threads" ++ (number ++ ps)))

pub tail_all :
    (qs : Pattern) (use_cxl : Bool) (n : ℕ) → RefusesAll (under qs) (memory_tail use_cxl n)
tail_all qs use_cxl n =
    RefusesAll-one (is_char b'_') qs (memory_tail use_cxl n) (memory_tail-NoUnderscore use_cxl n)

pub memory_core :
    (qs : Pattern) (use_cxl : Bool) (n : ℕ)
    → RefusesAll (lit "_core" ++ qs) (memory_suffix use_cxl n)
unfolding run memory_suffix memory_tail
memory_core qs true n = (λ gs cur. refl, tail_all (lit "core" ++ qs) true n)
memory_core qs false n = (λ gs cur. refl, tail_all (lit "core" ++ qs) false n)

pub memory_threads :
    (qs : Pattern) (use_cxl : Bool) (n : ℕ)
    → RefusesAll (lit "_threads" ++ qs) (memory_suffix use_cxl n)
unfolding run memory_suffix memory_tail
memory_threads qs true n = (λ gs cur. refl, tail_all (lit "threads" ++ qs) true n)
memory_threads qs false n = (λ gs cur. refl, tail_all (lit "threads" ++ qs) false n)

pub memory_dram : (n : ℕ) → RefusesAll (lit "_dram") (memory_suffix true n)
unfolding run memory_suffix memory_tail
memory_dram n = (λ gs cur. refl, tail_all (lit "dram") true n)

pub memory_cxl : (n : ℕ) → RefusesAll (lit "_cxl" ++ number) (memory_suffix false n)
unfolding run memory_suffix memory_tail
memory_cxl n = (λ gs cur. refl, tail_all (lit "cxl" ++ number) false n)

pub core_NoUnderscore : NoUnderscore (codes "core")
core_NoUnderscore = (refl, (refl, (refl, (refl, tt))))

pub threads_NoUnderscore : NoUnderscore (codes "threads")
threads_NoUnderscore = (refl, (refl, (refl, (refl, (refl, (refl, (refl, tt)))))))
