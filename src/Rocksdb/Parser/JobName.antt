-- ===== src/Rocksdb/Parser/JobName.antt =====
-- The names that rocksdb/batch.py gives to the log directories, read by `_parse`.
use cxlkvs.Prelude.{
  append-nil, ap, Bool-cases, inl, inr, ℕ, ◌≡◌, ◌∙◌, refl, Bool, true, false, Option, none, some,
  [], ◌∷◌, ◌++◌, All, ◌==◌, nat_eq, if◌then◌else◌,
}
use cxlkvs.Py.Text.{Text, codes, is_digit}
use cxlkvs.Py.Result.{ok, ◌>>=◌}
use cxlkvs.Py.Decimal.{decimal, int_digits-decimal, All-append}
use cxlkvs.Py.Regex.{Pattern, Groups, lit, number, not_space, run, match_head}
use cxlkvs.Py.Regex.Laws.{Stops}
use cxlkvs.Py.Regex.Fields.{run-decimal}
use cxlkvs.Py.Regex.Backtrack.{run-group_back, RefusesAll, RefusesBehind}
use cxlkvs.Rocksdb.Batch.{Job, job_id, cores_and_threads, memory_suffix}
use cxlkvs.Rocksdb.Parser.Suffix.{
  IsName, name_char_not_space, name_char_not_underscore, All-map, digits_not_underscore,
  suffix-not_space, under, over, class_Refuses, number-Refuses, core_then, memory_core,
  memory_threads, memory_dram, memory_cxl, core_NoUnderscore, threads_NoUnderscore,
}
use cxlkvs.Rocksdb.Parser.{
  on_match, Names, names_then, dram_pattern, cxl_pattern, read_dram, read_cxl, read_names,
}

-- the key of a run: the latency of local memory is 0, and 0 for CXL memory is its own 500 ns
unfoldable pub names_of : Job → Names
names_of j = record {
  test = j.workload;
  num_cores = j.num_cores;
  num_threads = j.num_threads;
  latency = if j.use_cxl then (if j.latency == 0 then 500 else j.latency) else 0;
}

module _ (c m : ℕ) (use_cxl : Bool) (n : ℕ) where
  abbrev last_part : Text
  last_part = memory_suffix use_cxl n

  core_behind : (qs : Pattern) → RefusesBehind (lit "_core" ++ qs) (cores_and_threads c m last_part)
  unfolding run cores_and_threads
  core_behind qs = over (lit "core" ++ qs) (codes "core") _ core_NoUnderscore (
      over (lit "core" ++ qs) (decimal c) _ (digits_not_underscore c) (
        λ gs cur. refl,
        over (lit "core" ++ qs) (codes "threads") _ threads_NoUnderscore (
            over (lit "core" ++ qs) (decimal m) _ (digits_not_underscore m)
              (memory_core qs use_cxl n)),
      ))

  threads_all :
      (qs : Pattern)
      → RefusesAll (under qs) last_part
      → RefusesAll
          (lit "_threads" ++ (number ++ under qs))
          (codes "_threads" ++ (decimal m ++ last_part))
  unfolding run
  threads_all qs h = (
    λ gs cur. number-Refuses qs m last_part h gs [],
    over (lit "threads" ++ (number ++ under qs)) (codes "threads") _ threads_NoUnderscore (
        over (lit "threads" ++ (number ++ under qs)) (decimal m) last_part (digits_not_underscore m)
          (memory_threads (number ++ under qs) use_cxl n)),
  )

  core_all :
      (qs : Pattern)
      → RefusesAll (under qs) last_part
      → RefusesAll (core_then (under qs)) (cores_and_threads c m last_part)
  unfolding run cores_and_threads
  core_all qs h = (
    λ gs cur.
        number-Refuses (lit "threads" ++ (number ++ under qs)) c
          (codes "_threads" ++ (decimal m ++ last_part)) (threads_all qs h) gs [],
    core_behind (number ++ (lit "_threads" ++ (number ++ under qs))),
  )

  -- the pattern of the other memory
  names_Refuses :
      (qs : Pattern) (w : Text)
      → IsName w
      → RefusesAll (under qs) last_part
      → match_head (names_then (under qs)) (w ++ cores_and_threads c m last_part) ≡ none
  unfolding match_head run
  names_Refuses qs [] h k = absurd (h.0 refl)
  names_Refuses qs (x ∷ xs) h k =
      class_Refuses not_space (lit "core" ++ (number ++ (lit "_threads" ++ (number ++ under qs)))) x
        xs (cores_and_threads c m last_part) (All-map name_char_not_underscore (x ∷ xs) h.1)
        (core_all qs k) [] []

  -- the pattern of its own memory
  names_match :
      (ps : Pattern) (w : Text) {g : Groups}
      → IsName w
      → Stops is_digit last_part
      → All (λ c. not_space c ≡ true) (w ++ cores_and_threads c m last_part)
      → run ps (w ∷ decimal c ∷ decimal m ∷ []) (decimal m) last_part ≡ some g
      → match_head (names_then ps) (w ++ cores_and_threads c m last_part) ≡ some g
  unfolding match_head run
  names_match ps [] h st a k = absurd (h.0 refl)
  names_match ps (x ∷ xs) h st a k =
      let w = x ∷ xs in
      let threads = lit "_threads" ++ (number ++ ps) in
      run-group_back (core_then ps) not_space [] x xs [] (cores_and_threads c m last_part) a
        (core_behind (number ++ threads))
        (unfold run cores_and_threads in
          run-decimal threads (w ∷ []) c [] (codes "_threads" ++ (decimal m ++ last_part)) refl
            (unfold run in run-decimal ps (w ∷ decimal c ∷ []) m [] last_part st k))

after_tests :
    (name : Text) (names : Option Names) {a b : Option Groups}
    → match_head dram_pattern name ≡ a
    → match_head cxl_pattern name ≡ b
    → read_names name names ≡ (do names' ← on_match a read_dram names; on_match b read_cxl names')
unfolding read_names
after_tests name names {a = a} {b = b} e f =
    ap
      (λ r. on_match r read_dram names >>= λ names'.
        on_match (match_head cxl_pattern name) read_cxl names')
      e
    ∙ ap (λ r. on_match a read_dram names >>= λ names'. on_match r read_cxl names') f

number_end : (n : ℕ) (gs : Groups) → run number gs [] (decimal n) ≡ some (gs ++ decimal n ∷ [])
number_end n gs =
    let all : run number gs [] (decimal n ++ []) ≡ some (gs ++ decimal n ∷ []) =
      run-decimal [] gs n [] [] tt (unfold run in refl) in
    rw append-nil at all

cxl_number :
    (n : ℕ) (gs : Groups) (cur : Text)
    → run (lit "_cxl" ++ number) gs cur (memory_suffix true n) ≡ some (gs ++ decimal n ∷ [])
unfolding memory_suffix run
cxl_number n gs cur = number_end n gs

module _ (w : Text) (c m n : ℕ) (h : IsName w) (names : Option Names) where
  not_space_all :
      (use_cxl : Bool)
      → All (λ x. not_space x ≡ true) (w ++ cores_and_threads c m (memory_suffix use_cxl n))
  not_space_all use_cxl = All-append _ w _ (All-map name_char_not_space w h.1) (
      suffix-not_space
        (record { workload = w; num_cores = c; num_threads = m; use_cxl = use_cxl; latency = n }))

  read_dram_name :
      read_names (w ++ cores_and_threads c m (memory_suffix false n)) names
      ≡ ok (some (record { test = w; num_cores = c; num_threads = m; latency = 0 }))
  unfolding read_dram
  read_dram_name =
      after_tests _ names
        (names_match c m false n (lit "_dram") w {g = w ∷ decimal c ∷ decimal m ∷ []} h
          (unfold memory_suffix in refl) (not_space_all false) (unfold run memory_suffix in refl))
        (names_Refuses c m false n (lit "cxl" ++ number) w h (memory_cxl n))
      ∙ rw (int_digits-decimal c, int_digits-decimal m)

  read_cxl_name :
      read_names (w ++ cores_and_threads c m (memory_suffix true n)) names
      ≡ ok (
          some (record {
            test = w;
            num_cores = c;
            num_threads = m;
            latency = if n == 0 then 500 else n;
          }))
  unfolding read_cxl
  read_cxl_name =
      after_tests _ names (names_Refuses c m true n (lit "dram") w h (memory_dram n)) (
        names_match c m true n (lit "_cxl" ++ number) w
          {g = w ∷ decimal c ∷ decimal m ∷ decimal n ∷ []} h (unfold memory_suffix in refl)
          (not_space_all true) (cxl_number n (w ∷ decimal c ∷ decimal m ∷ []) (decimal m)))
      ∙ rw (int_digits-decimal c, int_digits-decimal m, int_digits-decimal n)

-- Where the workload is not empty and has no white space and no underscore: the name that a run's
-- directory is given is read as the run's own workload and numbers, whatever the directories before it
-- have left, with the latency 0 for local memory, and with 500 where the added latency of CXL memory
-- is 0.
pub read_names-job_id :
    (j : Job) (names : Option Names)
    → IsName j.workload
    → read_names (job_id j) names ≡ ok (some (names_of j))
unfolding job_id names_of
read_names-job_id j names h = elim (Bool-cases j.use_cxl) [
  | inl e ↦ rw e (read_cxl_name j.workload j.num_cores j.num_threads j.latency h names)
  | inr e ↦ rw e (read_dram_name j.workload j.num_cores j.num_threads j.latency h names)
]
