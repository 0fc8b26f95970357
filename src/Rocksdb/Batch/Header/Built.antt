-- ===== src/Rocksdb/Batch/Header/Built.antt =====
-- Each run of rocksdb/batch.py gets the db_bench of a header with its own number of cores.
use cxlkvs.Prelude.{
  ℕ, ◌≡◌, refl, true, Option, none, some, List, [], ◌∷◌, ◌++◌, All, All_every, append_assoc,
  append-nil,
}
use mathlib.Core.Option
use cxlkvs.Py.Text.{Text, codes, is_digit}
use cxlkvs.Py.Decimal.{decimal, decimal-cons, decimal-IsDigits}
use cxlkvs.Py.Result.{ok}
use cxlkvs.Py.Regex.{some_of, many, leave, lit, group, run, match_head}
use cxlkvs.Py.Regex.Laws.{run-many, run-some_of}
use cxlkvs.Py.Regex.Sub.{rest_behind, Unmatched, sub-one_match}
use cxlkvs.Rocksdb.Batch.{Job, Step, change_num_cores, run_benchmark, steps}
use cxlkvs.Rocksdb.Batch.Builds.{IsBuilt, steps-IsBuilt}
use cxlkvs.Rocksdb.Batch.Header.{instance_pattern, instance_line, set_num_cores, rebuild, builds}

-- the group behind a match takes the rest
run-rest : (s : Text) → run (many (λ c. true) ∷ leave ∷ []) [] [] s ≡ some (s ∷ [])
unfolding run
run-rest s = rw append-nil at (
    run-many (leave ∷ []) [] (λ c. true) s [] [] (All_every (λ c. true ≡ true) s (λ c. refl)) tt
      refl)

match_head-digits :
    (m : ℕ) (s cur : Text)
    → run
        (some_of is_digit
          ++ (lit ", photon::INIT_EVENT_IOURING);" ++ group (many (λ c. true) ∷ [])))
        []
        cur
        (decimal m ++ (codes ", photon::INIT_EVENT_IOURING);" ++ s))
      ≡ some (s ∷ [])
unfolding run
match_head-digits m s cur =
    let (d, t, e) = decimal-cons m in
    rw e (
      run-some_of (lit ", photon::INIT_EVENT_IOURING);" ++ group (many (λ c. true) ∷ [])) []
        is_digit d t cur (codes ", photon::INIT_EVENT_IOURING);" ++ s)
        (rw e at (decimal-IsDigits m)) refl (run-rest s))

rest_behind-instance_line :
    (m : ℕ) (s : Text) → rest_behind instance_pattern (instance_line m ++ s) ≡ some s
unfolding rest_behind match_head run instance_line
rest_behind-instance_line m s =
    rw
      (append_assoc (decimal m) (codes ", photon::INIT_EVENT_IOURING);") s, match_head-digits m s _)
      refl

-- A header with one line of an instance, between two other parts.
module _ (before behind : Text) where
  abbrev pub header : ℕ → Text
  header n = before ++ (instance_line n ++ behind)

  -- the other parts have no such line, whatever the number in the line
  pub record IsSingle : Type 0 where
    pub free_before : (m : ℕ) → Unmatched instance_pattern before (instance_line m ++ behind)
    pub free_behind : Unmatched instance_pattern behind []

  set_num_cores-header : IsSingle → (n m : ℕ) → set_num_cores n (header m) ≡ header n
  unfolding set_num_cores instance_line
  set_num_cores-header single n m =
      sub-one_match instance_pattern (instance_line n) before behind b's'
        (codes "tatic PhotonEnv instance(" ++ (decimal m ++ codes ", photon::INIT_EVENT_IOURING);"))
        (single.free_before m) (rest_behind-instance_line m behind) single.free_behind

  -- the run gets the db_bench for its own number of cores
  module _ {B : Type 0} (cmake : Text → B) where
    abbrev pub IsOwn : Job × Option B → Type 0
    IsOwn r = r.1 ≡ some (cmake (header r.0.num_cores))

  module _ {B : Type 0} (cmake : Text → B) (single : IsSingle) where
    builds-IsOwn :
        (ss : List Step) (m : ℕ) (built : Option ℕ)
        → IsBuilt built ss
        → All (IsOwn cmake) (
            builds cmake
              (record { header = header m; db_bench = Option.map (λ n. cmake (header n)) built })
              ss)
    unfolding builds rebuild
    builds-IsOwn [] m built h = tt
    builds-IsOwn (change_num_cores n ∷ ss) m built h =
        rw (set_num_cores-header single n m) (builds-IsOwn ss n (some n) h)
    builds-IsOwn (run_benchmark j ∷ ss) m built h = (rw h.0 refl, builds-IsOwn ss m built h.1)

    -- Whatever the lists of the script, and where env.h has one line of an instance: where the script does
    -- not raise, every run gets the db_bench that cmake makes of env.h with the number of cores of that run
    -- in its line, and all else as it was.
    pub builds-steps :
        (m : ℕ) (cs ts ls : List ℕ) (ss : List Step)
        → steps cs ts ls ≡ ok ss
        → All (IsOwn cmake) (builds cmake (record { header = header m; db_bench = none }) ss)
    builds-steps m cs ts ls ss e = builds-IsOwn ss m none (steps-IsBuilt ts ls cs ss e)
