-- ===== src/Rocksdb/Batch/Header.antt =====
-- rocksdb/batch.py: `change_num_cores` on include/rocksdb/env.h, and the build that each run gets.
-- What cmake makes of the header is a parameter; the build succeeds.
pub mod Built
use cxlkvs.Prelude.{ℕ, Option, none, some, List, [], ◌∷◌, ◌++◌}
use cxlkvs.Py.Text.{Text, codes, is_digit}
use cxlkvs.Py.Decimal.{decimal}
use cxlkvs.Py.Regex.{Pattern, some_of, lit}
use cxlkvs.Py.Regex.Sub.{sub}
use cxlkvs.Rocksdb.Batch.{Job, Step, change_num_cores, run_benchmark}

-- r'static PhotonEnv instance\(\d+, photon::INIT_EVENT_IOURING\);'
abbrev pub instance_pattern : Pattern
instance_pattern =
    lit "static PhotonEnv instance(" ++ (some_of is_digit ++ lit ", photon::INIT_EVENT_IOURING);")

unfoldable pub instance_line : ℕ → Text
instance_line num_cores =
    codes "static PhotonEnv instance("
    ++ (decimal num_cores ++ codes ", photon::INIT_EVENT_IOURING);")

-- `re.sub(...)` on the text of the header
unfoldable pub set_num_cores : ℕ → Text → Text
unfolding instance_line sub
set_num_cores num_cores header = sub instance_pattern (instance_line num_cores) header

module _ {B : Type 0} (cmake : Text → B) where
  -- The header, and db_bench once it has been built.
  pub record Tree : Type 0 where
    pub header : Text
    pub db_bench : Option B

  -- `change_num_cores`
  unfoldable pub rebuild : ℕ → Tree → Tree
  unfolding set_num_cores
  rebuild num_cores t =
      let header = set_num_cores num_cores t.header in
      record { header = header; db_bench = some (cmake header) }

  -- the runs of the script, with the db_bench of each
  unfoldable pub builds : Tree → List Step → List (Job × Option B)
  unfolding rebuild
  builds t [] = []
  builds t (change_num_cores n ∷ ss) = builds (rebuild n t) ss
  builds t (run_benchmark j ∷ ss) = (j, t.db_bench) ∷ builds t ss
