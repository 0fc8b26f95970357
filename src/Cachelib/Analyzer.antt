-- ===== src/Cachelib/Analyzer.antt =====
-- notebooks/utils/cachelib_analyzer.py: throughputs and latencies of the runs with local memory, and of
-- those with CXL memory behind each change of its latency. `numpy.mean` is the parameter `mean`.
pub mod Series
use cxlkvs.Prelude.{
  ℕ, ◌+◌, ◌-◌, Bool, Option, none, some, List, [], ◌∷◌, ◌++◌, map, length, take, drop, ltb, ◌==◌,
  nat_eq, text_eq, if◌then◌else◌,
}
use cxlkvs.Prelude.Int.{ℤ, pos, negsuc}
use cxlkvs.Py.Text.{Text, codes}
use cxlkvs.Py.Decimal.{decimal}
use cxlkvs.Py.Result.{Result, ok, ◌>>=◌}
use cxlkvs.Py.Num.{Num, max_num}
use cxlkvs.Py.Dict
use cxlkvs.Py.Dict.{Dict}
use cxlkvs.Py.Dict.Lists.{append_value}
use cxlkvs.Cachelib.Parser.{parse, Stat, int, float, Stats}

-- `base - k`
unfoldable pub minus : ℕ → ℕ → ℤ
minus base k = if ltb base k then negsuc (k - base - 1) else pos (base - k)

-- the index that an end of a slice stands for: a negative one counts from the end
unfoldable pub slice_index : ℕ → ℤ → ℕ
slice_index len (pos n) = if ltb len n then len else n
slice_index len (negsuc n) = len - (n + 1)

-- `xs[s:e]`
unfoldable pub py_slice : {A : Type 0} → ℤ → ℤ → List A → List A
unfolding slice_index
py_slice s e xs =
    let first = slice_index (length xs) s in
    take (slice_index (length xs) e - first) (drop first xs)

-- `get_stats`, where `read` opens the log of a number of cores and one of threads
module _ (num : Num) (read : ℕ → ℕ → List Text) where
  unfoldable pub threads_stats : ℕ → List ℕ → Dict ℕ (Stats num) → Result (Dict ℕ (Stats num))
  threads_stats num_cores [] d = ok d
  threads_stats num_cores (num_threads ∷ rest) d = do
    stats ← parse num (read num_cores num_threads) []
    threads_stats num_cores rest (Dict.put num_threads stats d)

  unfoldable pub cores_stats :
      List ℕ → List ℕ → Dict ℕ (Dict ℕ (Stats num)) → Result (Dict ℕ (Dict ℕ (Stats num)))
  unfolding threads_stats
  cores_stats [] num_threads_list d = ok d
  cores_stats (num_cores ∷ rest) num_threads_list d = do
    inner ← threads_stats num_cores num_threads_list []
    cores_stats rest num_threads_list (Dict.put num_cores inner d)

  unfoldable pub get_stats : List ℕ → List ℕ → Result (Dict ℕ (Dict ℕ (Stats num)))
  unfolding cores_stats
  get_stats num_cores_list num_threads_list = cores_stats num_cores_list num_threads_list []

-- The variables of the loops.
module _ (num : Num) where
  pub record Locals : Type 0 where
    pub max_throughput : num.F
    pub throughput_dict : Dict ℕ (List num.F)
    pub get_latency_dict : Dict ℕ (List (Dict Text num.F))

module _ (num : Num) (mean : List num.F → num.F) where
  open num use {F, of_nat, div}

  -- `stats[key]`
  unfoldable pub values_of : Text → Stats num → List (Stat num)
  values_of key [] = []
  values_of key ((k, vs) ∷ stats) =
      let rest = values_of key stats in if codes k == key then vs else rest

  abbrev pub to_num : Stat num → F
  to_num (int n) = of_nat n
  to_num (float x) = x

  -- `_mean_stats`
  unfoldable pub mean_stats : Stats num → Text → ℕ → F
  unfolding values_of minus py_slice
  mean_stats stats key base =
      mean (map to_num (py_slice (minus base 20) (minus base 5) (values_of key stats)))

  unfoldable pub throughput_at : Stats num → ℕ → F
  unfolding mean_stats
  throughput_at stats t = div (mean_stats stats (codes "cache_gets") t) (of_nat 60)

  -- the dictionary `d` of the loop over `p_list`
  unfoldable pub latencies_from : List ℕ → Stats num → ℕ → Dict Text F → Dict Text F
  unfolding mean_stats
  latencies_from [] stats t d = d
  latencies_from (p ∷ p_list) stats t d = latencies_from p_list stats t (
      Dict.put (codes "latency_p" ++ decimal p) (mean_stats stats (codes "find_p" ++ decimal p) t)
        d)

  -- the body of both loops, at the time `t`
  unfoldable pub add_run : List ℕ → ℕ → Stats num → ℕ → Locals num → Locals num
  unfolding throughput_at latencies_from append_value
  add_run p_list num_threads stats t l =
      let throughput = throughput_at stats t in
      let d = latencies_from p_list stats t [] in
      record {
        max_throughput = max_num num l.max_throughput throughput;
        throughput_dict = append_value num_threads throughput l.throughput_dict;
        get_latency_dict = append_value num_threads d l.get_latency_dict;
      }

  unfoldable pub add_dram_runs : List ℕ → Dict ℕ (Stats num) → Locals num → Locals num
  unfolding add_run
  add_dram_runs p_list [] l = l
  add_dram_runs p_list ((num_threads, stats) ∷ runs) l =
      add_dram_runs p_list runs (add_run p_list num_threads stats 0 l)

  -- the inner loop, for one change of the latency
  unfoldable pub add_cxl_runs :
      List ℕ → Dict ℕ ℕ → Dict ℕ (Stats num) → Locals num → Result (Locals num)
  unfolding add_run
  add_cxl_runs p_list change_time [] l = ok l
  add_cxl_runs p_list change_time ((num_threads, stats) ∷ runs) l = do
    t ← Dict.index num_threads change_time
    add_cxl_runs p_list change_time runs (add_run p_list num_threads stats t l)

  -- the outer loop, with the list of maxima
  unfoldable pub add_changes :
      List ℕ
      → List (Dict ℕ ℕ)
      → Dict ℕ (Stats num)
      → List F
      → Locals num
      → Result (List F × Locals num)
  unfolding add_cxl_runs
  add_changes p_list [] runs max_throughput_list l = ok (max_throughput_list, l)
  add_changes p_list (change_time ∷ changes) runs max_throughput_list l = do
    m ← add_cxl_runs p_list change_time runs (record l { max_throughput = of_nat 0 })
    add_changes p_list changes runs (max_throughput_list ++ m.max_throughput ∷ []) m

  unfoldable pub get_throughput_and_latency :
      Dict ℕ (Stats num)
      → Dict ℕ (Stats num)
      → List (Dict ℕ ℕ)
      → List ℕ
      → Result (List F × Locals num)
  unfolding add_dram_runs add_changes
  get_throughput_and_latency dram_stats cxl_stats cxl_latency_change_times p_list =
      let start : Locals num = record {
        max_throughput = of_nat 0;
        throughput_dict = [];
        get_latency_dict = [];
      } in
      let l = add_dram_runs p_list dram_stats start in
      add_changes p_list cxl_latency_change_times cxl_stats (l.max_throughput ∷ []) l
