-- ===== src/Notebooks/Cachelib/Scaled.antt =====
-- The tables of notebooks/cachelib.ipynb are filled whenever the logs are parsed.
use cxlkvs.Prelude.{
  ℕ, ◌+◌, ◌*◌, ◌≡◌, ◌∙◌, ap, sym, refl, some, List, [], ◌∷◌, All, inl, inr, map, length, nat_eq,
  arith,
}
use mathlib.Core.Option
use cxlkvs.Py.Text.{Text}
use cxlkvs.Py.Num.{Num}
use cxlkvs.Py.Result.{
  Result, ok, bind_ok, ok_injective, Result-cases, traverse, traverse-All, traverse-Pointwise,
  Pointwise-All,
}
use cxlkvs.Py.Dict
use cxlkvs.Py.Dict.{Dict}
use cxlkvs.Cachelib.Parser.{Stats, parse}
use cxlkvs.Cachelib.Analyzer.{
  threads_stats, cores_stats, get_stats, get_throughput_and_latency, add_changes, add_cxl_runs,
  Locals,
}
use cxlkvs.Notebooks.Rows.{item, at_core, add_cores}
use cxlkvs.Notebooks.Rows.Zip.{zip, all_fresh, add_rows-zip}
use cxlkvs.Notebooks.Rows.Columns.{
  cell, columns, columns-cell, traverse_from-columns, Stands, zip-Stands, add_cores-zip,
  add_cores-traverse,
}
use cxlkvs.Notebooks.Rows.Each.{traverse_from-then_g, cell-map}
use cxlkvs.Notebooks.Cachelib.{
  num_cores_list, num_threads_list, mem_latency_list, change_time, change_times, StatsDict,
  core_list, max_throughput_dict, get_op_ratio, scaled_at_core, throughput_dict, tables,
}

module _ (num : Num) where
  -- the statistics of 8 and of 16 threads
  abbrev pub IsTwo : Dict ℕ (Stats num) → Type 0
  IsTwo runs = (a b : Stats num) × (runs ≡ (8, a) ∷ (16, b) ∷ [])

module _ (num : Num) (read : ℕ → ℕ → List Text) where
  threads_stats-IsTwo :
      (c : ℕ) (runs : Dict ℕ (Stats num))
      → threads_stats num read c num_threads_list [] ≡ ok runs
      → IsTwo num runs
  unfolding threads_stats Dict.put
  threads_stats-IsTwo c runs e =
      let (a, (e1, e2)) = bind_ok (parse num (read c 8) []) _ runs e in
      let (b, (e3, e4)) = bind_ok (parse num (read c 16) []) _ runs e2 in
      (a, b, sym (ok_injective e4))

  cores_stats-add_cores :
      (cs : List ℕ) (d : StatsDict num)
      → cores_stats num read cs num_threads_list d
        ≡ add_cores (λ c. threads_stats num read c num_threads_list []) cs d
  unfolding cores_stats add_cores
  cores_stats-add_cores [] d = refl
  cores_stats-add_cores (c ∷ cs) d =
      elim (Result-cases (threads_stats num read c num_threads_list [])) [
        | inl (runs, e) ↦ rw e (cores_stats-add_cores cs (Dict.put c runs d))
        | inr (x, e) ↦ rw e refl
      ]

  -- where every log is parsed, each number of cores has its two runs
  get_stats-IsTwo :
      (d : StatsDict num)
      → get_stats num read num_cores_list num_threads_list ≡ ok d
      → All
          (λ c. (runs : Dict ℕ (Stats num)) × (Dict.get c d ≡ some runs) × IsTwo num runs)
          num_cores_list
  unfolding get_stats
  get_stats-IsTwo d e =
      let f : ℕ → Result (Dict ℕ (Stats num)) = λ c. threads_stats num read c num_threads_list [] in
      let (xss, e1, e2) =
        add_cores-zip f num_cores_list [] d (all_fresh (Dict ℕ (Stats num)) num_cores_list)
          (ground arith) (sym (cores_stats-add_cores num_cores_list []) ∙ e) in
      let stands = zip-Stands f num_cores_list xss (ground arith) e1 in
      let two = traverse-All (IsTwo num) f num_cores_list xss threads_stats-IsTwo e1 in
      rw e2 (both num_cores_list xss (zip num_cores_list xss) stands two)
    where
      both :
          (cs : List ℕ) (xss : List (Dict ℕ (Stats num))) (m : StatsDict num)
          → Stands m cs xss
          → All (IsTwo num) xss
          → All (λ c. (runs : Dict ℕ (Stats num)) × (Dict.get c m ≡ some runs) × IsTwo num runs) cs
      both [] xss m h k = tt
      both (c ∷ cs) (xs ∷ xss) m h k = ((xs, h.0, k.0), both cs xss m h.1 k.1)
      both (c ∷ cs) [] m h k = absurd h

-- the times of the seven changes
abbrev times_of : ℕ → List (Dict ℕ ℕ)
times_of base =
    map (λ i. (8, base + 30 * i) ∷ (16, base + 30 * i) ∷ []) (0 ∷ 1 ∷ 2 ∷ 3 ∷ 4 ∷ 5 ∷ 6 ∷ [])

-- every number of cores has its times
all_times : All (λ c. (base : ℕ) × (change_times c 0 7 ≡ ok (times_of base))) num_cores_list
unfolding change_times change_time Dict.get Dict.put Dict.index item
all_times = ((390, refl), ((240, refl), ((150, refl), ((100, refl), ((90, refl), tt)))))

module _ (num : Num) (mean : List num.F → num.F) where
  two_runs :
      (base : ℕ) (xs : Dict ℕ (Stats num)) (a b : Stats num)
      → (r : List num.F × Locals num) × (get_throughput_and_latency num mean xs
            ((8, a) ∷ (16, b) ∷ [])
            (times_of base)
            []
          ≡ ok r)
        × (length r.0 ≡ 8)
  unfolding get_throughput_and_latency add_changes add_cxl_runs Dict.get Dict.index
  two_runs base xs a b = (_, refl, refl)

  module _ (dram cxl : StatsDict num) where
    abbrev IsFound : ℕ → Type 0
    IsFound c = (xs : List num.F) × (core_list num mean dram cxl c ≡ ok xs) × (length xs ≡ 8)

    core-IsFound :
        (c base : ℕ) (xs ys : Dict ℕ (Stats num))
        → change_times c 0 7 ≡ ok (times_of base)
        → Dict.get c dram ≡ some xs
        → Dict.get c cxl ≡ some ys
        → IsTwo num ys
        → IsFound c
    unfolding core_list
    core-IsFound c base xs ys e1 e2 e3 two =
        let (a, b, e4) = two in
        let (r, e5, e6) = two_runs base xs a b in
        let e7 : Dict.get c cxl ≡ some ((8, a) ∷ (16, b) ∷ []) = rw e4 at e3 in
        (r.0, rw (e1, Dict.index-get c xs dram e2, Dict.index-get c _ cxl e7, e5), e6)

    cores-IsFound :
        (cs : List ℕ)
        → All (λ c. (base : ℕ) × (change_times c 0 7 ≡ ok (times_of base))) cs
        → All (λ c. (runs : Dict ℕ (Stats num)) × (Dict.get c dram ≡ some runs) × IsTwo num runs) cs
        → All (λ c. (runs : Dict ℕ (Stats num)) × (Dict.get c cxl ≡ some runs) × IsTwo num runs) cs
        → All IsFound cs
    cores-IsFound [] t h k = tt
    cores-IsFound (c ∷ cs) t h k =
        let (base, e1) = t.0 in
        let (xs, e2, _) = h.0 in
        let (ys, e3, two) = k.0 in
        (core-IsFound c base xs ys e1 e2 e3 two, cores-IsFound cs t.1 h.1 k.1)

module _ (num : Num) (mean : List num.F → num.F) (read_dram read_cxl : ℕ → ℕ → List Text) where
  open num use {F, div}

  -- Where every log is parsed, the loops over the numbers of cores and over the latencies return: each
  -- number of cores has its list of greatest throughputs, and each latency, in order, a row whose value
  -- for a number of cores is the value for that latency in the list of that number of cores, divided by
  -- the share of the reads.
  pub tables-get_stats :
      (dram cxl : StatsDict num)
      → get_stats num read_dram num_cores_list num_threads_list ≡ ok dram
      → get_stats num read_cxl num_cores_list num_threads_list ≡ ok cxl
      → (lists rows : List (List F)) × (traverse (core_list num mean dram cxl) num_cores_list
          ≡ ok lists)
        × (tables num mean read_dram read_cxl
            ≡ ok (zip num_cores_list lists, zip mem_latency_list rows))
        × ((i j : ℕ)
            → cell rows i j ≡ Option.map (λ x. div x (get_op_ratio num mean)) (cell lists j i))
  unfolding tables max_throughput_dict throughput_dict scaled_at_core
  tables-get_stats dram cxl e1 e2 =
      let found =
        cores-IsFound num mean dram cxl num_cores_list all_times
          (get_stats-IsTwo num read_dram dram e1) (get_stats-IsTwo num read_cxl cxl e2) in
      let f : ℕ → Result (List F) = core_list num mean dram cxl in
      let g : F → F = λ x. div x (get_op_ratio num mean) in
      let (lists, e3, lengths) =
        traverse-Pointwise (λ c xs. length xs ≡ 8) f num_cores_list found in
      let eights = Pointwise-All (λ xs. length xs ≡ 8) num_cores_list lists lengths in
      let d : Dict ℕ (List F) = zip num_cores_list lists in
      let stands = zip-Stands f num_cores_list lists (ground arith) e3 in
      let rows = columns mem_latency_list 0 lists in
      let e4 =
        traverse_from-columns d num_cores_list 8 0 mem_latency_list lists stands eights
          (omega arith) in
      let e5 = traverse_from-then_g g (at_core d) num_cores_list 0 mem_latency_list rows e4 in
      let e6 =
        add_rows-zip (scaled_at_core num mean d) 1 (2 ∷ 4 ∷ 8 ∷ 16 ∷ []) mem_latency_list
          (map (map g) rows) (ground arith) e5 in
      let e7 =
        add_cores-traverse f num_cores_list [] lists (all_fresh (List F) num_cores_list)
          (ground arith) e3 in
      (
        lists,
        map (map g) rows,
        e3,
        rw (e1, e2, e7, e6),
        λ i j.
            let start : 0 + i ≡ i = omega arith in
            cell-map g rows i j
            ∙ ap (Option.map g)
                (rw start at (columns-cell 8 0 i j mem_latency_list lists eights (omega arith))),
      )
