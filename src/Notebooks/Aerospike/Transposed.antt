-- ===== src/Notebooks/Aerospike/Transposed.antt =====
-- `throughput_dict` is the table of the greatest throughputs, transposed.
use cxlkvs.Prelude.{ℕ, ◌+◌, ◌≡◌, List, [], ◌∷◌, length, nat_eq, arith}
use cxlkvs.Py.Text.{Text}
use cxlkvs.Py.Num.{Num}
use cxlkvs.Py.Result.{ok, ◌>>=◌, length-traverse, traverse-All, bind_ok, traverse}
use cxlkvs.Py.Dict.{Dict}
use cxlkvs.Aerospike.Analyzer.{LogFile, analyze_given_mem_latency_and_batch}
use cxlkvs.Notebooks.Rows.Zip.{zip, all_fresh, add_rows-zip}
use cxlkvs.Notebooks.Rows.{at_core}
use cxlkvs.Notebooks.Rows.Columns.{
  cell, columns, columns-cell, traverse_from-columns, zip-Stands, add_cores-zip,
}
use cxlkvs.Notebooks.Aerospike.{
  num_cores_list, mem_latency_list, batch, dram_dir, cxl_dir, load_data, max_throughput_list,
  core_list, max_throughput_dict, throughput_dict,
}

module _ (num : Num) (glob : Text → List LogFile) where
  length-core_list : (c : ℕ) (xs : List num.F) → core_list num glob c ≡ ok xs → length xs ≡ 8
  unfolding core_list max_throughput_list
  length-core_list c xs e =
      let (d, (e1, e2)) =
        bind_ok (load_data glob (dram_dir c) (cxl_dir c)) (max_throughput_list num) xs e in
      length-traverse
        (λ mem_latency. do
          s ← analyze_given_mem_latency_and_batch num d mem_latency batch
          ok s.max_throughput)
        mem_latency_list xs e2

  -- Where the loop over the numbers of cores returns, each number of cores has its list of greatest throughputs, and the
  -- loops behind it return too: `throughput_dict` has for each latency, in order, a row whose value for a number of
  -- cores is the value for that latency in the list of that number of cores.
  pub throughput_dict-max_throughput_dict :
      (m : Dict ℕ (List num.F))
      → max_throughput_dict num glob ≡ ok m
      → (lists rows : List (List num.F)) × (traverse (core_list num glob) num_cores_list ≡ ok lists)
        × (throughput_dict m ≡ ok (zip mem_latency_list rows))
        × ((i j : ℕ) → cell rows i j ≡ cell lists j i)
  unfolding max_throughput_dict throughput_dict
  throughput_dict-max_throughput_dict m e =
      let (xss, e1, e2) =
        add_cores-zip (core_list num glob) num_cores_list [] m
          (all_fresh (List num.F) num_cores_list) (ground arith) e in
      let eights =
        traverse-All (λ xs. length xs ≡ 8) (core_list num glob) num_cores_list xss length-core_list
          e1 in
      let stands = zip-Stands (core_list num glob) num_cores_list xss (ground arith) e1 in
      let rows = columns mem_latency_list 0 xss in
      (
        xss,
        rows,
        e1,
        rw e2 (
            add_rows-zip (at_core (zip num_cores_list xss)) 1 (2 ∷ 4 ∷ 8 ∷ 16 ∷ []) mem_latency_list
              rows (ground arith)
              (traverse_from-columns (zip num_cores_list xss) num_cores_list 8 0 mem_latency_list
                xss stands eights (omega arith))),
        λ i j.
            let start : 0 + i ≡ i = omega arith in
            rw start at (columns-cell 8 0 i j mem_latency_list xss eights (omega arith)),
      )
