-- ===== src/Microbench/Batch/Params.antt =====
-- `write_param_file`: one line for each combination of the parameters.
pub mod Count
use cxlkvs.Prelude.{ℕ, List, [], ◌∷◌, ◌++◌, map}
use cxlkvs.Py.Text.{Text}
use cxlkvs.Py.Decimal.{decimal}

-- The numbers of a line `'%d %d … %d\n'`, in its order.
pub record Params : Type 0 where
  pub count : ℕ
  pub num_threads : ℕ
  pub num_xstreams : ℕ
  pub latency : ℕ
  pub num_chases : ℕ
  pub memory_time : ℕ
  pub io_time_pre : ℕ
  pub io_time_post : ℕ
  pub io_mode : ℕ
  pub prefetch_mode : ℕ

-- The parameters that a batch varies, each by a list.
pub record Ranges : Type 0 where
  pub prefetch_modes : List ℕ
  pub num_chases_list : List ℕ
  pub memory_times : List ℕ
  pub io_times_pre : List ℕ
  pub io_times_post : List ℕ
  pub latencies : List ℕ
  pub num_threads_list : List ℕ

-- `for x in xs:`, where the body writes a list
unfoldable pub for_each : {A B : Type 0} → List A → (A → List B) → List B
for_each [] body = []
for_each (x ∷ xs) body = body x ++ for_each xs body

-- The nested loops, with what each round writes.
unfoldable pub param_rows : ℕ → ℕ → ℕ → Ranges → List Params
unfolding for_each
param_rows count num_xstreams io_mode r = for_each r.prefetch_modes λ prefetch_mode.
    for_each r.latencies λ latency. for_each r.num_chases_list λ num_chases.
      for_each r.memory_times λ memory_time. for_each r.io_times_pre λ io_time_pre.
        for_each r.io_times_post λ io_time_post. for_each r.num_threads_list λ num_threads.
          record {
            count = count;
            num_threads = num_threads;
            num_xstreams = num_xstreams;
            latency = latency;
            num_chases = num_chases;
            memory_time = memory_time;
            io_time_pre = io_time_pre;
            io_time_post = io_time_post;
            io_mode = io_mode;
            prefetch_mode = prefetch_mode;
          }
          ∷ []

-- '%d %d %d %d %d %d %d %d %d %d\n', with any text behind it
unfoldable pub row_then : Params → Text → Text
row_then p rest =
    decimal p.count
    ++ (b' '
        ∷ (decimal p.num_threads
            ++ (b' '
                ∷ (decimal p.num_xstreams
                    ++ (b' '
                        ∷ (decimal p.latency
                            ++ (b' '
                                ∷ (decimal p.num_chases
                                    ++ (b' '
                                        ∷ (decimal p.memory_time
                                            ++ (b' '
                                                ∷ (decimal p.io_time_pre
                                                    ++ (b' '
                                                        ∷ (decimal p.io_time_post
                                                            ++ (b' '
                                                            ∷ (decimal p.io_mode
                                                            ++ (b' '
                                                            ∷ (decimal p.prefetch_mode
                                                            ++ rest))))))))))))))))))

unfoldable pub param_line : Params → Text
unfolding row_then
param_line p = row_then p (b'\n' ∷ [])

-- The lines of the file.
unfoldable pub write_param_file : ℕ → ℕ → ℕ → Ranges → List Text
unfolding param_rows param_line
write_param_file count num_xstreams io_mode r =
    map param_line (param_rows count num_xstreams io_mode r)
