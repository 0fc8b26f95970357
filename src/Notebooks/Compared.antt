-- ===== src/Notebooks/Compared.antt =====
-- notebooks/microbench.ipynb: the models against the runs of the microbenchmark.
pub mod Aligned
pub mod Lines
pub mod Counted
mod Tests
use cxlkvs.Prelude.{
  ℕ, ◌+◌, ◌-◌, ◌*◌, Option, none, some, List, [], ◌∷◌, ◌++◌, map, length, text_eq, nat_eq, ◌==◌,
  if◌then◌else◌, true,
}
use cxlkvs.Prelude.Int.{pos}
use cxlkvs.Py.Text.{Text, codes}
use cxlkvs.Py.Num.{Num, true_div}
use cxlkvs.Py.Sort.{min_list}
use cxlkvs.Py.Result.{Result, ok, err, index_error, value_error, ◌>>=◌}
use cxlkvs.Py.Dict
use cxlkvs.Py.Dict.{Dict}
use cxlkvs.Microbench.Parser.{MicrobenchParser, Cast, int, get_values, get_throughputs}
use cxlkvs.Model.{base, Outcome, done, and_then, reciprocal_throughput}
use cxlkvs.Notebooks.Rows.{or_nil}
use cxlkvs.Notebooks.Plot.Bars.{Pyplot}
use cxlkvs.Notebooks.Plot.{Setting, plot_with_models}

-- What the notebook asks of the parser: the values that occur, and the throughputs for the latencies.
pub record Measurements (F : Type 0) : Type 0 where
  pub latency_list : List ℕ
  pub num_chases_list : List ℕ
  pub memory_times : List ℕ
  pub io_times_pre : List ℕ
  pub io_times_post : List ℕ
  pub throughputs : ℕ → ℕ → ℕ → ℕ → Result (List F)

-- `mp.get_values(key)`, where no value is negative
unfoldable pub naturals : {F : Type 0} → List (Cast F) → Option (List ℕ)
naturals [] = some []
naturals (int (pos n) ∷ vs) = elim (naturals vs) [ none ↦ none | some ns ↦ some (n ∷ ns) ]
naturals (v ∷ vs) = none

-- `xs[0]`
unfoldable pub head_of : {A : Type 0} → List A → Result A
head_of [] = err index_error
head_of (x ∷ xs) = ok x

-- the loop over the elements, which hands `d` on
unfoldable pub fold_loop :
    {A D : Type 0} → (A → D → Outcome (Result D)) → List A → D → Outcome (Result D)
unfolding and_then
fold_loop body [] d = done (ok d)
fold_loop body (x ∷ xs) d = and_then (body x d) λ d'. fold_loop body xs d'

module _ (num : Num) where
  open num use {F, of_nat, add, sub, mul, div, less}

  -- the parser as it is asked, where all values are there
  unfoldable pub from_values :
      MicrobenchParser num
      → Option (List ℕ)
      → Option (List ℕ)
      → Option (List ℕ)
      → Option (List ℕ)
      → Option (List ℕ)
      → Option (Measurements F)
  from_values mp (some latencies) (some chases) (some memory) (some pre) (some post) =
      some (record {
        latency_list = latencies;
        num_chases_list = chases;
        memory_times = memory;
        io_times_pre = pre;
        io_times_post = post;
        throughputs =
            λ c t x y. get_throughputs num mp (map pos latencies) (pos c) (pos t) (pos x) (pos y);
      })
  from_values mp _ _ _ _ _ = none

  unfoldable pub measurements : MicrobenchParser num → Option (Measurements F)
  unfolding naturals from_values
  measurements mp =
      from_values mp (naturals (get_values num mp "latency"))
        (naturals (get_values num mp "num_chases")) (naturals (get_values num mp "memory_time"))
        (naturals (get_values num mp "io_time_pre")) (naturals (get_values num mp "io_time_post"))

  abbrev pub pause_time : ℕ
  pause_time = 12

  abbrev pub io_completion_time : ℕ
  io_completion_time = 140

  abbrev pub io_submission_time : ℕ
  io_submission_time = 1690 - io_completion_time

  -- the parameters of the models for one configuration, where the memory time is in nanoseconds
  unfoldable pub setting_of : ℕ → F → ℕ → ℕ → Setting num
  setting_of num_chases memory_time_nsec io_time_pre io_time_post = record {
    num_chases = of_nat num_chases;
    memory_time = memory_time_nsec;
    io_time_pre = of_nat (io_time_pre + io_submission_time);
    io_time_post = of_nat (io_time_post + io_completion_time);
    switch_time = of_nat 50;
    num_prefetches = 12;
  }

  -- `model.reciprocal_throughput(...)` of the base model, without latency
  unfoldable pub base_time : Setting num → Outcome (Result F)
  base_time s =
      reciprocal_throughput num
        (record { kind = base; switch_time = s.switch_time; num_prefetches = s.num_prefetches })
        (record {
          num_memory_accesses = s.num_chases;
          memory_time = s.memory_time;
          io_time_pre = s.io_time_pre;
          io_time_post = s.io_time_post;
          memory_latency = of_nat 0;
        })

  -- `memory_time_offset`, from the run with local memory and the least times
  unfoldable pub memory_time_offset : Measurements F → ℕ → Outcome (Result F)
  unfolding and_then setting_of base_time head_of
  memory_time_offset mp num_chases = and_then (done (head_of mp.memory_times)) λ min_memory_time.
      and_then (done (head_of mp.io_times_pre)) λ min_io_time_pre.
        and_then (done (head_of mp.io_times_post)) λ min_io_time_post.
          and_then
            (done (mp.throughputs num_chases min_memory_time min_io_time_pre min_io_time_post))
            λ ts. and_then (done (head_of ts)) λ t.
              and_then (done (true_div num (of_nat 1000000000) t)) λ dram_time.
                and_then
                  (base_time (
                    setting_of num_chases (of_nat (pause_time * min_memory_time)) min_io_time_pre
                      min_io_time_post))
                  λ model_time. done (true_div num (sub dram_time model_time) (of_nat num_chases))

  -- `for k, v in p.items(): perfs[k] += v`
  unfoldable pub add_curves : Dict Text (List F) → Dict Text (List F) → Dict Text (List F)
  add_curves [] perfs = perfs
  add_curves ((k, v) ∷ p) perfs = add_curves p (Dict.put k (or_nil (Dict.get k perfs) ++ v) perfs)

  module _ (plt : Pyplot F) where
    -- the body of the innermost loop
    unfoldable pub add_plot :
        Measurements F
        → ℕ
        → F
        → ℕ
        → ℕ
        → ℕ
        → Dict Text (List F)
        → Outcome (Result (Dict Text (List F)))
    unfolding and_then setting_of add_curves
    add_plot mp num_chases offset memory_time io_time_pre io_time_post perfs =
        and_then (done (mp.throughputs num_chases memory_time io_time_pre io_time_post)) λ ts.
          and_then
            (plot_with_models num plt
              (setting_of num_chases (add (of_nat (pause_time * memory_time)) offset) io_time_pre
                io_time_post)
              mp.latency_list ts (codes "Microbench") 1 true)
            λ p. done (ok (add_curves p perfs))

    -- the loops
    unfoldable pub perfs_of : Measurements F → Outcome (Result (Dict Text (List F)))
    unfolding and_then fold_loop add_plot memory_time_offset
    perfs_of mp =
        fold_loop
          (λ num_chases perfs. and_then (memory_time_offset mp num_chases) λ offset.
            fold_loop
              (λ memory_time.
                fold_loop
                  (λ io_time_pre.
                    fold_loop
                      (λ io_time_post.
                        add_plot mp num_chases offset memory_time io_time_pre io_time_post)
                      mp.io_times_post)
                  mp.io_times_pre)
              mp.memory_times perfs)
          mp.num_chases_list []

  unfoldable pub zip_div : List F → List F → List F
  zip_div [] ys = []
  zip_div (x ∷ xs) [] = []
  zip_div (x ∷ xs) (y ∷ ys) = div x y ∷ zip_div xs ys

  -- `np.array(xs) / np.array(ys)`; an array of length 1 is repeated
  unfoldable pub array_div : List F → List F → Result (List F)
  unfolding zip_div
  array_div xs (y ∷ []) = ok (map (λ x. div x y) xs)
  array_div (x ∷ []) ys = ok (map (λ y. div x y) ys)
  array_div xs ys = if length xs == length ys then ok (zip_div xs ys) else err value_error

  -- `(max(ratios) - 1) * 100` and `(1 - min(ratios)) * 100`
  unfoldable pub estimates : List F → Result (F × F)
  estimates ratios = do
    high ← min_list (λ x y. less y x) ratios
    low ← min_list less ratios
    ok (mul (sub high (of_nat 1)) (of_nat 100), mul (sub (of_nat 1) low) (of_nat 100))

  -- The last loop: what it prints for each model. Where `perfs` has no measured curve, the division
  -- or the maximum raises.
  unfoldable pub report_from :
      Dict Text (List F) → Dict Text (List F) → Result (List (Text × F × F))
  unfolding array_div estimates
  report_from perfs [] = ok []
  report_from perfs ((k, v) ∷ rest) =
      let later = report_from perfs rest in
      let line = (do
        ratios ← array_div v (or_nil (Dict.get (codes "Microbench") perfs))
        e ← estimates ratios
        lines ← later
        ok ((k, e.0, e.1) ∷ lines)) in
      if k == codes "Microbench" then later else line

  unfoldable pub report : Dict Text (List F) → Result (List (Text × F × F))
  unfolding report_from
  report perfs = report_from perfs perfs
