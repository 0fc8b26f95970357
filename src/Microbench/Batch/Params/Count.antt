-- ===== src/Microbench/Batch/Params/Count.antt =====
-- How many lines the file has, and which.
use cxlkvs.Prelude.{
  In, In-append, In-append_left, In-append_right, ℕ, ◌*◌, ◌≡◌, ap, ◌↔◌, inl, inr, refl, ◌∙◌, List,
  [], ◌∷◌, length, length-append, length-map, arith,
}
use cxlkvs.Microbench.Batch.Params.{Params, Ranges, for_each, param_rows, write_param_file}

length-for_each :
    {A B : Type 0} (xs : List A) (body : A → List B) (n : ℕ)
    → ((x : A) → length (body x) ≡ n)
    → length (for_each xs body) ≡ length xs * n
unfolding for_each
length-for_each [] body n h = omega arith
length-for_each (x ∷ xs) body n h =
    length-append (body x) (for_each xs body) ∙ grind (arith, h x, length-for_each xs body n h)

-- The file has one line for each choice of a value from each of the seven lists.
pub length-write_param_file :
    (count num_xstreams io_mode : ℕ) (r : Ranges)
    → length (write_param_file count num_xstreams io_mode r)
      ≡ length r.prefetch_modes
        * (length r.latencies
            * (length r.num_chases_list
                * (length r.memory_times
                    * (length r.io_times_pre
                        * (length r.io_times_post * (length r.num_threads_list * 1))))))
unfolding write_param_file
length-write_param_file count num_xstreams io_mode r =
    length-map _ (param_rows count num_xstreams io_mode r)
    ∙ unfold param_rows in
      length-for_each r.prefetch_modes _ _ λ a. length-for_each r.latencies _ _ λ b.
        length-for_each r.num_chases_list _ _ λ c. length-for_each r.memory_times _ _ λ d.
          length-for_each r.io_times_pre _ _ λ e.
            length-for_each r.io_times_post _ _
              λ f. length-for_each r.num_threads_list _ _ λ g. refl

for_each-In :
    {A B : Type 0} (xs : List A) (body : A → List B) (x : A) (b : B)
    → In x xs
    → In b (body x)
    → In b (for_each xs body)
unfolding for_each
for_each-In [] body x b h k = absurd h
for_each-In (y ∷ xs) body x b (inl e) k = In-append_left b (body y) _ (rw e at k)
for_each-In (y ∷ xs) body x b (inr h) k = In-append_right b (body y) _ (for_each-In xs body x b h k)

In-for_each :
    {A B : Type 0} (xs : List A) (body : A → List B) (b : B)
    → In b (for_each xs body)
    → (x : A) × In x xs × In b (body x)
unfolding for_each
In-for_each [] body b h = absurd h
In-for_each (y ∷ xs) body b h = elim (In-append b (body y) _ h) [
  | inl k ↦ (y, inl refl, k)
  | inr k ↦ let (x, i, j) = In-for_each xs body b k in (x, inr i, j)
]

-- `p` has the three fixed values, and its other values stand in their lists.
pub record IsChosen (count num_xstreams io_mode : ℕ) (r : Ranges) (p : Params) : Type 0 where
  pub same_count : p.count ≡ count
  pub same_xstreams : p.num_xstreams ≡ num_xstreams
  pub same_io_mode : p.io_mode ≡ io_mode
  pub prefetch_mode : In p.prefetch_mode r.prefetch_modes
  pub latency : In p.latency r.latencies
  pub num_chases : In p.num_chases r.num_chases_list
  pub memory_time : In p.memory_time r.memory_times
  pub io_time_pre : In p.io_time_pre r.io_times_pre
  pub io_time_post : In p.io_time_post r.io_times_post
  pub num_threads : In p.num_threads r.num_threads_list

module _ (count num_xstreams io_mode : ℕ) (r : Ranges) (p : Params) where
  param_rows-IsChosen :
      In p (param_rows count num_xstreams io_mode r) → IsChosen count num_xstreams io_mode r p
  unfolding param_rows
  param_rows-IsChosen h =
      let (a, ha, h1) = In-for_each r.prefetch_modes _ p h in
      let (b, hb, h2) = In-for_each r.latencies _ p h1 in
      let (c, hc, h3) = In-for_each r.num_chases_list _ p h2 in
      let (d, hd, h4) = In-for_each r.memory_times _ p h3 in
      let (e, he, h5) = In-for_each r.io_times_pre _ p h4 in
      let (f, hf, h6) = In-for_each r.io_times_post _ p h5 in
      let (g, hg, h7) = In-for_each r.num_threads_list _ p h6 in
      elim h7 [
        | inl same ↦ record {
          same_count = ap (λ q. q.count) same;
          same_xstreams = ap (λ q. q.num_xstreams) same;
          same_io_mode = ap (λ q. q.io_mode) same;
          prefetch_mode = rw (ap (λ q. q.prefetch_mode) same) ha;
          latency = rw (ap (λ q. q.latency) same) hb;
          num_chases = rw (ap (λ q. q.num_chases) same) hc;
          memory_time = rw (ap (λ q. q.memory_time) same) hd;
          io_time_pre = rw (ap (λ q. q.io_time_pre) same) he;
          io_time_post = rw (ap (λ q. q.io_time_post) same) hf;
          num_threads = rw (ap (λ q. q.num_threads) same) hg;
        }
        | inr none_left ↦ absurd none_left
      ]

  IsChosen-param_rows :
      IsChosen count num_xstreams io_mode r p → In p (param_rows count num_xstreams io_mode r)
  unfolding param_rows
  IsChosen-param_rows h = for_each-In r.prefetch_modes _ _ p h.prefetch_mode (
      for_each-In r.latencies _ _ p h.latency (
        for_each-In r.num_chases_list _ _ p h.num_chases (
          for_each-In r.memory_times _ _ p h.memory_time (
            for_each-In r.io_times_pre _ _ p h.io_time_pre (
              for_each-In r.io_times_post _ _ p h.io_time_post (
                for_each-In r.num_threads_list _ _ p h.num_threads (
                  inl (λ i. record {
                    count = h.same_count i;
                    num_threads = p.num_threads;
                    num_xstreams = h.same_xstreams i;
                    latency = p.latency;
                    num_chases = p.num_chases;
                    memory_time = p.memory_time;
                    io_time_pre = p.io_time_pre;
                    io_time_post = p.io_time_post;
                    io_mode = h.same_io_mode i;
                    prefetch_mode = p.prefetch_mode;
                  }))))))))

  -- A line is written for exactly the combinations that the lists allow.
  pub param_rows_iff :
      In p (param_rows count num_xstreams io_mode r) ↔ IsChosen count num_xstreams io_mode r p
  param_rows_iff = (param_rows-IsChosen, IsChosen-param_rows)
