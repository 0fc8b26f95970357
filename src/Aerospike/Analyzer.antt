-- ===== src/Aerospike/Analyzer.antt =====
-- notebooks/utils/aerospike_analyzer.py: the workloads of several logs by memory latency, and the
-- throughputs and latencies at one memory latency.
pub mod Filed
pub mod Tables
pub mod Kept
pub mod Last
use cxlkvs.Prelude.{
  ℕ, zero, suc, ◌+◌, ◌-◌, ◌*◌, Bool, true, false, ◌&&◌, Option, none, some, List, [], ◌∷◌, ◌++◌,
  get_elem?, ltb, ◌==◌, nat_eq, text_eq, if◌then◌else◌,
}
use cxlkvs.Prelude.Int.{ℤ, pos, negsuc}
use cxlkvs.Py.Result.{Result, ok, err, index_error, unbound_local, system_exit, ◌>>=◌}
use cxlkvs.Py.Text.{Text, codes, int_digits}
use cxlkvs.Py.Num.{Num, true_div}
use cxlkvs.Py.Dict
use cxlkvs.Py.Dict.{Dict, put_nested}
use cxlkvs.Py.Regex.{Pattern, Groups, one, lit, number, is_dot, search_any}
use cxlkvs.Aerospike.Parser.{parse}
use cxlkvs.Aerospike.Parser.Items.{first_group}
use cxlkvs.Aerospike.Parser.Ops.{OpStats, Workload}

-- A workload `d`, once `d['server_threads']` is set.
pub record Entry : Type 0 where
  pub workload : Workload
  pub server_threads : ℕ

abbrev pub LogDict : Type 0
LogDict = Dict ℕ (List Entry)

abbrev or_nil : Option (List Entry) → List Entry
or_nil none = []
or_nil (some es) = es

-- `log_dict[k]` of the `defaultdict(list)`
unfoldable pub entries_at : ℕ → LogDict → List Entry
entries_at k d = or_nil (Dict.get k d)

-- `log_dict[k].append(d)`
unfoldable pub append_entry : ℕ → Entry → LogDict → LogDict
unfolding entries_at
append_entry k d log_dict = Dict.put k (entries_at k log_dict ++ d ∷ []) log_dict

-- The variables of the loops. `bumps` is `mem_latency_idx + 1`. `cur_mem_latency` is not assigned at
-- the start, and keeps its value from one log to the next.
pub record Locals : Type 0 where
  pub log_dict : LogDict
  pub cur_mem_latency : Option ℕ
  pub cur_client_threads : ℕ
  pub bumps : ℕ

-- `d['read'] is not None and d['async'] == 'false'`
unfoldable pub is_kept : Workload → Bool
is_kept d = elim d.read [ none ↦ false | some r ↦ d.is_async == codes "false" ]

-- `cur_mem_latency = mem_latency_list[mem_latency_idx]`, at the item there
abbrev set_latency : Option ℕ → Locals → Result Locals
set_latency none l = err index_error
set_latency (some latency) l = ok (record l { cur_mem_latency = some latency; bumps = l.bumps + 1 })

-- the new latency, where the client threads start again from fewer
unfoldable pub next_latency : List ℕ → Workload → Locals → Result Locals
next_latency mem_latency_list d l =
    if ltb d.client_threads l.cur_client_threads
    then set_latency (get_elem? mem_latency_list l.bumps) l
    else ok l

abbrev append_at : Option ℕ → Entry → Locals → Result Locals
append_at none e l = err unbound_local
append_at (some latency) e l = ok (record l { log_dict = append_entry latency e l.log_dict })

-- `log_dict[cur_mem_latency].append(d)`
unfoldable pub keep : ℕ → Workload → Locals → Result Locals
unfolding append_entry
keep server_threads d l =
    append_at l.cur_mem_latency (record { workload = d; server_threads = server_threads }) l

-- the body of the inner loop
unfoldable pub add_workload : List ℕ → ℕ → Workload → Locals → Result Locals
unfolding next_latency keep
add_workload mem_latency_list server_threads d l = do
  l' ←
      (if is_kept d
        then (do m ← next_latency mem_latency_list d l; keep server_threads d m)
        else ok l)
  ok (record l' { cur_client_threads = d.client_threads })

unfoldable pub add_workloads : List ℕ → ℕ → List Workload → Locals → Result Locals
unfolding add_workload
add_workloads mem_latency_list server_threads [] l = ok l
add_workloads mem_latency_list server_threads (d ∷ data_read) l = do
  l' ← add_workload mem_latency_list server_threads d l
  add_workloads mem_latency_list server_threads data_read l'

-- r'act-(\d+).log'
abbrev pub name_pattern : Pattern
name_pattern = lit "act-" ++ (number ++ (one is_dot ∷ lit "log"))

-- A file, by its name and its lines.
pub record LogFile : Type 0 where
  pub name : Text
  pub lines : List Text

unfoldable pub threads_of_name : Text → Result ℕ
threads_of_name name = elim (search_any name_pattern name) [
  | none ↦ err system_exit
  | some m ↦ (do g ← first_group m; int_digits g)
]

-- the body of the outer loop
unfoldable pub add_file : List ℕ → LogFile → Locals → Result Locals
unfolding add_workloads threads_of_name
add_file mem_latency_list file l = do
  server_threads ← threads_of_name file.name
  data_read ← parse file.lines
  add_workloads mem_latency_list server_threads data_read
      (record l { cur_client_threads = 0; bumps = 0 })

unfoldable pub add_files : List ℕ → List LogFile → Locals → Result Locals
unfolding add_file
add_files mem_latency_list [] l = ok l
add_files mem_latency_list (file ∷ files) l = do
  l' ← add_file mem_latency_list file l
  add_files mem_latency_list files l'

unfoldable pub parse_logs : List LogFile → List ℕ → Result LogDict
unfolding add_files
parse_logs log_file_list mem_latency_list = do
  l ←
      add_files mem_latency_list log_file_list
        (record { log_dict = []; cur_mem_latency = none; cur_client_threads = 0; bumps = 0 })
  ok l.log_dict

-- `num_ops * batch`, exactly
unfoldable pub times : ℤ → ℕ → ℤ
times (pos n) b = pos (n * b)
times (negsuc n) zero = pos 0
times (negsuc n) (suc b) = negsuc (suc n * suc b - 1)

abbrev pub Table : Type 0 → Type 0
Table V = Dict ℕ (Dict ℕ V)

-- d['batch_read'] == batch and d['batch_write'] == batch
unfoldable pub has_batch : ℕ → Entry → Bool
has_batch batch d = d.workload.batch_read == batch && d.workload.batch_write == batch

-- the first loop
unfoldable pub runs_of_batch : ℕ → List Entry → List Entry
unfolding has_batch
runs_of_batch batch [] = []
runs_of_batch batch (d ∷ ds) =
    let rest = runs_of_batch batch ds in if has_batch batch d then d ∷ rest else rest

module _ (num : Num) where
  open num use {F, of_nat, of_negsuc, add, less}

  unfoldable pub of_int : ℤ → F
  of_int (pos n) = of_nat n
  of_int (negsuc n) = of_negsuc n

  -- one round of `for mode in ['read', 'write']`
  unfoldable pub add_mode : Option OpStats → ℕ → F → Result F
  unfolding of_int times
  add_mode none batch throughput = ok throughput
  add_mode (some d) batch throughput = do
    rate ← true_div num (of_int (times d.num_ops batch)) (of_int d.runtime)
    ok (add throughput rate)

  unfoldable pub throughput_of : Entry → Result F
  unfolding add_mode
  throughput_of d = do
    th ← add_mode d.workload.read d.workload.batch_read (of_nat 0)
    add_mode d.workload.write d.workload.batch_write th

  pub record Summary : Type 0 where
    pub max_throughput : F
    pub max_server_threads : ℕ
    pub max_client_threads : ℕ
    pub throughput_dict : Table F
    pub rd_latency_dict : Table (Option OpStats)
    pub wr_latency_dict : Table (Option OpStats)

  -- the body of the loop over the runs
  unfoldable pub add_run : Entry → Summary → Result Summary
  unfolding throughput_of
  add_run d s = do
    throughput ← throughput_of d
    let s_th = d.server_threads
    let c_th = d.workload.client_threads
    let is_more = less s.max_throughput throughput
    ok (record {
      max_throughput = if is_more then throughput else s.max_throughput;
      max_server_threads = if is_more then s_th else s.max_server_threads;
      max_client_threads = if is_more then c_th else s.max_client_threads;
      throughput_dict = put_nested c_th s_th throughput s.throughput_dict;
      rd_latency_dict = put_nested c_th s_th d.workload.read s.rd_latency_dict;
      wr_latency_dict = put_nested c_th s_th d.workload.write s.wr_latency_dict;
    })

  unfoldable pub add_runs : List Entry → Summary → Result Summary
  unfolding add_run
  add_runs [] s = ok s
  add_runs (d ∷ ds) s = do s' ← add_run d s; add_runs ds s'

  unfoldable pub analyze_given_mem_latency_and_batch : LogDict → ℕ → ℕ → Result Summary
  unfolding add_runs runs_of_batch entries_at
  analyze_given_mem_latency_and_batch log_dict mem_latency batch =
      add_runs (runs_of_batch batch (entries_at mem_latency log_dict)) (record {
        max_throughput = of_nat 0;
        max_server_threads = 0;
        max_client_threads = 0;
        throughput_dict = [];
        rd_latency_dict = [];
        wr_latency_dict = [];
      })
