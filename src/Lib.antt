-- ===== src/Lib.antt =====
-- The measurement scripts of cxlkvs: key-value stores are benchmarked on memory with the latency of
-- CXL, the logs of the runs are parsed into statistics, and the statistics are compared with a model
-- of the time of an operation.
--
-- The parts, and the files that model them:
--   microbench/batch.py              Microbench/Batch: `write_param_file` in Params, `parse_output` in
--                                    Output, `run_benchmark` in Runs, the script in Script
--   microbench/src/main.c            Microbench/Main: the loop over the parameter file; what an operation
--                                    reads in Operation, `run_threads` and `compare` in Threads. The
--                                    lines that it prints are in Microbench/Batch/Output/Printed.
--   microbench/src/chain.c           Microbench/Chain
--   notebooks/utils/microbench_parser.py   Microbench/Parser
--   notebooks/utils/aerospike_parser.py    Aerospike/Parser: `_parse_items` in Items, `_parse_op_stats`
--                                    and `_parse_workload` in Ops, `datetime.fromisoformat` in Time
--   notebooks/utils/aerospike_analyzer.py  Aerospike/Analyzer
--   notebooks/utils/cachelib_parser.py     Cachelib/Parser: the patterns and the times in Format
--   notebooks/utils/cachelib_analyzer.py   Cachelib/Analyzer, where `numpy.mean` is a parameter
--   rocksdb/batch.py                 Rocksdb/Batch: the order of the runs, the directory and the
--                                    environment of each, and in Header what is built for it
--   notebooks/utils/rocksdb_parser.py      Rocksdb/Parser
--   notebooks/utils/model.py         Model: the classes are the values of `Kind`. The outer loop of the
--                                    probabilistic model takes `enough` rounds of fuel.
--   notebooks/rocksdb.ipynb          Notebooks/Rocksdb, and the loops that fill a table, for all
--                                    three notebooks, in Notebooks/Rows
--   notebooks/aerospike.ipynb        Notebooks/Aerospike: the tables for the numbers of cores; the runs
--                                    with reads and writes in Mixed
--   notebooks/cachelib.ipynb         Notebooks/Cachelib: the tables for the numbers of cores; the curves
--                                    over time in Minutes, the runs on 400M items in Large
--   notebooks/multicore.ipynb        Notebooks/Multicore: the curve of RocksDB, from the stored table
--   notebooks/model.ipynb            Notebooks/Heatmap: the axes, the loops, and the percentages
--   notebooks/microbench.ipynb       Notebooks/Compared: the runs against the models, and the last cell,
--                                    what it prints for each model, in Compared/Lines
--   notebooks/utils/plot.py          Notebooks/Plot: what `plot_with_models` returns; the labels and
--                                    values of the other functions in Bars
-- The batch runner writes a parameter file, main.c reads it back and prints a log, `parse_output` reads
-- the log into dictionaries, which go through a JSON file into `MicrobenchParser`; the operations of
-- main.c follow the chain that chain.c makes. rocksdb/batch.py leaves a directory for each of its runs,
-- which the parser reads, and from the parser the notebook. The parsers of the other logs split a log at
-- its header lines (Segments) and read each part with regular expressions.
--
-- How Python is modelled (Py): an exception is a value of `PyError`, and a function that may raise
-- returns a `Result`; a dictionary is an association list in the order of insertion; a set is a list;
-- a text is the list of its code points, and the logs are ASCII; a file is the list of its lines.
-- `Py/Regex` runs the patterns of the scripts as Python does: greedy, with backtracking, the leftmost
-- match. It covers characters, classes with `*`, `+` and `?`, alternatives of words, groups that are
-- not nested, and `^`; `re.sub` is in `Py/Regex/Sub`. `Py/Text` and `Py/Decimal` have `int`,
-- `split`, `strip` and `'%d' % n`.
-- Floating point is the parameter `Num` (Py/Num), with the order laws that a theorem needs as its
-- hypotheses. It says which ints are too large for a float, which the loop of the probabilistic model
-- asks of what `math.comb` returns; other ints are taken to be small enough.
-- A local variable that may be unassigned is an `Option`. A recursion is on the list that the loop
-- goes over; the decimal digits of `n` are computed with `n + 1` rounds of fuel, which `int` reading
-- them back shows to be enough.
--
-- How C is modelled (Microbench/Main and Microbench/Chain): `uint64_t` and `int` wrap, written out as
-- `% 2 ^ 64` and `% 2 ^ 32`; the bit operations are those on the binary digits of a number; an array is its
-- length and its elements, and an access outside it is `none`. The numbers that `rand` returns are a
-- parameter. Allocations do not fail. The recursion is on the rounds that a loop has left.
--
-- What other programs do is a parameter: `shell` is what bash, `taskset`, `tee` and main.c make of the
-- files, and `measure` what a run of main.c measures; `cmake` what it makes of a header; `Pyplot`
-- says where matplotlib raises.
--
-- Not modelled: drawing, threads and io_uring, the clock, the command-line blocks that print, shell
-- scripts and configurations.
pub mod Prelude
pub mod Py
pub mod Segments
pub mod Aerospike
pub mod Cachelib
pub mod Microbench
pub mod Model
pub mod Notebooks
pub mod Rocksdb
