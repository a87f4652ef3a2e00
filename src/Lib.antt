-- ===== src/Lib.antt =====
-- The pipeline of schedcore: from the threads of a program to a CPU scheduler for it.
--
-- The program finds out which threads of an application are background work, writes that down in a
-- Thread Manifest, compares manifests, chooses a scheduling pattern, and generates a BPF scheduler.
--
-- * Manifest.antt is the Thread Manifest (pipeline/thread_manifest.schema.json) as the stages read
--   it. A member of a JSON object is a `Field`: absent, null or a value.
-- * Verify.antt is `normalize_threads` and `compute_metrics` of pipeline/verify_manifest.py. Verify/Sets
--   has the sets of keys, Verify/Lookups the dicts, Verify/Counting the four counts and
--   Verify/Scores the ratios. Verify/Compare.antt is `compare_manifests` and the exit status that
--   `main` derives from it; a message is a constructor that stands for the text of the f-string.
--   Verify/Compare/Tally goes through the checks, Totals adds them up, Verdict has the exit status.
--   Verify/Main is `main` with the schema validation, and Main/Status its exit status.
-- * Discovery/ is pipeline/stage1a_static_analysis.py: Files collects the source files (Files/Reached
--   says which), Macros and Setters are the two scans of a file's lines, Names the regular
--   expressions, Calls what `analyze_file` does with a call (Calls/Growing and Calls/Naming for what
--   that adds), Entry the entries, and Report the two passes and the removal of duplicates, with
--   Report/Places, Report/Errors, Report/Learning and Report/Complete. Setters/Bodies has the bodies
--   of functions by their braces, Setters/Sound and Setters/Titles what the scan makes of them.
-- * Evaluate.antt is pipeline/evaluate_accuracy.py, with Evaluate/Safety for its exit status, to which
--   the printed table belongs as far as it can raise.
-- * Validate.antt is pipeline/stage4_validate.py: averages over benchmark runs and the improvement
--   over the baseline, with Validate/Improvement for what they are. Validate/Parsers has the parsers
--   of one file (Parsers/Returned joins them to the averages), Validate/Main the exit status.
--   Validate/DbSim is `parse_db_sim`, and DbSim/Saved what it makes of saved results.
-- * Bench/ is the benchmarks. Two of them run a workload beside a scheduler: Bench/Lifecycle starts and
--   stops the scheduler and has the loop of `main`, whose code both share, as actions that return or
--   raise (Bench/Io) on an operating system that is an interface (Bench/Os). Lifecycle/Stopping says
--   when a scheduler ends, Lifecycle/Starting which processes a start leaves, and
--   Lifecycle/Isolation follows them through the loop. Bench/Rocksdb is
--   workloads/rocksdb_dbbench/rocksdb_sched_bench.py (Rocksdb/Output its parser) and Bench/DbSim is
--   workloads/db_sim/db_sim_bench.py, each with a module Quiet. DbSim/Absent joins the latter to
--   stage 4. Bench/Redis is workloads/redis/archive/utils.py: Config the lines of the configuration,
--   Csv and Output its parsers, Summary the counts, and Processes the calls that stop processes.
-- * Policy.antt is pipeline/stage2_policy_select.py, with Policy/Choice for the decision.
-- * Profiler/Kernel.antt is the BPF program in pipeline/stage1c_dynamic_profiler.py, an event of the
--   kernel a step on the map of metrics (Kernel/Accounting what it does to one entry, Kernel/Filter
--   where an entry's process and name are from). Profiler/Classify.antt is `classify_thread`.
--   Profiler/Build.antt is `build_manifest` and the loop of `main` over the map, Profiler/Main.antt
--   the rest of `main`.
-- * Generator.antt is pipeline/stage3_generate_scheduler.py: the prefixes of a manifest, the C text of
--   the classification, and the choice of a template. Generator/Matching.antt is what the
--   generated C code decides for the name of a task. Generator/DualDsq.antt,
--   Generator/Preemption.antt and Generator/Asymmetric.antt are the schedulers of TEMPLATE_A,
--   TEMPLATE_B and TEMPLATE_C, over the interface to sched-ext in Generator/Scx.antt. A callback is
--   a function on the state, in which each callback reads the name of its task anew;
--   Generator/Preemption/Tracking has the states that callbacks reach, with what each of them read, and
--   Generator/DualDsq/Refinement compares any sequence of callbacks with an abstract scheduler.
--   Generator/Reading reads a generated condition back.
-- * Pipeline.antt follows a thread from the profiler to the generated classifier.
-- * Prelude/ has the shared types: dicts in the order of insertion (Prelude/Dict), text, floats,
--   exceptions (Prelude/Result), JSON values, sorting, and the regular expressions that the program
--   uses (Prelude/Regex). Tests/ has the development at concrete inputs.
--
-- Numbers. Python's integers are natural numbers: counts, lengths and nanoseconds are never
-- negative here. Python's floats are an interface (Prelude/Float) with laws of IEEE 754 doubles;
-- theorems on them bound their terms by 2^52, which a double holds exactly. Prelude/Float/Fixed
-- shows that the laws can hold. The counters of the BPF program are 64 bits wide and wrap around;
-- its map holds at most 4096 entries. Every loop is a recursion on a list or, for
-- the scan of the CPUs, on the number of its rounds (at most 256), so there is no fuel. The reader of
-- conditions, which is no part of the program, has fuel: one for each comparison is enough.
--
-- The kernel. Dispatch queues are first in, first out, as sched-ext documents (Generator/Scx); that
-- is a hypothesis, and Generator/Scx/Model satisfies it. Clock readings, names and identifiers are in
-- the events. Tasks leave the queue of a CPU only to run, which no callback sees, so here that queue
-- keeps all tasks that were handed to the CPU. A kernel that cannot read a name, or cannot make a
-- cell of task storage, is a case.
--
-- Processes. A scheduler is the process that `Popen` returns. The laws of Bench/Os are the documented
-- behaviour of the calls; that the user may signal the scheduler and does not interrupt the waits is
-- a hypothesis of its own (`IsObeyed`). An interrupt during a measurement is an exception like any
-- other there. Bench/Os/Model satisfies both. The directories, what `json` reads and writes, and
-- the text of an exception are parameters.
--
-- Not modelled: files, command lines, printed tables, charts, the third-party packages jsonschema and
-- BCC, the BPF loader in C, the C programs, the shell scripts, and the archived benchmark scripts but their helpers.
-- What tree_sitter finds in a file is a parameter of Discovery/.
-- The meaning of a generated condition, the comparison of bytes with the characters that the generator
-- put there, is that of C only where its lines are valid C (`is_valid_c` in Generator/Matching): it is not
-- empty, its characters are printable ASCII that need no quoting and not more than the buffer has
-- bytes, and no comment is closed early.
-- Without one of these the generator's text is no program, or another one.
pub mod Prelude
pub mod Manifest
pub mod Verify
pub mod Policy
pub mod Profiler
pub mod Generator
pub mod Evaluate
pub mod Bench
pub mod Discovery
pub mod Validate
pub mod Pipeline
pub mod Tests
