-- ===== src/Bench/Rocksdb.antt =====
-- workloads/rocksdb_dbbench/rocksdb_sched_bench.py: reads while writing, under the kernel's scheduler,
-- scx_bpfland and rocksdb_aware. `dumps` is the text that `json.dump` writes.
pub mod Output
pub mod Quiet
use schedcore.Prelude.{
  ℕ, ◌+◌, ◌-◌, String, ◌<>◌, Option, none, some, Bool, true, false, List, [], ◌∷◌, ◌==◌,
  if◌then◌else◌,
}
use schedcore.Prelude.Text.{show, count}
use schedcore.Prelude.Dict.{Dict}
use schedcore.Prelude.Split.{Unicode}
use schedcore.Prelude.Float.{Float}
use schedcore.Prelude.Result.{
  Result, ok, raise, Exception, key_error, type_error, attribute_error, value_error, exit_one,
  os_error, process_lookup_error, timeout_expired, keyboard_interrupt,
}
use schedcore.Bench.Io.{Io, return, lift, ◌>>=◌, ◌>>◌, except}
use schedcore.Bench.Os.{Os, Completed, ReturnCode, signalled, succeeded}
use schedcore.Bench.Lifecycle.{launch, if_there, require, Start, guarded, measure}
use schedcore.Bench.Rocksdb.Output.{Metrics, parse_db_bench_output}

abbrev num_keys : ℕ
num_keys = 5000000

abbrev value_size : ℕ
value_size = 256

abbrev duration : ℕ
duration = 30

abbrev read_threads : ℕ
read_threads = 8

abbrev pub db_path : String
db_path = "/tmp/rocksdb_bench_data"

-- `s[-n:]` for a positive `n`
abbrev dropped : ℕ → String → String
dropped ℕ.zero s = s
dropped (ℕ.suc n) String.[] = String.[]
dropped (ℕ.suc n) (String.◌∷◌ c s) = dropped n s

unfoldable pub last_chars : ℕ → String → String
last_chars n s = dropped (count s - n) s

-- The directories of the script, of the repository, and of the schedulers that were installed.
module _ (script_dir project_root sched_dir : String) where
  abbrev pub db_bench : String
  db_bench = script_dir <> "/rocksdb/db_bench"

  abbrev pub rocksdb_aware_bpf : String
  rocksdb_aware_bpf = script_dir <> "/rocksdb_aware.bpf.o"

  abbrev pub loader : String
  loader = project_root <> "/bpf_loader/loader"

  abbrev pub sched_bin : String → String
  sched_bin name = sched_dir <> ("/" <> name)

  abbrev pub fill : List String
  fill =
      db_bench
      ∷ ("--db=" <> db_path)
      ∷ "--benchmarks=fillrandom"
      ∷ ("--num=" <> show num_keys)
      ∷ ("--value_size=" <> show value_size)
      ∷ "--disable_wal=false"
      ∷ "--max_background_compactions=4"
      ∷ "--max_background_flushes=2"
      ∷ "--compression_type=snappy"
      ∷ []

  abbrev pub readwhilewriting : List String
  readwhilewriting =
      db_bench
      ∷ ("--db=" <> db_path)
      ∷ "--benchmarks=readwhilewriting"
      ∷ "--use_existing_db=true"
      ∷ ("--num=" <> show num_keys)
      ∷ ("--duration=" <> show duration)
      ∷ ("--threads=" <> show read_threads)
      ∷ ("--value_size=" <> show value_size)
      ∷ "--max_background_compactions=8"
      ∷ "--max_background_flushes=2"
      ∷ "--statistics=true"
      ∷ "--histogram=true"
      ∷ "--compression_type=snappy"
      ∷ []

  -- The arguments of `Popen`.
  abbrev pub custom_arguments : List String
  custom_arguments = "sudo" ∷ loader ∷ rocksdb_aware_bpf ∷ []

  abbrev pub builtin_arguments : String → List String
  builtin_arguments name = "sudo" ∷ sched_bin name ∷ []

module _ (os : Os) where
  open os use {State, path_exists, remove_tree, make_dirs, run, message}

  abbrev pub removed : Bool → Io State (Unit {0})
  removed there = if there then remove_tree db_path else return tt

  unfoldable pub cleanup_db : Io State (Unit {0})
  cleanup_db = do there ← path_exists db_path; removed there; make_dirs db_path

  -- `except subprocess.TimeoutExpired`, then `except Exception as e`
  abbrev pub output_of : Exception → String
  output_of timeout_expired = "TIMEOUT"
  output_of (key_error k) = message (key_error k)
  output_of type_error = message type_error
  output_of attribute_error = message attribute_error
  output_of value_error = message value_error
  output_of exit_one = message exit_one
  output_of os_error = message os_error
  output_of process_lookup_error = message process_lookup_error
  output_of keyboard_interrupt = message keyboard_interrupt

  module _ (script_dir project_root sched_dir : String) where
    abbrev pub is_populated : Completed → Io State Bool
    is_populated proc = return (succeeded proc.returncode)

    unfoldable pub populate_db : Io State Bool
    populate_db = do proc ← run (fill script_dir project_root sched_dir) 300; is_populated proc

    abbrev pub both_outputs : Completed → Io State (String × ReturnCode)
    both_outputs proc = return (proc.stdout <> ("\n" <> proc.stderr), proc.returncode)

    abbrev pub ran : Io State (String × ReturnCode)
    ran = do
      proc ← run (readwhilewriting script_dir project_root sched_dir) (duration + 60)
      both_outputs proc

    unfoldable pub run_readwhilewriting : Io State (String × ReturnCode)
    run_readwhilewriting = except ran (λ e. return (output_of e, signalled 1))

    unfoldable pub start_custom_scheduler : Start os
    unfolding launch
    start_custom_scheduler = if_there os (rocksdb_aware_bpf script_dir project_root sched_dir) (
        if_there os (loader script_dir project_root sched_dir)
          (launch os (custom_arguments script_dir project_root sched_dir)))

    unfoldable pub start_builtin_scheduler : String → Start os
    unfolding launch
    start_builtin_scheduler name =
        if_there os (sched_bin script_dir project_root sched_dir name)
          (launch os (builtin_arguments script_dir project_root sched_dir name))

    abbrev pub configs : List (String × Option (Start os))
    configs =
        ("CFS (default)", none)
        ∷ ("scx_bpfland", some (start_builtin_scheduler "scx_bpfland"))
        ∷ ("rocksdb_aware", some start_custom_scheduler)
        ∷ []

    unfoldable pub prepare : Io State Bool
    unfolding cleanup_db populate_db
    prepare = do cleanup_db; populate_db

    module _ {M : Type 0} where
      abbrev pub if_populated : Io State (Option M) → Option (Start os) → Bool → Io State (Option M)
      if_populated bench start_fn populated =
          if populated then guarded os bench start_fn else return none

      -- `run_test`, with what is measured beside the scheduler.
      unfoldable pub run_test : Io State (Option M) → Option (Start os) → Io State (Option M)
      unfolding guarded prepare
      run_test bench start_fn = prepare >>= if_populated bench start_fn

      -- What `main` prints of a result needs both numbers of the summary, which are set together, so
      -- that no exception comes of it.
      unfoldable pub measured : Io State (Option M) → Io State (Dict String (Option M))
      unfolding run_test measure
      measured bench = measure os (run_test bench) (λ r. return tt) configs []

-- A result with the tail of the output; `M` is what the output is parsed to.
pub record Run (M : Type 0) : Type 0 where
  pub metrics : M
  pub raw_output_tail : String

abbrev without_tail : {M : Type 0} → Option (Run M) → Option M
without_tail none = none
without_tail (some r) = some r.metrics

-- `save_results`
unfoldable pub strip : {M : Type 0} → Dict String (Option (Run M)) → Dict String (Option M)
strip [] = []
strip ((label, r) ∷ results) = (label, without_tail r) ∷ strip results

module _ (os : Os) (script_dir project_root sched_dir : String) where
  open os use {State, write_file}

  module _ {M : Type 0} (parse : String → Result M) where
    abbrev with_tail : String → Result M → Result (Option (Run M))
    with_tail output (ok metrics) =
        ok (some (record { metrics = metrics; raw_output_tail = last_chars 500 output }))
    with_tail output (raise e) = raise e

    abbrev pub parsed : String × ReturnCode → Io State (Option (Run M))
    parsed (output, rc) = lift (with_tail output (parse output))

    unfoldable pub benchmark : Io State (Option (Run M))
    unfolding run_readwhilewriting
    benchmark = run_readwhilewriting os script_dir project_root sched_dir >>= parsed

  module _ {M : Type 0} (dumps : Dict String (Option M) → String) where
    abbrev pub save : Dict String (Option (Run M)) → Io State (Unit {0})
    save all_results =
        write_file (script_dir <> "/results/rocksdb_sched_results.json") (dumps (strip all_results))

    unfoldable pub main_with : Io State (Option (Run M)) → Io State (Unit {0})
    unfolding measured strip
    main_with bench =
        require os (db_bench script_dir project_root sched_dir)
          (measured os script_dir project_root sched_dir bench >>= save)

-- `main`
unfoldable pub main :
    (u : Unicode) (float : Float) (int : String → ℕ) (parse_float : String → Option float.F)
    (os : Os) (script_dir project_root sched_dir : String)
    → (Dict String (Option (Metrics u float int parse_float)) → String)
    → Io os.State (Unit {0})
unfolding main_with benchmark parse_db_bench_output
main u float int parse_float os script_dir project_root sched_dir dumps =
    main_with os script_dir project_root sched_dir dumps (
      benchmark os script_dir project_root sched_dir
        (parse_db_bench_output u float int parse_float))
