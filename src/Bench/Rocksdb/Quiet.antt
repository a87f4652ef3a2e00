-- ===== src/Bench/Rocksdb/Quiet.antt =====
-- The RocksDB benchmark runs beside its own scheduler, and leaves none behind.
use schedcore.Prelude.{ℕ, String, ◌<>◌, Option, some, Bool, true, false, [], ◌≡◌, refl, ap, All}
use schedcore.Prelude.Dict.{Dict}
use schedcore.Prelude.Split.{Unicode}
use schedcore.Prelude.Float.{Float}
use schedcore.Prelude.Result.{Result}
use schedcore.Bench.Io.{
  Io, return, ◌>>=◌, ◌>>◌, and_then, and_then_keeps, and_then_agree, handled_keeps,
}
use schedcore.Bench.Os.{Os, IsOs, IsObeyed, StartsNone, signalled}
use schedcore.Bench.Lifecycle.{launch, Start, if_there}
use schedcore.Bench.Lifecycle.Stopping.{still_ended}
use schedcore.Bench.Lifecycle.Starting.{
  Only, And, Keeps, IsStarter, keeps, starts_none, IsIsolated, only-IsIsolated, launch-IsStarter,
  if_there-IsStarter, require-Keeps, require_agree,
}
use schedcore.Bench.Lifecycle.Isolation.{guarded-Keeps, guarded_agree, measure-Keeps, measure_agree}
use schedcore.Bench.Rocksdb.Output.{Metrics, parse_db_bench_output}
use schedcore.Bench.Rocksdb.{
  db_path, db_bench, rocksdb_aware_bpf, loader, sched_bin, fill, readwhilewriting, custom_arguments,
  builtin_arguments, removed, cleanup_db, is_populated, populate_db, prepare, both_outputs,
  output_of, ran, run_readwhilewriting, start_custom_scheduler, start_builtin_scheduler, configs,
  if_populated, run_test, measured, Run, strip, parsed, benchmark, save, main_with, main,
}

module _ (os : Os) (script_dir project_root sched_dir : String) (lawful : IsOs os) where
  open os use {State, running, run, path_exists, remove_tree, make_dirs, write_file}

  module _ (A : ℕ → Type 0) where
    removed-Keeps : (there : Bool) → Keeps os A (removed os there)
    removed-Keeps true s only =
        keeps os A (remove_tree db_path) (lawful.remove_tree_none db_path) s only
    removed-Keeps false s only = only

    cleanup_db-Keeps : Keeps os A (cleanup_db os)
    unfolding cleanup_db
    cleanup_db-Keeps s only =
        and_then_keeps (Only os A) (λ there. removed os there >> make_dirs db_path)
          (path_exists db_path s)
          (keeps os A (path_exists db_path) (lawful.path_exists_none db_path) s only)
          (λ there t still.
            and_then_keeps (Only os A) (λ _. make_dirs db_path) (removed os there t)
              (removed-Keeps there t still)
              (λ _. keeps os A (make_dirs db_path) (lawful.make_dirs_none db_path)))

    populate_db-Keeps : Keeps os A (populate_db os script_dir project_root sched_dir)
    unfolding populate_db
    populate_db-Keeps s only =
        let args = fill script_dir project_root sched_dir in
        and_then_keeps (Only os A) (is_populated os script_dir project_root sched_dir)
          (run args 300 s) (keeps os A (run args 300) (lawful.run_none args 300) s only)
          (λ proc t still. still)

    run_readwhilewriting-Keeps :
        Keeps os A (run_readwhilewriting os script_dir project_root sched_dir)
    unfolding run_readwhilewriting
    run_readwhilewriting-Keeps s only =
        let args = readwhilewriting script_dir project_root sched_dir in
        handled_keeps (Only os A) (λ e. return (output_of os e, signalled 1))
          (ran os script_dir project_root sched_dir s)
          (and_then_keeps (Only os A) (both_outputs os script_dir project_root sched_dir)
            (run args 90 s) (keeps os A (run args 90) (lawful.run_none args 90) s only)
            (λ proc t still. still))
          (λ e t still. still)

    prepare-Keeps : Keeps os A (prepare os script_dir project_root sched_dir)
    unfolding prepare
    prepare-Keeps s only =
        and_then_keeps (Only os A) (λ _. populate_db os script_dir project_root sched_dir)
          (cleanup_db os s) (cleanup_db-Keeps s only) (λ _. populate_db-Keeps)

  pub benchmark-StartsNone :
      {M : Type 0}
      → (parse : String → Result M)
      → StartsNone os (benchmark os script_dir project_root sched_dir parse)
  unfolding benchmark
  benchmark-StartsNone parse =
      starts_none os (benchmark os script_dir project_root sched_dir parse) (λ A s only.
        and_then_keeps (Only os A) (parsed os script_dir project_root sched_dir parse)
          (run_readwhilewriting os script_dir project_root sched_dir s)
          (run_readwhilewriting-Keeps A s only) (λ (output, rc) t still. still))

  module _ (obeyed : IsObeyed os) (A : ℕ → Type 0) where
    start_custom_scheduler-IsStarter :
        IsStarter os A (some (start_custom_scheduler os script_dir project_root sched_dir))
    unfolding start_custom_scheduler
    start_custom_scheduler-IsStarter =
        let args = custom_arguments script_dir project_root sched_dir in
        let path = loader script_dir project_root sched_dir in
        if_there-IsStarter os lawful A obeyed (if_there os path (launch os args))
          (rocksdb_aware_bpf script_dir project_root sched_dir)
          (if_there-IsStarter os lawful A obeyed (launch os args) path
            (launch-IsStarter os lawful A obeyed args))

    start_builtin_scheduler-IsStarter :
        (name : String)
        → IsStarter os A (some (start_builtin_scheduler os script_dir project_root sched_dir name))
    unfolding start_builtin_scheduler
    start_builtin_scheduler-IsStarter name =
        let args = builtin_arguments script_dir project_root sched_dir name in
        if_there-IsStarter os lawful A obeyed (launch os args)
          (sched_bin script_dir project_root sched_dir name)
          (launch-IsStarter os lawful A obeyed args)

    configs_start :
        All (λ config. IsStarter os A config.1) (configs os script_dir project_root sched_dir)
    configs_start = (
      tt,
      (start_builtin_scheduler-IsStarter "scx_bpfland", (start_custom_scheduler-IsStarter, tt)),
    )

    module _ {R : Type 0} (bench : Io State (Option R)) (starts : StartsNone os bench) where
      if_populated-Keeps :
          (start : Option (Start os))
          → IsStarter os A start
          → (populated : Bool)
          → Keeps os A (if_populated os script_dir project_root sched_dir bench start populated)
      if_populated-Keeps start starter true s only =
          guarded-Keeps os lawful obeyed A bench start starts starter s only
      if_populated-Keeps start starter false s only = only

      run_test-Keeps :
          (start : Option (Start os))
          → IsStarter os A start
          → Keeps os A (run_test os script_dir project_root sched_dir bench start)
      unfolding run_test
      run_test-Keeps start starter s only =
          and_then_keeps (Only os A) (if_populated os script_dir project_root sched_dir bench start)
            (prepare os script_dir project_root sched_dir s) (prepare-Keeps A s only)
            (if_populated-Keeps start starter)

      measured-Keeps : Keeps os A (measured os script_dir project_root sched_dir bench)
      unfolding measured
      measured-Keeps =
          measure-Keeps os A (λ r. return tt) (λ r s only. only)
            (run_test os script_dir project_root sched_dir bench) run_test-Keeps
            (configs os script_dir project_root sched_dir) [] configs_start

      module _ (bench' : Io State (Option R))
          (agree : (p : ℕ) (s : State) → Only os (And os p A) s → bench s ≡ bench' s) where
        if_populated_agree :
            (start : Option (Start os))
            → IsStarter os A start
            → (populated : Bool) (t : State) → Only os A t
            → if_populated os script_dir project_root sched_dir bench start populated t
              ≡ if_populated os script_dir project_root sched_dir bench' start populated t
        if_populated_agree start starter true t still =
            guarded_agree os A bench bench' agree start t starter still
        if_populated_agree start starter false t still = refl

        run_test_agree :
            (start : Option (Start os)) (t : State)
            → IsStarter os A start
            → Only os A t
            → run_test os script_dir project_root sched_dir bench start t
              ≡ run_test os script_dir project_root sched_dir bench' start t
        unfolding run_test
        run_test_agree start t starter only =
            and_then_agree (Only os A)
              (if_populated os script_dir project_root sched_dir bench start)
              (if_populated os script_dir project_root sched_dir bench' start)
              (prepare os script_dir project_root sched_dir t) (prepare-Keeps A t only)
              (if_populated_agree start starter)

        measured_agree :
            (s : State)
            → Only os A s
            → measured os script_dir project_root sched_dir bench s
              ≡ measured os script_dir project_root sched_dir bench' s
        unfolding measured
        measured_agree s only =
            measure_agree os A (λ r. return tt) (λ r s only. only)
              (run_test os script_dir project_root sched_dir bench) run_test-Keeps
              (run_test os script_dir project_root sched_dir bench') run_test_agree
              (configs os script_dir project_root sched_dir) [] s configs_start only

  module _ {M : Type 0} (dumps : Dict String (Option M) → String) where
    save-Keeps :
        (A : ℕ → Type 0) (results : Dict String (Option (Run M)))
        → Keeps os A (save os script_dir project_root sched_dir dumps results)
    save-Keeps A results =
        let path = script_dir <> "/results/rocksdb_sched_results.json" in
        keeps os A (write_file path (dumps (strip results)))
          (lawful.write_none path (dumps (strip results)))

    -- What is measured does not matter, if it leaves no process behind.
    main_with-StartsNone :
        IsObeyed os
        → (bench : Io State (Option (Run M))) → StartsNone os bench
        → StartsNone os (main_with os script_dir project_root sched_dir dumps bench)
    unfolding main_with
    main_with-StartsNone obeyed bench starts =
        starts_none os (main_with os script_dir project_root sched_dir dumps bench) (λ A.
          require-Keeps os lawful A (db_bench script_dir project_root sched_dir)
            (measured os script_dir project_root sched_dir bench
              >>= save os script_dir project_root sched_dir dumps)
            (λ s only.
              and_then_keeps (Only os A) (save os script_dir project_root sched_dir dumps)
                (measured os script_dir project_root sched_dir bench s)
                (measured-Keeps obeyed A bench starts s only) (save-Keeps A)))

    -- If the user may signal the schedulers and the waits are not interrupted, `main` consults the benchmark only in states in which at most one process runs that did not run before: replaced by one that agrees with it in those states, it does not change `main`. The benchmark itself leaves no process behind.
    pub rocksdb_isolated :
        IsObeyed os
        → (bench bench' : Io State (Option (Run M))) (s : State) → StartsNone os bench
        → ((t : State) → IsIsolated os s t → bench t ≡ bench' t)
        → main_with os script_dir project_root sched_dir dumps bench s
          ≡ main_with os script_dir project_root sched_dir dumps bench' s
    unfolding main_with
    rocksdb_isolated obeyed bench bench' s starts agree =
        require_agree os lawful (λ r. running r s ≡ true)
          (db_bench script_dir project_root sched_dir)
          (measured os script_dir project_root sched_dir bench
            >>= save os script_dir project_root sched_dir dumps)
          (measured os script_dir project_root sched_dir bench'
            >>= save os script_dir project_root sched_dir dumps)
          s (λ r run. run)
          (λ t only. ap (and_then (save os script_dir project_root sched_dir dumps)) (
            measured_agree obeyed (λ r. running r s ≡ true) bench starts bench'
              (λ p u still. agree u (only-IsIsolated os p s u still)) t only))

-- If the user may signal the schedulers and the waits are not interrupted, a process that does not run when `main` starts does not run when it returns or raises.
pub running-rocksdb_main :
    (u : Unicode) (float : Float) (int : String → ℕ) (parse_float : String → Option float.F)
    (os : Os) (script_dir project_root sched_dir : String)
    (dumps : Dict String (Option (Metrics u float int parse_float)) → String)
    → IsOs os
    → IsObeyed os
    → (p : ℕ) (s : os.State) → os.running p s ≡ false
    → os.running p (main u float int parse_float os script_dir project_root sched_dir dumps s).1
      ≡ false
unfolding main
running-rocksdb_main u float int parse_float os script_dir project_root sched_dir dumps lawful
      obeyed p s =
    let parse = parse_db_bench_output u float int parse_float in
    still_ended (
      main_with-StartsNone os script_dir project_root sched_dir lawful dumps obeyed
        (benchmark os script_dir project_root sched_dir parse)
        (benchmark-StartsNone os script_dir project_root sched_dir lawful parse) p s)
