-- ===== src/Bench/DbSim/Quiet.antt =====
-- The database simulation runs beside its own scheduler, and leaves none behind.
use schedcore.Prelude.{ℕ, String, ◌<>◌, Option, none, some, true, [], ◌≡◌, ap}
use schedcore.Prelude.Dict.{Dict}
use schedcore.Bench.Io.{Io, and_then, return, lift, ◌>>=◌, and_then_keeps, handled_keeps}
use schedcore.Bench.Os.{Os, IsOs, IsObeyed, StartsNone, Completed}
use schedcore.Prelude.Float.{Float}
use schedcore.Prelude.Json.{Json, object, saved}
use schedcore.Bench.DbSim.Printing.{print_result}
use schedcore.Bench.Lifecycle.{launch, Start, if_there}
use schedcore.Bench.Lifecycle.Starting.{
  Only, And, Keeps, IsStarter, keeps, starts_none, IsIsolated, only-IsIsolated, launch-IsStarter,
  if_there-IsStarter, require-Keeps, require_agree,
}
use schedcore.Bench.Lifecycle.Isolation.{guarded-Keeps, guarded_agree, measure-Keeps, measure_agree}
use schedcore.Bench.DbSim.{
  arguments, measured, save, parsed, ran, db_sim, db_aware_bpf, loader, command, run_db_sim,
  start_custom_scheduler, run_test, configs, main_with, main,
}

module _ (os : Os) (float : Float) (loads : String → Option (Json float.F))
    (dumps : Json float.F → String) (script_dir project_root : String) (lawful : IsOs os) where
  open os use {State, running, run, path_exists, write_file}

  abbrev bpf : String
  bpf = db_aware_bpf script_dir project_root

  abbrev loader_path : String
  loader_path = loader script_dir project_root

  abbrev launcher : Start os
  launcher = launch os (arguments os float loads dumps script_dir project_root)

  pub run_db_sim-StartsNone :
      StartsNone os (run_db_sim os float loads dumps script_dir project_root)
  unfolding run_db_sim
  run_db_sim-StartsNone =
      starts_none os (run_db_sim os float loads dumps script_dir project_root) (λ A s only.
        let args = command script_dir project_root in
        handled_keeps (Only os A) (λ _. return none)
          (ran os float loads dumps script_dir project_root s)
          (and_then_keeps (Only os A) (parsed os float loads dumps script_dir project_root)
            (run args 45 s) (keeps os A (run args 45) (lawful.run_none args 45) s only)
            (parsed-Keeps A))
          (λ e t still. still))
    where
      parsed-Keeps :
          (A : ℕ → Type 0) (proc : Completed)
          → Keeps os A (parsed os float loads dumps script_dir project_root proc)
      parsed-Keeps A proc t only = only

  module _ (obeyed : IsObeyed os) (A : ℕ → Type 0) where
    start_custom_scheduler-IsStarter :
        IsStarter os A (some (start_custom_scheduler os float loads dumps script_dir project_root))
    unfolding start_custom_scheduler
    start_custom_scheduler-IsStarter =
        if_there-IsStarter os lawful A obeyed (if_there os loader_path launcher) bpf (
          if_there-IsStarter os lawful A obeyed launcher loader_path (
            launch-IsStarter os lawful A obeyed
              (arguments os float loads dumps script_dir project_root)))

    module _ (bench : Io State (Option (Json float.F))) (starts : StartsNone os bench) where
      run_test-Keeps :
          (start : Option (Start os))
          → IsStarter os A start
          → Keeps os A (run_test os float loads dumps script_dir project_root bench start)
      unfolding run_test
      run_test-Keeps start = guarded-Keeps os lawful obeyed A bench start starts

      measured-Keeps : Keeps os A (measured os float loads dumps script_dir project_root bench)
      measured-Keeps =
          measure-Keeps os A (λ r. lift (print_result float r)) (λ r s only. only)
            (run_test os float loads dumps script_dir project_root bench) run_test-Keeps
            (configs os float loads dumps script_dir project_root) []
            (tt, (start_custom_scheduler-IsStarter, tt))

      saved-Keeps :
          (results : Dict String (Option (Json float.F)))
          → Keeps os A (save os float loads dumps script_dir project_root results)
      saved-Keeps results = keeps os A (save os float loads dumps script_dir project_root results) (
          lawful.write_none (script_dir <> "/results/db_sim_results.json")
            (dumps (object (saved results))))

      main_with-Keeps : Keeps os A (main_with os float loads dumps script_dir project_root bench)
      unfolding main_with
      main_with-Keeps =
          require-Keeps os lawful A (db_sim script_dir project_root)
            (measured os float loads dumps script_dir project_root bench
              >>= save os float loads dumps script_dir project_root)
            (λ s only.
              and_then_keeps (Only os A) (save os float loads dumps script_dir project_root)
                (measured os float loads dumps script_dir project_root bench s)
                (measured-Keeps s only) saved-Keeps)

      module _ (bench' : Io State (Option (Json float.F)))
          (agree : (p : ℕ) (s : State) → Only os (And os p A) s → bench s ≡ bench' s) where
        run_test_agree :
            (start : Option (Start os)) (t : State)
            → IsStarter os A start
            → Only os A t
            → run_test os float loads dumps script_dir project_root bench start t
              ≡ run_test os float loads dumps script_dir project_root bench' start t
        unfolding run_test
        run_test_agree start t = guarded_agree os A bench bench' agree start t

        measured_agree :
            (s : State)
            → Only os A s
            → measured os float loads dumps script_dir project_root bench s
              ≡ measured os float loads dumps script_dir project_root bench' s
        measured_agree s only =
            measure_agree os A (λ r. lift (print_result float r)) (λ r s only. only)
              (run_test os float loads dumps script_dir project_root bench) run_test-Keeps
              (run_test os float loads dumps script_dir project_root bench') run_test_agree
              (configs os float loads dumps script_dir project_root) [] s
              (tt, (start_custom_scheduler-IsStarter, tt)) only

        main_with_agree :
            (s : State)
            → Only os A s
            → main_with os float loads dumps script_dir project_root bench s
              ≡ main_with os float loads dumps script_dir project_root bench' s
        unfolding main_with
        main_with_agree s only =
            require_agree os lawful A (db_sim script_dir project_root)
              (measured os float loads dumps script_dir project_root bench
                >>= save os float loads dumps script_dir project_root)
              (measured os float loads dumps script_dir project_root bench'
                >>= save os float loads dumps script_dir project_root)
              s only
              (λ t still.
                ap (and_then (save os float loads dumps script_dir project_root))
                  (measured_agree t still))

  -- If the user may signal the scheduler and the waits are not interrupted, every process that runs when `main` returns or raises ran before.
  pub db_sim_main-StartsNone :
      IsObeyed os → StartsNone os (main os float loads dumps script_dir project_root)
  unfolding main
  db_sim_main-StartsNone obeyed =
      starts_none os (main os float loads dumps script_dir project_root) (λ A.
        main_with-Keeps obeyed A (run_db_sim os float loads dumps script_dir project_root)
          run_db_sim-StartsNone)

  -- If the user may signal the scheduler and the waits are not interrupted, `main` consults the benchmark only in states in which at most one process runs that did not run before: replaced by one that agrees with it in those states, it does not change `main`. The benchmark itself leaves no process behind.
  pub db_sim_isolated :
      IsObeyed os
      → (bench bench' : Io State (Option (Json float.F))) (s : State) → StartsNone os bench
      → ((t : State) → IsIsolated os s t → bench t ≡ bench' t)
      → main_with os float loads dumps script_dir project_root bench s
        ≡ main_with os float loads dumps script_dir project_root bench' s
  db_sim_isolated obeyed bench bench' s starts agree =
      main_with_agree obeyed (λ r. running r s ≡ true) bench starts bench'
        (λ p t only. agree t (only-IsIsolated os p s t only)) s (λ r run. run)
