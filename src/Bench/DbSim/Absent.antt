-- ===== src/Bench/DbSim/Absent.antt =====
-- A benchmark whose scheduler was not built, and what stage 4 makes of the results.
use schedcore.Prelude.{String, Option, none, some, false, [], ◌∷◌, ◌≡◌, refl, string_eq, inr}
use schedcore.Prelude.Dict.{Dict, insert}
use schedcore.Prelude.Float.{Float}
use schedcore.Prelude.Json.{Json, object, saved}
use schedcore.Prelude.Result.{ok, raise, attribute_error}
use schedcore.Bench.Io.{Io}
use schedcore.Bench.Os.{Os}
use schedcore.Bench.Lifecycle.{guarded, measure}
use schedcore.Bench.DbSim.Printing.{print_result}
use schedcore.Bench.DbSim.{db_aware_bpf, start_custom_scheduler, run_test, measured}
use schedcore.Validate.DbSim.{parse_db_sim}
use schedcore.Validate.DbSim.Saved.{parse_db_sim-failed}

module _ (os : Os) (float : Float) (loads : String → Option (Json float.F))
    (dumps : Json float.F → String) (script_dir project_root : String) where
  open os use {State, path_exists}

  abbrev Absent : Type 0
  Absent = (t : State) → path_exists (db_aware_bpf script_dir project_root) t ≡ (ok false, t)

  run_test-absent :
      Absent
      → (bench : Io State (Option (Json float.F))) (t : State)
      → run_test os float loads dumps script_dir project_root bench
          (some (start_custom_scheduler os float loads dumps script_dir project_root))
          t
        ≡ (ok none, t)
  unfolding run_test guarded start_custom_scheduler
  run_test-absent absent bench t = rw (absent t) refl

  measured-absent :
      Absent
      → (bench : Io State (Option (Json float.F))) (r : Option (Json float.F)) (s t : State)
      → bench s ≡ (ok r, t)
      → print_result float r ≡ ok tt
      → measured os float loads dumps script_dir project_root bench s
        ≡ (ok (("CFS (default)", r) ∷ ("db_aware", none) ∷ []), t)
  unfolding measure run_test guarded insert string_eq print_result
  measured-absent absent bench r s t ran printed =
      rw (ran, printed, run_test-absent absent bench t) refl

  -- If the BPF object of the scheduler is not there, and the benchmark without a scheduler returns a result that `main` can print, then `main` collects results for which `parse_db_sim` of stage 4 raises an `AttributeError`.
  pub parse_db_sim-absent :
      ((t : State) → path_exists (db_aware_bpf script_dir project_root) t ≡ (ok false, t))
      → (bench : Io State (Option (Json float.F))) (r : Option (Json float.F)) (s t : State)
      → bench s ≡ (ok r, t)
      → print_result float r ≡ ok tt
      → (all : Dict String (Option (Json float.F))) × (measured os float loads dumps script_dir
            project_root bench s
          ≡ (ok all, t))
        × (parse_db_sim float (some (object (saved all))) ≡ raise attribute_error)
  parse_db_sim-absent absent bench r s t ran printed = (
    ("CFS (default)", r) ∷ ("db_aware", none) ∷ [],
    measured-absent absent bench r s t ran printed,
    parse_db_sim-failed float r none (inr refl),
  )
