-- ===== src/Bench/DbSim.antt =====
-- workloads/db_sim/db_sim_bench.py: query latencies under the kernel's scheduler and under db_aware.
-- `loads` is `json.loads`, `none` where it raises or gives `None`, and `dumps` is the text that
-- `json.dump` writes.
pub mod Printing
pub mod Quiet
pub mod Absent
use schedcore.Prelude.{
  ℕ, ◌+◌, String, ◌<>◌, Option, none, some, Bool, true, false, List, [], ◌∷◌, if◌then◌else◌,
}
use schedcore.Prelude.Text.{show}
use schedcore.Prelude.Dict.{Dict}
use schedcore.Prelude.Result.{Result, raise, exit_one}
use schedcore.Bench.Io.{Io, return, lift, ◌>>=◌, ◌>>◌, except}
use schedcore.Bench.Os.{Os, Completed, succeeded}
use schedcore.Prelude.Float.{Float}
use schedcore.Prelude.Json.{Json, object, saved}
use schedcore.Bench.DbSim.Printing.{print_result}
use schedcore.Bench.Lifecycle.{launch, if_there, require, Start, guarded, measure}

abbrev query_threads : ℕ
query_threads = 8

abbrev compact_threads : ℕ
compact_threads = 24

abbrev duration : ℕ
duration = 15

abbrev sleep_us : ℕ
sleep_us = 2000

module _ (script_dir project_root : String) where
  abbrev pub db_sim : String
  db_sim = script_dir <> "/db_sim"

  abbrev pub db_aware_bpf : String
  db_aware_bpf = script_dir <> "/db_aware.bpf.o"

  abbrev pub loader : String
  loader = project_root <> "/bpf_loader/loader"

  abbrev pub command : List String
  command =
      db_sim
      ∷ "-q"
      ∷ show query_threads
      ∷ "-c"
      ∷ show compact_threads
      ∷ "-d"
      ∷ show duration
      ∷ "-s"
      ∷ show sleep_us
      ∷ []

module _ (os : Os) (float : Float) (loads : String → Option (Json float.F))
    (dumps : Json float.F → String) (script_dir project_root : String) where
  open os use {State, path_exists, run, write_file}

  abbrev pub J : Type 0
  J = Json float.F

  abbrev pub parsed : Completed → Io State (Option J)
  parsed proc = return (if succeeded proc.returncode then loads proc.stdout else none)

  abbrev pub ran : Io State (Option J)
  ran = do proc ← run (command script_dir project_root) (duration + 30); parsed proc

  unfoldable pub run_db_sim : Io State (Option J)
  run_db_sim = except ran (λ _. return none)

  -- The arguments of `Popen`.
  abbrev pub arguments : List String
  arguments = "sudo" ∷ loader script_dir project_root ∷ db_aware_bpf script_dir project_root ∷ []

  unfoldable pub start_custom_scheduler : Start os
  unfolding launch
  start_custom_scheduler =
      if_there os (db_aware_bpf script_dir project_root)
        (if_there os (loader script_dir project_root) (launch os arguments))

  unfoldable pub run_test : Io State (Option J) → Option (Start os) → Io State (Option J)
  unfolding guarded
  run_test bench start_fn = guarded os bench start_fn

  abbrev pub configs : List (String × Option (Start os))
  configs = ("CFS (default)", none) ∷ ("db_aware", some start_custom_scheduler) ∷ []

  abbrev pub save : Dict String (Option J) → Io State (Unit {0})
  save all_results =
      write_file (script_dir <> "/results/db_sim_results.json") (dumps (object (saved all_results)))

  abbrev pub measured : Io State (Option J) → Io State (Dict String (Option J))
  measured bench = measure os (run_test bench) (λ r. lift (print_result float r)) configs []

  -- `main`, with what is measured beside each scheduler.
  unfoldable pub main_with : Io State (Option J) → Io State (Unit {0})
  unfolding run_test measure print_result saved
  main_with bench = require os (db_sim script_dir project_root) (measured bench >>= save)

  unfoldable pub main : Io State (Unit {0})
  unfolding main_with run_db_sim
  main = main_with run_db_sim
