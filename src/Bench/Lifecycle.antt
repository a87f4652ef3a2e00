-- ===== src/Bench/Lifecycle.antt =====
-- What both benchmarks do with a scheduler's process: start it, measure beside it, stop it.
pub mod Stopping
pub mod Starting
pub mod Isolation
use schedcore.Prelude.{
  ℕ, String, Option, none, some, Bool, true, false, List, [], ◌∷◌, string_eq, if◌then◌else◌,
}
use schedcore.Prelude.Dict.{Dict, insert}
use schedcore.Prelude.Result.{raise, exit_one}
use schedcore.Bench.Io.{Io, return, lift, ◌>>=◌, ◌>>◌, except, finally}
use schedcore.Bench.Os.{Os, Signal, sigterm, sigkill}

module _ (os : Os) where
  open os use {State, path_exists, popen, poll_is_none, read_stderr, killpg, wait, sleep}

  abbrev pub signal_and_wait : ℕ → Signal → ℕ → Io State (Unit {0})
  signal_and_wait p sig timeout = do killpg p sig; wait p timeout

  -- The two attempts to end a process.
  unfoldable pub end_process : ℕ → Io State (Unit {0})
  end_process p =
      except (signal_and_wait p sigterm 5)
        (λ _. except (signal_and_wait p sigkill 3) (λ _. return tt))

  -- The process is there: the callers test it.
  unfoldable pub stop_scheduler : ℕ → Io State (Unit {0})
  unfolding end_process
  stop_scheduler p = do alive ← poll_is_none p; if alive then end_process p else return tt; sleep 2

  abbrev pub if_alive : ℕ → Bool → Io State (Option ℕ)
  if_alive p alive = if alive then return (some p) else (do read_stderr p; return none)

  -- From `Popen` to the end of both functions that start a scheduler.
  unfoldable pub launch : List String → Io State (Option ℕ)
  launch args = do p ← popen args; sleep 3; alive ← poll_is_none p; if_alive p alive

  abbrev pub Start : Type 0
  Start = Io State (Option ℕ)

  abbrev pub chosen_start : Start → Bool → Start
  chosen_start start there = if there then start else return none

  -- `if not os.path.exists(path): return None`, in front of a start
  abbrev pub if_there : String → Start → Start
  if_there path start = path_exists path >>= chosen_start start

  module _ {R : Type 0} where
    abbrev pub or_exit : Io State R → Bool → Io State R
    or_exit action there = if there then action else lift (raise exit_one)

    -- The start of `main`: without the program at `path` it ends with status 1.
    abbrev pub require : String → Io State R → Io State R
    require path action = path_exists path >>= or_exit action

    abbrev pub beside : Io State (Option R) → Option ℕ → Io State (Option R)
    beside bench none = return none
    beside bench (some p) = finally bench (stop_scheduler p)

    -- The `try` of `run_test`. Until `start_fn` returned a process, `sched_proc` is `None`, and the
    -- `finally` does nothing.
    unfoldable pub guarded : Io State (Option R) → Option Start → Io State (Option R)
    unfolding stop_scheduler
    guarded bench none = bench
    guarded bench (some start) = do proc ← start; beside bench proc

    -- The loop of `main` over the configurations, with what it prints of a result.
    unfoldable pub measure :
        (Option Start → Io State (Option R))
        → (Option R → Io State (Unit {0}))
        → List (String × Option Start)
        → Dict String (Option R)
        → Io State (Dict String (Option R))
    measure run_test report [] results = return results
    measure run_test report ((label, start_fn) ∷ configs) results = do
      result ← run_test start_fn
      report result
      measure run_test report configs (insert label result results)
