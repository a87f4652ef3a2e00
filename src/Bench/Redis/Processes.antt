-- ===== src/Bench/Redis/Processes.antt =====
-- workloads/redis/archive/utils.py: the calls that stop processes, and their results.
use schedcore.Prelude.{ℕ, String, Bool, false, [], ◌∷◌, if◌then◌else◌}
use schedcore.Prelude.Split.{has_part}
use schedcore.Prelude.Result.{Exception, ok, raise, timeout_expired}
use schedcore.Bench.Io.{Io, return, ◌>>=◌, except}
use schedcore.Bench.Os.{Os, Completed, succeeded}

module _ (os : Os) where
  open os use {State, run}

  -- What `subprocess.run` of a command gives, with every `Exception` as a failure.
  abbrev exit_is_zero : Completed → Io State Bool
  exit_is_zero proc = return (succeeded proc.returncode)

  unfoldable pub stop_redis_gracefully : String → ℕ → Io State Bool
  stop_redis_gracefully redis_cli_path timeout =
      except (run (redis_cli_path ∷ "shutdown" ∷ "nosave" ∷ []) timeout >>= exit_is_zero)
        (λ e. return false)

  -- Both print which of two messages: the Boolean says whether processes were killed.
  unfoldable pub kill_redis_processes : ℕ → Io State Bool
  kill_redis_processes timeout =
      except (run ("pkill" ∷ "-f" ∷ "redis-server" ∷ []) timeout >>= exit_is_zero)
        (λ e. return false)

  unfoldable pub kill_scheduler_processes : ℕ → Io State Bool
  kill_scheduler_processes timeout =
      except (run ("sudo" ∷ "pkill" ∷ "-f" ∷ "scx_" ∷ []) timeout >>= exit_is_zero)
        (λ e. return false)

  -- `check=True` raises for a return code other than 0, which is caught, like a timeout.
  abbrev answered : Completed → Io State Bool
  answered proc = return (if succeeded proc.returncode then has_part "PONG" proc.stdout else false)

  abbrev timed_out : Exception → Io State Bool
  timed_out timeout_expired s = (ok false, s)
  timed_out e s = (raise e, s)

  unfoldable pub check_redis_running : String → Io State Bool
  unfolding has_part
  check_redis_running redis_cli_path =
      except (run (redis_cli_path ∷ "ping" ∷ []) 2 >>= answered) timed_out
