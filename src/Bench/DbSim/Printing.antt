-- ===== src/Bench/DbSim/Printing.antt =====
-- workloads/db_sim/db_sim_bench.py: what `main` evaluates to print a result.
use schedcore.Prelude.{Option, none, some, if◌then◌else◌}
use schedcore.Prelude.Float.{Float}
use schedcore.Prelude.Json.{Json, truthy, subscript, formatted}
use schedcore.Prelude.Result.{Result, ok, ◌>>=◌}

unfoldable pub print_result : (float : Float) → Option (Json float.F) → Result (Unit {0})
print_result float none = ok tt
print_result float (some result) =
    if truthy float result
    then (do
      ql ← subscript result "query_latency_us"
      p99 ← subscript ql "p99"
      _ ← formatted float p99
      avg ← subscript ql "avg"
      _ ← formatted float avg
      ok tt)
    else ok tt
