-- ===== src/Tests/Benching.antt =====
-- The benchmarks at concrete inputs: a host on which processes run until they are signalled.
use schedcore.Prelude.{
  not, ◌==◌, ℕ, String, Option, none, some, Bool, true, false, List, ◌≡◌, refl, ap, arith, ◌&&◌,
  if◌then◌else◌, nat_eq, string_eq, char_eq,
}
use schedcore.Prelude.Text.{take}
use schedcore.Prelude.Dict.{Dict}
use schedcore.Prelude.Float.Fixed.{fixed}
use schedcore.Prelude.Json.{Json, number, object, empty, entry, saved, at_key}
use schedcore.Prelude.Result.{ok, raise, attribute_error}
use schedcore.Bench.Io.{Io, return}
use schedcore.Bench.Os.{Os, Completed, exited}
use schedcore.Bench.Os.Model.{host, host-IsOs, host-IsObeyed, Host, quiet_host}
use schedcore.Bench.Lifecycle.{stop_scheduler}
use schedcore.Bench.Lifecycle.Stopping.{stop_scheduler-IsEnded, IsDenied, stop_scheduler-denied}
use schedcore.Bench.Rocksdb
use schedcore.Bench.Rocksdb.Output.{parse_db_bench_output}
use schedcore.Bench.Rocksdb.Quiet.{running-rocksdb_main, rocksdb_isolated}
use schedcore.Bench.DbSim.Printing.{print_result}
use schedcore.Bench.DbSim.{measured, run_db_sim}
use schedcore.Bench.DbSim.Absent.{parse_db_sim-absent}
use schedcore.Bench.Lifecycle.Starting.{IsIsolated}
use schedcore.Validate.DbSim.{Report, parse_db_sim}
use schedcore.Validate.DbSim.Saved.{parse_db_sim-saved, both, IsReport}
use schedcore.Tests.Data.{ascii}

abbrev J : Type 0
J = Json fixed.F

-- Every program ends at once and prints nothing.
abbrev answer : List String → Completed
answer args = record { returncode = exited 0; stdout = ""; stderr = "" }

abbrev free : Os
free = host true answer

abbrev denied : Os
denied = host false answer

-- A host on which the scheduler with the number 0 runs.
abbrev scheduling : Host
scheduling = record { alive = λ q. nat_test q; next = 1 }
  where
    nat_test : ℕ → Bool
    nat_test ℕ.zero = true
    nat_test (ℕ.suc n) = false

stop_scheduler-IsEnded_example :
    ((stop_scheduler free 0 scheduling).0 ≡ ok tt)
    × (free.running 0 (stop_scheduler free 0 scheduling).1 ≡ false)
stop_scheduler-IsEnded_example =
    stop_scheduler-IsEnded free (host-IsOs true answer) (host-IsObeyed answer) 0 scheduling

host-IsDenied : IsDenied denied 0
host-IsDenied = record {
  polled = λ s run. ap ok run;
  poll_keeps = λ s run. run;
  killpg_raises = λ sig s. refl;
  killpg_keeps = λ sig s run. run;
  sleep_keeps = λ seconds s run. run;
  sleep_ok = λ seconds s. refl;
}

stop_scheduler-denied_example :
    ((stop_scheduler denied 0 scheduling).0 ≡ ok tt)
    × (denied.running 0 (stop_scheduler denied 0 scheduling).1 ≡ true)
stop_scheduler-denied_example = stop_scheduler-denied denied 0 host-IsDenied scheduling refl

abbrev latencies : J
latencies = object (
    entry "avg" (number (fixed.ratio 21 1)) (
      entry "p50" (number (fixed.ratio 20 1))
        (entry "p99" (number (fixed.ratio 95 1)) (entry "max" (number (fixed.ratio 400 1)) empty))))

abbrev throughputs : J
throughputs = object (entry "ops_per_sec" (number (fixed.ratio 5000 1)) empty)

abbrev measured_values : J
measured_values =
    object (entry "query_latency_us" latencies (entry "compaction_throughput" throughputs empty))

abbrev loads : String → Option J
loads text = some measured_values

abbrev dumps : J → String
dumps value = ""

-- A benchmark that fails while two schedulers run.
abbrev alone : Io Host (Option J)
alone t = (ok (if t.alive 0 && t.alive 1 then none else some measured_values), t)

-- In an isolated state not both run.
one_scheduler :
    {V : Type 0}
    → (v : V) (t : Host) → IsIsolated free quiet_host t
    → return {S = Host} (some v) t ≡ (ok (if t.alive 0 && t.alive 1 then none else some v), t)
one_scheduler v t isolated =
    ap (λ r. (ok r, t))
      (unshared (t.alive 0) (t.alive 1)
        (λ run run'. absurd (omega (arith, isolated 0 1 run run' refl refl))))
  where
    unshared : (b c : Bool) → (b ≡ true → c ≡ true → ⊥) → some v ≡ (if b && c then none else some v)
    unshared true true apart = absurd (apart refl refl)
    unshared true false apart = refl
    unshared false c apart = refl

run_db_sim-alone :
    (t : Host)
    → IsIsolated free quiet_host t
    → run_db_sim free fixed loads dumps "/db_sim" "/repo" t ≡ alone t
unfolding run_db_sim
run_db_sim-alone t isolated = one_scheduler measured_values t isolated

abbrev report : Report fixed.F
report = record {
  throughput = number (fixed.ratio 5000 1);
  p50 = number (fixed.ratio 20 1);
  p99 = number (fixed.ratio 95 1);
  max = number (fixed.ratio 400 1);
}

measured-IsReport : IsReport fixed measured_values report
unfolding at_key string_eq
measured-IsReport = record {
  latencies = latencies;
  throughputs = throughputs;
  has_latencies = refl;
  has_throughputs = refl;
  has_ops = refl;
  has_p50 = refl;
  has_p99 = refl;
  has_max = refl;
}

parse_db_sim-saved_example :
    parse_db_sim fixed (some (both fixed (some measured_values) (some measured_values)))
    ≡ ok (some (record { baseline = report; custom = report }))
parse_db_sim-saved_example =
    parse_db_sim-saved fixed measured_values measured_values report report measured-IsReport
      measured-IsReport

-- A host without the BPF object.
abbrev unbuilt : Os
unbuilt = record free { path_exists = λ path t. (ok (not (path == "/db_sim/db_aware.bpf.o")), t) }

parse_db_sim-absent_example :
    (all : Dict String (Option J)) × (measured unbuilt fixed loads dumps "/db_sim" "/repo"
        (return (some measured_values))
        quiet_host
      ≡ (ok all, quiet_host))
    × (parse_db_sim fixed (some (object (saved all))) ≡ raise attribute_error)
unfolding print_result string_eq at_key
parse_db_sim-absent_example =
    parse_db_sim-absent unbuilt fixed loads dumps "/db_sim" "/repo" (λ t. refl)
      (return (some measured_values)) (some measured_values) quiet_host quiet_host refl refl

-- A text that db_bench prints, with the statistics of its reads.
abbrev output : String
output =
    "readwhilewriting :       5.250 micros/op 195312 ops/sec;\nrocksdb.db.get.micros P50 : 4.50 P99 : 18.25 COUNT : 3\nrocksdb.db.write.micros P50 : 9.00 P99 : 30.00\n"

abbrev int : String → ℕ
int text = if text == "195312" then 195312 else 0

abbrev parse_float : String → Option fixed.F
parse_float text =
    if text == "5.250"
    then some (fixed.ratio 525 100)
    else if text == "4.50"
    then some (fixed.ratio 450 100)
    else if text == "18.25"
    then some (fixed.ratio 1825 100)
    else none

parse_db_bench_output_runs :
    parse_db_bench_output ascii fixed int parse_float output
    ≡ ok (record {
      micros_per_op = some (fixed.ratio 525 100);
      ops_per_sec = some 195312;
      p50_us = some (fixed.ratio 450 100);
      p99_us = some (fixed.ratio 1825 100);
      p999_us = none;
      max_us = none;
    })
unfolding parse_db_bench_output char_eq string_eq take
parse_db_bench_output_runs = refl

running-rocksdb_main_example :
    free.running 0
      (Rocksdb.main ascii fixed int parse_float free "/rocksdb" "/repo" "/scxbin"
        (λ results. "")
        quiet_host).1
    ≡ false
running-rocksdb_main_example =
    running-rocksdb_main ascii fixed int parse_float free "/rocksdb" "/repo" "/scxbin"
      (λ results. "") (host-IsOs true answer) (host-IsObeyed answer) 0 quiet_host refl

abbrev tail_of : ℕ → Rocksdb.Run ℕ
tail_of n = record { metrics = n; raw_output_tail = "" }

rocksdb_isolated_example :
    Rocksdb.main_with free "/rocksdb" "/repo" "/scxbin"
      (λ results. "")
      (return (some (tail_of 5)))
      quiet_host
    ≡ Rocksdb.main_with free "/rocksdb" "/repo" "/scxbin"
        (λ results. "")
        (λ t. (ok (if t.alive 0 && t.alive 1 then none else some (tail_of 5)), t))
        quiet_host
rocksdb_isolated_example =
    rocksdb_isolated free "/rocksdb" "/repo" "/scxbin" (host-IsOs true answer) (λ results. "")
      (host-IsObeyed answer) (return (some (tail_of 5)))
      (λ t. (ok (if t.alive 0 && t.alive 1 then none else some (tail_of 5)), t)) quiet_host
      (λ q s run. run) (one_scheduler (tail_of 5))
