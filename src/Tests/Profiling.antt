-- ===== src/Tests/Profiling.antt =====
-- stage1c_dynamic_profiler.py at concrete inputs.
use schedcore.Prelude.{
  ℕ, true, String, none, some, List, [], ◌∷◌, ◌≡◌, refl, arith, nat_eq, string_eq,
}
use schedcore.Prelude.Dict.{has_key, insert, lookup}
use schedcore.Prelude.Sorting.{any}
use schedcore.Prelude.Float.Fixed.{fixed, fixed-IsIeee}
use schedcore.Profiler.Kernel.{
  sched_wakeup, sched_switch, switch_in, switch_out, should_trace, Event, ThreadMetrics, Tracer,
  switch, wakeup, new_metrics, handle, trace,
}
use schedcore.Profiler.Kernel.Accounting.{entry, entry_after, entry-handle, sleep_includes_run}
use schedcore.Profiler.Kernel.Filter.{comes_from, trace-origin}
use schedcore.Profiler.Classify.{classify_thread}
use schedcore.Profiler.Classify.Exact.{role_of, is_background_work, classify_thread_exact}
use schedcore.Profiler.Build.{ThreadData, build_manifest}
use schedcore.Prelude.Result.{raise, exit_one}
use schedcore.Profiler.Main.{Args, collected, profile}
use schedcore.Profiler.Build.Groups.{is_entry, is_profiled, build_manifest-entries}

-- A tracer of process 7 that knows its thread 8.
abbrev tracer : Tracer
tracer = record { filter_pid = 7; metrics = (8, new_metrics 100 7 "worker") ∷ [] }

entry-handle_example :
    entry 8 (handle (switch 250 8 9 7 "worker") tracer)
    ≡ entry_after 8 (switch 250 8 9 7 "worker") tracer (entry 8 tracer)
entry-handle_example = entry-handle 8 (switch 250 8 9 7 "worker") tracer

-- The thread runs for 50 ns and then waits for 40 ns, but 90 ns are counted as sleep.
sleep_includes_run_example :
    let after =
      trace (switch 200 9 8 7 "other" ∷ switch 250 8 9 7 "worker" ∷ wakeup 290 8 ∷ []) tracer in
    (w : ThreadMetrics) × (entry 8 after ≡ some w) × (w.total_run_ns ≡ 50) × (w.total_sleep_ns ≡ 90)
unfolding lookup nat_eq
sleep_includes_run_example =
    sleep_includes_run 8 9 7 7 200 250 290 "other" "worker" tracer (new_metrics 100 7 "worker")
      (omega arith) (omega arith) (omega arith) (omega arith) (omega arith) (omega arith)
      (omega arith) (omega arith) refl

-- Thread 9 is of process 5, and gets the process and the name of thread 8, which it follows.
trace-origin_example :
    comes_from 7 9 (switch 250 8 9 7 "worker" ∷ []) (new_metrics 250 7 "worker") none ≡ true
unfolding trace handle sched_switch switch_in switch_out should_trace lookup nat_eq insert has_key
trace-origin_example =
    trace-origin (switch 250 8 9 7 "worker" ∷ []) 9 tracer (new_metrics 250 7 "worker") refl

classify_thread_exact_example :
    (classify_thread fixed "rocksdb:low" 60000000 10000000 10 9000000 0 80 3).role
    ≡ role_of (is_background_work 60000000 10000000 10 0 80)
classify_thread_exact_example =
    classify_thread_exact fixed fixed-IsIeee "rocksdb:low" 60000000 10000000 10 9000000 0 80 3
      (omega arith) (omega arith)

abbrev pub profiled : String → String → ThreadData
profiled comm role = record {
  tid = 1;
  tgid = 1;
  comm = comm;
  role = role;
  pattern = "compaction";
  reason = "";
}

build_manifest-entries_example :
    let tds = profiled "rocksdb:low0" "background" ∷ profiled "rocksdb:low1" "background" ∷ [] in
    any (is_entry "background" "rocksdb:low") (build_manifest tds "rocksdb" "").threads
    ≡ any (is_profiled "background" "rocksdb:low") tds
build_manifest-entries_example =
    build_manifest-entries "background" "rocksdb:low"
      (profiled "rocksdb:low0" "background" ∷ profiled "rocksdb:low1" "background" ∷ []) "rocksdb"
      ""

abbrev args : Args
args = record { pid = 7; comm = ""; app_name = ""; source_path = "/src" }

-- A thread of process 7 runs and is woken; a thread of process 6 is left out.
abbrev kernel_events : List Event
kernel_events =
    switch 100 0 8 7 "worker"
    ∷ switch 200 8 9 6 "other"
    ∷ wakeup 290 8
    ∷ switch 300 9 8 7 "worker"
    ∷ []

abbrev tids : List ThreadData → List ℕ
tids [] = []
tids (td ∷ tds) = td.tid ∷ tids tds

collected_runs : tids (collected fixed args kernel_events) ≡ 8 ∷ []
unfolding collected handle sched_switch lookup sched_wakeup nat_eq has_key insert string_eq
collected_runs = refl

-- Nothing was collected.
profile_exits : profile fixed args true true [] ≡ raise exit_one
unfolding profile nat_eq
profile_exits = refl
