-- ===== src/Profiler/Classify.antt =====
-- `classify_thread` of pipeline/stage1c_dynamic_profiler.py.
pub mod Exact
use schedcore.Prelude.{
  ℕ, ◌+◌, String, ◌<>◌, Bool, true, false, ltb, ◌==◌, ◌&&◌, ◌||◌, nat_eq, if◌then◌else◌,
}
use schedcore.Prelude.Text.{show}
use schedcore.Prelude.Float.{Float}

-- `(role, pattern_name, reason)`
pub record Class : Type 0 where
  pub role : String
  pub pattern : String
  pub reason : String

module _ (float : Float) where
  open float use {F, ratio, lt, div, format}

  -- The part below the first test, where `total_ns` and `num_wakeups` are not 0.
  unfoldable pub classify_active : F → F → ℕ → ℕ → Class
  classify_active sleep_ratio avg_burst_ns network_syscalls disk_syscalls =
      let burst_ms = format 2 (div avg_burst_ns (ratio 1000000 1)) in
      let sleep = format 2 sleep_ratio in
      if lt (ratio 8 10) sleep_ratio
        && (ltb 100 network_syscalls && lt avg_burst_ns (ratio 1000000 1))
      then record {
        role = "foreground";
        pattern = "event_loop";
        reason =
            "sleep_ratio="
            <> (sleep
                <> (", network="
                    <> (show network_syscalls <> (", avg_burst=" <> (burst_ms <> "ms")))));
      }
      else if lt (ratio 5 10) sleep_ratio && ltb 50 network_syscalls
      then record {
        role = "foreground";
        pattern = "io_worker";
        reason = "sleep_ratio=" <> (sleep <> (", network=" <> show network_syscalls));
      }
      else if lt (ratio 2000000 1) avg_burst_ns && ltb 50 disk_syscalls
      then record {
        role = "background";
        pattern = "cpu_batch";
        reason = "avg_burst=" <> (burst_ms <> ("ms, disk=" <> show disk_syscalls));
      }
      else if lt (ratio 5000000 1) avg_burst_ns && lt sleep_ratio (ratio 3 10)
      then record {
        role = "background";
        pattern = "compaction";
        reason = "avg_burst=" <> (burst_ms <> ("ms, sleep_ratio=" <> sleep));
      }
      else record {
        role = "foreground";
        pattern = "unknown";
        reason = "sleep_ratio=" <> (sleep <> (", avg_burst=" <> (burst_ms <> "ms")));
      }

  unfoldable pub classify_thread : String → ℕ → ℕ → ℕ → ℕ → ℕ → ℕ → ℕ → Class
  unfolding classify_active
  classify_thread comm total_run_ns total_sleep_ns num_wakeups max_run_ns network_syscalls
        disk_syscalls sync_syscalls =
      let total_ns = total_run_ns + total_sleep_ns in
      if total_ns == 0 || num_wakeups == 0
      then record {
        role = "foreground";
        pattern = "idle";
        reason = "insufficient data (default to foreground for safety)";
      }
      else classify_active (ratio total_sleep_ns total_ns) (ratio total_run_ns num_wakeups)
          network_syscalls disk_syscalls
