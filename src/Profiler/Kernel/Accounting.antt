-- ===== src/Profiler/Kernel/Accounting.antt =====
-- The entry of one thread under the events of the kernel.
use mathlib.Core.Option
use schedcore.Prelude.{
  ℕ, ◌+◌, ◌-◌, ◌^◌, ◌<◌, ◌≤◌, ◌≡◌, ◌≢◌, ◌∙◌, String, Option, none, some, [], ◌∷◌, ◌&&◌, length, ltb,
  arith, Option-cases, inl, inr, ◌==◌, nat_eq, if◌then◌else◌,
}
use schedcore.Prelude.Dict.{lookup, lookup-insert, has_key_iff}
use schedcore.Profiler.Kernel.{
  ThreadMetrics, Metrics, modify, Tracer, max_entries, update, should_trace, account_run,
  new_metrics, switch_out, switch_in, sched_switch, account_wakeup, sched_wakeup, syscall_kind,
  count_syscall, sys_enter, Event, switch, wakeup, syscall, handle, trace,
}

abbrev pub entry : ℕ → Tracer → Option ThreadMetrics
entry pid s = lookup pid s.metrics

lookup-modify :
    (f : ThreadMetrics → ThreadMetrics) (pid j : ℕ) (m : Metrics)
    → lookup j (modify pid f (lookup pid m) m)
      ≡ (if j == pid then Option.map f (lookup j m) else lookup j m)
lookup-modify f pid j m = elim (Option-cases (lookup pid m)) [
  | inl e ↦ rw e (ground arith)
  | inr (v, e) ↦ rw e (ground (arith, lookup-insert j pid (f v) m))
]

lookup-update :
    (pid j : ℕ) (v : ThreadMetrics) (m : Metrics)
    → lookup j m ≡ none
    → lookup pid (update j v m)
      ≡ (if pid == j && ltb (length m) max_entries then some v else lookup pid m)
unfolding update
lookup-update pid j v m h = ground (arith, lookup-insert pid j v m, has_key_iff j m)

entry-switch_out :
    (now prev pid : ℕ) (s : Tracer)
    → entry pid (switch_out now prev s) ≡ (
        if ltb 0 prev && pid == prev
        then Option.map (account_run now) (entry pid s)
        else entry pid s)
unfolding switch_out
entry-switch_out now prev pid s = ground (arith, lookup-modify (account_run now) prev pid s.metrics)

-- What an event that brings the thread onto the CPU makes of its entry.
abbrev pub entered : ℕ → ℕ → String → Tracer → Option ThreadMetrics → Option ThreadMetrics
entered now tgid comm s (some v) = some (record v { last_switch_ns = now })
entered now tgid comm s none =
    if should_trace s tgid && ltb (length s.metrics) max_entries
    then some (new_metrics now tgid comm)
    else none

entry-switch_in :
    (now next tgid pid : ℕ) (comm : String) (s : Tracer)
    → entry pid (switch_in now next tgid comm s)
      ≡ (if ltb 0 next && pid == next then entered now tgid comm s (entry pid s) else entry pid s)
unfolding switch_in
entry-switch_in now next tgid pid comm s = elim (Option-cases (lookup next s.metrics)) [
  | inl e ↦ rw e (ground (arith, lookup-update pid next (new_metrics now tgid comm) s.metrics e))
  | inr (v, e) ↦
      rw e (ground (arith, lookup-insert pid next (record v { last_switch_ns = now }) s.metrics))
]

entry-sched_wakeup :
    (now woken pid : ℕ) (s : Tracer)
    → entry pid (sched_wakeup now woken s)
      ≡ (if pid == woken then Option.map (account_wakeup now) (entry pid s) else entry pid s)
unfolding sched_wakeup
entry-sched_wakeup now woken pid s = lookup-modify (account_wakeup now) woken pid s.metrics

entry-sys_enter :
    (caller tgid id pid : ℕ) (s : Tracer)
    → entry pid (sys_enter caller tgid id s) ≡ (
        if should_trace s tgid && pid == caller
        then Option.map (count_syscall (syscall_kind id)) (entry pid s)
        else entry pid s)
unfolding sys_enter
entry-sys_enter caller tgid id pid s =
    ground (arith, lookup-modify (count_syscall (syscall_kind id)) caller pid s.metrics)

-- The effect of an event on the entry of one thread.
abbrev pub entry_after : ℕ → Event → Tracer → Option ThreadMetrics → Option ThreadMetrics
entry_after pid (switch now prev next tgid comm) s o =
    let out = if ltb 0 prev && pid == prev then Option.map (account_run now) o else o in
    if ltb 0 next && pid == next then entered now tgid comm (switch_out now prev s) out else out
entry_after pid (wakeup now woken) s o =
    if pid == woken then Option.map (account_wakeup now) o else o
entry_after pid (syscall caller tgid id) s o =
    if should_trace s tgid && pid == caller
    then Option.map (count_syscall (syscall_kind id)) o
    else o

-- The map follows each thread on its own: after an event the entry of a thread is the function of
-- its entry before that the event states, and an event that does not name it changes nothing.
pub entry-handle :
    (pid : ℕ) (e : Event) (s : Tracer) → entry pid (handle e s) ≡ entry_after pid e s (entry pid s)
unfolding handle sched_switch
entry-handle pid (switch now prev next tgid comm) s =
    entry-switch_in now next tgid pid comm (switch_out now prev s)
    ∙ rw (entry-switch_out now prev pid s)
entry-handle pid (wakeup now woken) s = entry-sched_wakeup now woken pid s
entry-handle pid (syscall caller tgid id) s = entry-sys_enter caller tgid id pid s

entry-woken :
    (pid now : ℕ) (s : Tracer) {v : ThreadMetrics}
    → entry pid s ≡ some v
    → entry pid (handle (wakeup now pid) s) ≡ some (account_wakeup now v)
entry-woken pid now s e = ground (arith, entry-handle pid (wakeup now pid) s)

module _ (pid other tgid : ℕ) (comm : String) (s : Tracer) {v : ThreadMetrics} where
  entry-in :
      (now : ℕ)
      → 0 < pid
      → other ≢ pid
      → entry pid s ≡ some v
      → entry pid (handle (switch now other pid tgid comm) s)
        ≡ some (record v { last_switch_ns = now })
  entry-in now h ne e = ground (arith, entry-handle pid (switch now other pid tgid comm) s)

  entry-out :
      (now : ℕ)
      → 0 < pid
      → other ≢ pid
      → entry pid s ≡ some v
      → entry pid (handle (switch now pid other tgid comm) s) ≡ some (account_run now v)
  entry-out now h ne e = ground (arith, entry-handle pid (switch now pid other tgid comm) s)

-- A known thread that runs from t0 to t1 and is woken at t2, in this order of the clock and with
-- counters that do not overflow, is charged t2 - t0 of sleep: the time that it ran counts as run
-- time and as sleep.
pub sleep_includes_run :
    (pid other tgid0 tgid1 t0 t1 t2 : ℕ) (comm0 comm1 : String) (s : Tracer) (v : ThreadMetrics)
    → 0 < pid
    → other ≢ pid
    → 0 < t0
    → t0 ≤ t1
    → t1 ≤ t2
    → t2 < 2 ^ 64
    → v.total_run_ns + (t1 - t0) < 2 ^ 64
    → v.total_sleep_ns + (t2 - t0) < 2 ^ 64
    → entry pid s ≡ some v
    → let after =
        trace
          (switch t0 other pid tgid0 comm0 ∷ switch t1 pid other tgid1 comm1 ∷ wakeup t2 pid ∷ [])
          s in
      (w : ThreadMetrics) × (entry pid after ≡ some w)
      × (w.total_run_ns ≡ v.total_run_ns + (t1 - t0))
      × (w.total_sleep_ns ≡ v.total_sleep_ns + (t2 - t0))
unfolding trace
sleep_includes_run pid other tgid0 tgid1 t0 t1 t2 comm0 comm1 s v h ne h0 h1 h2 small run sleep e =
    let v0 = record v { last_switch_ns = t0 } in
    let s0 = handle (switch t0 other pid tgid0 comm0) s in
    let s1 = handle (switch t1 pid other tgid1 comm1) s0 in
    let e0 = entry-in pid other tgid0 comm0 s t0 h ne e in
    let e1 = entry-out pid other tgid1 comm1 s0 t1 h ne e0 in
    (
      account_wakeup t2 (account_run t1 v0),
      entry-woken pid t2 s1 e1,
      unfold account_run account_wakeup in ground arith,
      unfold account_run account_wakeup in ground arith,
    )
