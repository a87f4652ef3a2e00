-- ===== src/Profiler/Kernel.antt =====
-- The BPF program that pipeline/stage1c_dynamic_profiler.py loads (`BPF_PROGRAM`). A map of BCC is
-- a dict of at most 4096 entries: an update that finds it full fails and is ignored, as in the
-- program. Clock readings are u64, so a difference wraps around.
pub mod Accounting
pub mod Filter
use schedcore.Prelude.{
  ℕ, ◌+◌, ◌-◌, ◌%◌, ◌^◌, String, Option, none, some, Bool, true, false, List, [], ◌∷◌, length, ltb,
  ◌==◌, contains, ◌||◌, nat_eq, if◌then◌else◌,
}
use schedcore.Prelude.Word.{wrap, sub64}
use schedcore.Prelude.Dict.{Dict, lookup, insert, has_key}

pub record ThreadMetrics : Type 0 where
  pub total_run_ns : ℕ
  pub total_sleep_ns : ℕ
  pub num_wakeups : ℕ
  pub max_run_ns : ℕ
  pub network_syscalls : ℕ
  pub disk_syscalls : ℕ
  pub sync_syscalls : ℕ
  pub last_switch_ns : ℕ
  pub tgid : ℕ
  pub comm : String

abbrev pub Metrics : Type 0
Metrics = Dict ℕ ThreadMetrics

abbrev pub max_entries : ℕ
max_entries = 4096

-- `metrics.update(&pid, &value)`
unfoldable pub update : ℕ → ThreadMetrics → Metrics → Metrics
update pid v m =
    if has_key pid m
    then insert pid v m
    else if ltb (length m) max_entries
    then insert pid v m
    else m

-- The state: `filter_pid` (0 for no filter) and the map.
pub record Tracer : Type 0 where
  pub filter_pid : ℕ
  pub metrics : Metrics

unfoldable pub should_trace : Tracer → ℕ → Bool
should_trace s tgid = if s.filter_pid == 0 then true else tgid == s.filter_pid

-- The run that ends: `prev` was on the CPU since `last_switch_ns`.
unfoldable pub account_run : ℕ → ThreadMetrics → ThreadMetrics
account_run now m =
    if ltb 0 m.last_switch_ns
    then (let run_ns = sub64 now m.last_switch_ns in
        record m {
          total_run_ns = wrap (m.total_run_ns + run_ns);
          max_run_ns = if ltb m.max_run_ns run_ns then run_ns else m.max_run_ns;
        })
    else m

abbrev pub new_metrics : ℕ → ℕ → String → ThreadMetrics
new_metrics now tgid comm = record {
  total_run_ns = 0;
  total_sleep_ns = 0;
  num_wakeups = 0;
  max_run_ns = 0;
  network_syscalls = 0;
  disk_syscalls = 0;
  sync_syscalls = 0;
  last_switch_ns = now;
  tgid = tgid;
  comm = comm;
}

-- Writing through the pointer that `metrics.lookup` returned changes that entry alone.
abbrev modify : ℕ → (ThreadMetrics → ThreadMetrics) → Option ThreadMetrics → Metrics → Metrics
modify pid f none m = m
modify pid f (some v) m = insert pid (f v) m

unfoldable pub switch_out : ℕ → ℕ → Tracer → Tracer
unfolding account_run
switch_out now prev_pid s =
    if ltb 0 prev_pid
    then record s {
      metrics = modify prev_pid (account_run now) (lookup prev_pid s.metrics) s.metrics;
    }
    else s

abbrev enter : ℕ → ℕ → ℕ → String → Option ThreadMetrics → Tracer → Tracer
enter now next_pid tgid comm (some v) s = record s {
  metrics = insert next_pid (record v { last_switch_ns = now }) s.metrics;
}
enter now next_pid tgid comm none s =
    if should_trace s tgid
    then record s { metrics = update next_pid (new_metrics now tgid comm) s.metrics }
    else s

unfoldable pub switch_in : ℕ → ℕ → ℕ → String → Tracer → Tracer
unfolding should_trace update
switch_in now next_pid tgid comm s =
    if ltb 0 next_pid then enter now next_pid tgid comm (lookup next_pid s.metrics) s else s

-- The tracepoint sched_switch. `tgid` and `comm` are those of the current task, which the helpers
-- `bpf_get_current_pid_tgid` and `bpf_get_current_comm` return.
unfoldable pub sched_switch : ℕ → ℕ → ℕ → ℕ → String → Tracer → Tracer
unfolding switch_out switch_in
sched_switch now prev_pid next_pid tgid comm s =
    switch_in now next_pid tgid comm (switch_out now prev_pid s)

unfoldable pub account_wakeup : ℕ → ThreadMetrics → ThreadMetrics
account_wakeup now m =
    let woken = record m { num_wakeups = wrap (m.num_wakeups + 1) } in
    if ltb 0 m.last_switch_ns
    then record woken { total_sleep_ns = wrap (m.total_sleep_ns + sub64 now m.last_switch_ns) }
    else woken

unfoldable pub sched_wakeup : ℕ → ℕ → Tracer → Tracer
unfolding account_wakeup
sched_wakeup now pid s = record s {
  metrics = modify pid (account_wakeup now) (lookup pid s.metrics) s.metrics;
}

pub data Syscall : Type 0 where
  network disk sync other : Syscall

-- The system calls by their x86_64 numbers.
abbrev network_ids : List ℕ
network_ids = 232 ∷ 281 ∷ 43 ∷ 42 ∷ 44 ∷ 45 ∷ 46 ∷ 47 ∷ 23 ∷ 7 ∷ 271 ∷ []

abbrev disk_ids : List ℕ
disk_ids = 17 ∷ 18 ∷ 74 ∷ 75 ∷ 162 ∷ 209 ∷ 426 ∷ []

abbrev sync_ids : List ℕ
sync_ids = 202 ∷ 35 ∷ 230 ∷ []

unfoldable pub syscall_kind : ℕ → Syscall
syscall_kind id =
    if contains network_ids id
    then network
    else if contains disk_ids id
    then disk
    else if contains sync_ids id
    then sync
    else other

unfoldable pub count_syscall : Syscall → ThreadMetrics → ThreadMetrics
count_syscall network m = record m { network_syscalls = wrap (m.network_syscalls + 1) }
count_syscall disk m = record m { disk_syscalls = wrap (m.disk_syscalls + 1) }
count_syscall sync m = record m { sync_syscalls = wrap (m.sync_syscalls + 1) }
count_syscall other m = m

unfoldable pub sys_enter : ℕ → ℕ → ℕ → Tracer → Tracer
unfolding should_trace syscall_kind count_syscall
sys_enter pid tgid id s =
    if should_trace s tgid
    then record s {
      metrics = modify pid (count_syscall (syscall_kind id)) (lookup pid s.metrics) s.metrics;
    }
    else s

-- An event of the kernel, and what the program does on it.
pub data Event : Type 0 where
  switch : ℕ → ℕ → ℕ → ℕ → String → Event
  wakeup : ℕ → ℕ → Event
  syscall : ℕ → ℕ → ℕ → Event

unfoldable pub handle : Event → Tracer → Tracer
handle (switch now prev next tgid comm) s = sched_switch now prev next tgid comm s
handle (wakeup now pid) s = sched_wakeup now pid s
handle (syscall pid tgid id) s = sys_enter pid tgid id s

unfoldable pub trace : List Event → Tracer → Tracer
trace [] s = s
trace (e ∷ es) s = trace es (handle e s)
