-- ===== src/Profiler/Kernel/Filter.antt =====
-- Where an entry of the map has its process and its name from.
use mathlib.Core.Option
use schedcore.Prelude.{
  ℕ, ◌≡◌, refl, ◌∙◌, String, Option, none, some, Bool, true, List, [], ◌∷◌, ltb, arith,
  Option-cases, inl, inr, ◌==◌, nat_eq, ◌&&◌, ◌||◌, false, string_eq, sym, ap,
}
use schedcore.Prelude.Sorting.{any}
use schedcore.Prelude.Dict.{lookup}
use schedcore.Profiler.Kernel.{
  ThreadMetrics, Tracer, should_trace, account_run, switch_out, switch_in, sched_switch,
  account_wakeup, sched_wakeup, Syscall, network, disk, sync, other, count_syscall, syscall_kind,
  sys_enter, Event, switch, wakeup, syscall, handle, trace,
}
use schedcore.Profiler.Kernel.Accounting.{entry, entry_after, entry-handle}

-- The two entries name the same process and the same thread.
abbrev same_identity : ThreadMetrics → ThreadMetrics → Bool
same_identity w v = w.tgid == v.tgid && w.comm == v.comm

-- The event brings the thread onto the CPU, and the task that the helpers report at that moment
-- passes the filter and has the process and the name of the entry.
abbrev reports : ℕ → ℕ → ThreadMetrics → Event → Bool
reports filter pid v (switch now prev next tgid comm) =
    (ltb 0 next && pid == next)
    && ((filter == 0 || tgid == filter) && (tgid == v.tgid && comm == v.comm))
reports filter pid v (wakeup now woken) = false
reports filter pid v (syscall caller tgid id) = false

-- Where the entry has its process and its name from: the entry before, or else one of the events.
abbrev pub comes_from : ℕ → ℕ → List Event → ThreadMetrics → Option ThreadMetrics → Bool
comes_from filter pid es v (some w) = same_identity w v
comes_from filter pid es v none = any (reports filter pid v) es

filter-switch_out : (now prev : ℕ) (s : Tracer) → (switch_out now prev s).filter_pid ≡ s.filter_pid
unfolding switch_out
filter-switch_out now prev s = ground arith

filter-switch_in :
    (now next tgid : ℕ) (comm : String) (s : Tracer)
    → (switch_in now next tgid comm s).filter_pid ≡ s.filter_pid
unfolding switch_in
filter-switch_in now next tgid comm s = elim (Option-cases (lookup next s.metrics)) [
  | inl e ↦ rw e (ground arith)
  | inr (v, e) ↦ rw e (ground arith)
]

filter-handle : (e : Event) (s : Tracer) → (handle e s).filter_pid ≡ s.filter_pid
unfolding handle sched_switch sched_wakeup sys_enter
filter-handle (switch now prev next tgid comm) s =
    filter-switch_in now next tgid comm (switch_out now prev s) ∙ filter-switch_out now prev s
filter-handle (wakeup now woken) s = refl
filter-handle (syscall caller tgid id) s = ground arith

same-count_syscall :
    (kind : Syscall) (w v : ThreadMetrics)
    → same_identity (count_syscall kind w) v ≡ same_identity w v
unfolding count_syscall
same-count_syscall network w v = refl
same-count_syscall disk w v = refl
same-count_syscall sync w v = refl
same-count_syscall other w v = refl

same-account_run :
    (now : ℕ) (w v : ThreadMetrics) → same_identity (account_run now w) v ≡ same_identity w v
unfolding account_run
same-account_run now w v = ground arith

same-account_wakeup :
    (now : ℕ) (w v : ThreadMetrics) → same_identity (account_wakeup now w) v ≡ same_identity w v
unfolding account_wakeup
same-account_wakeup now w v = ground arith

module _ (pid : ℕ) (e : Event) (es : List Event) (v : ThreadMetrics) (s : Tracer) where
  -- The event changes the entry without changing its identity.
  comes_from-map :
      (f : ThreadMetrics → ThreadMetrics)
      → ((w : ThreadMetrics) → same_identity (f w) v ≡ same_identity w v)
      → (o : Option ThreadMetrics) → comes_from s.filter_pid pid es v (Option.map f o) ≡ true
      → comes_from s.filter_pid pid (e ∷ es) v o ≡ true
  comes_from-map f same none h = ground arith
  comes_from-map f same (some w) h = sym (same w) ∙ h

  comes_from-keep :
      (o : Option ThreadMetrics)
      → comes_from s.filter_pid pid es v o ≡ true
      → comes_from s.filter_pid pid (e ∷ es) v o ≡ true
  comes_from-keep none h = ground arith
  comes_from-keep (some w) h = h

comes_from-switch :
    (now prev next tgid pid : ℕ) (comm : String) (es : List Event) (v : ThreadMetrics) (s : Tracer)
    (o : Option ThreadMetrics)
    → comes_from s.filter_pid pid es v (entry_after pid (switch now prev next tgid comm) s o) ≡ true
    → comes_from s.filter_pid pid (switch now prev next tgid comm ∷ es) v o ≡ true
unfolding should_trace
comes_from-switch now prev next tgid pid comm es v s none h =
    ground (arith, filter-switch_out now prev s)
comes_from-switch now prev next tgid pid comm es v s (some w) h =
    ground (arith, same-account_run now w v)

comes_from-entry_after :
    (pid : ℕ) (e : Event) (es : List Event) (v : ThreadMetrics) (s : Tracer)
    (o : Option ThreadMetrics)
    → comes_from s.filter_pid pid es v (entry_after pid e s o) ≡ true
    → comes_from s.filter_pid pid (e ∷ es) v o ≡ true
comes_from-entry_after pid (switch now prev next tgid comm) es v s o h =
    comes_from-switch now prev next tgid pid comm es v s o h
comes_from-entry_after pid (wakeup now woken) es v s o h = ground (
  arith,
  comes_from-keep pid (wakeup now woken) es v s o,
  comes_from-map pid (wakeup now woken) es v s (account_wakeup now)
      (λ w. same-account_wakeup now w v) o,
)
comes_from-entry_after pid (syscall caller tgid id) es v s o h = ground (
  arith,
  comes_from-keep pid (syscall caller tgid id) es v s o,
  comes_from-map pid (syscall caller tgid id) es v s (count_syscall (syscall_kind id))
      (λ w. same-count_syscall (syscall_kind id) w v) o,
)

-- An entry of the map after any events has the process and the name of the entry that the thread had at the start; if it had none, they are those that the helpers reported, for the current task, at an event that brought the thread onto the CPU, and that process passes the filter. (That it is the process of the thread itself is not said, and it need not be.)
pub trace-origin :
    (es : List Event) (pid : ℕ) (s : Tracer) (v : ThreadMetrics)
    → entry pid (trace es s) ≡ some v
    → comes_from s.filter_pid pid es v (entry pid s) ≡ true
unfolding trace
trace-origin [] pid s v h = rw h (ground arith)
trace-origin (e ∷ es) pid s v h = comes_from-entry_after pid e es v s (entry pid s) (
    ap (comes_from s.filter_pid pid es v) (sym (entry-handle pid e s))
    ∙ ap (λ filter. comes_from filter pid es v (entry pid (handle e s))) (sym (filter-handle e s))
    ∙ trace-origin es pid (handle e s) v h)
