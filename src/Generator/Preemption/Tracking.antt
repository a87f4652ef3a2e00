-- ===== src/Generator/Preemption/Tracking.antt =====
-- What the two maps know about the tasks on the CPUs.
use schedcore.Prelude.{
  ℕ, zero, suc, ◌<◌, Bool, true, false, Option, none, some, ℕ_discrete, dec_lt, ◌≡◌, refl, sym, ap,
  arith, ◌==◌, nat_eq, inl, inr, Bool-cases, not, ltb, if◌then◌else◌, ◌&&◌, List, [], ◌∷◌, All,
}
use schedcore.Prelude.Word.{sub64}
use schedcore.Generator.Scx.{Scx, user}
use schedcore.Generator.Preemption.{
  Machine, lookup_elem, update_elem, is_victim, preempt, select_cpu, enqueue, dispatch, running,
  stopping, max_cpus, bg_min_run_ns, foreground_dsq,
}

-- What the classifier said of the task on a CPU when it came there, and the time of that.
abbrev pub Running : Type 0
Running = Option (Bool × ℕ)

abbrev pub with_task : ℕ → Running → (ℕ → Running) → ℕ → Running
with_task cpu t on c = if c == cpu then t else on c

-- The runs that have ended: what the classifier said at the start, and at the stop.
abbrev pub Runs : Type 0
Runs = List (Bool × Bool)

-- The classifier said the same at the start and at the stop of each of these runs: the task was not
-- renamed in between, and both times its name could be read.
abbrev pub AllAgree : Runs → Type 0
AllAgree = All (λ run. run.0 ≡ run.1)

module _ (scx : Scx) where
  abbrev pub is_busy : Running → Bool
  is_busy none = false
  is_busy (some (b, t)) = b

  -- What the kernel does: it starts a task on a CPU that has none, stops the task that is there, and
  -- calls the other callbacks at any time. Each callback reads the name of the task again, so it has
  -- a classifier of its own.
  pub data Reached : (ℕ → Running) → Runs → Machine scx → Type 0 where
    booted : (s : Machine scx) → (λ c. 0) ≡ s.bg_running → Reached (λ c. none) [] s
    started :
        (on : ℕ → Running) (runs : Runs) (s : Machine scx) (is_background : ℕ → Bool)
        (p cpu now : ℕ)
        → on cpu ≡ none
        → Reached on runs s
        → Reached
            (with_task cpu (some (is_background p, now)) on)
            runs
            (running scx is_background p cpu now s)
    stopped :
        (on : ℕ → Running) (runs : Runs) (s : Machine scx) (is_background : ℕ → Bool)
        (p cpu since : ℕ) (began : Bool)
        → on cpu ≡ some (began, since)
        → Reached on runs s
        → Reached
            (with_task cpu none on)
            ((began, is_background p) ∷ runs)
            (stopping scx is_background p cpu s)
    selected :
        (on : ℕ → Running) (runs : Runs) (s : Machine scx) (is_background : ℕ → Bool)
        (p cpu now : ℕ) (is_idle : Bool)
        → Reached on runs s
        → Reached on runs (select_cpu scx is_background p cpu is_idle now s).1
    queued :
        (on : ℕ → Running) (runs : Runs) (s : Machine scx) (is_background : ℕ → Bool) (p : ℕ)
        → Reached on runs s
        → Reached on runs (enqueue scx is_background p s)
    dispatched :
        (on : ℕ → Running) (runs : Runs) (s : Machine scx) (is_background : ℕ → Bool) (cpu : ℕ)
        → Reached on runs s
        → Reached on runs (dispatch scx is_background cpu s)

  abbrev pub since_of : Running → ℕ
  since_of none = 0
  since_of (some (b, since)) = since

  -- The entries of a CPU tell whether a task that was classified as background runs there, and since
  -- when.
  abbrev pub IsTracked : Running → ℕ → ℕ → Type 0
  IsTracked r flag begun =
      (flag ≡ (if is_busy r then 1 else 0)) × (is_busy r ≡ true → begun ≡ since_of r)

  running-IsTracked :
      (on : ℕ → Running) (is_background : ℕ → Bool) (s : Machine scx) (p cpu now c : ℕ)
      → c < max_cpus
      → on cpu ≡ none
      → IsTracked (on c) (s.bg_running c) (s.bg_start_ns c)
      → let s' = running scx is_background p cpu now s in
        IsTracked
          (with_task cpu (some (is_background p, now)) on c)
          (s'.bg_running c)
          (s'.bg_start_ns c)
  unfolding running update_elem
  running-IsTracked on is_background s p cpu now c small free h = elim (ℕ_discrete c cpu) [
    | yes e ↦ rw e (ground arith)
    | no n ↦ ground arith
  ]

  stopping-IsTracked :
      (on : ℕ → Running) (is_background : ℕ → Bool) (s : Machine scx) (p cpu since c : ℕ)
      (began : Bool)
      → c < max_cpus
      → on cpu ≡ some (began, since)
      → began ≡ is_background p
      → IsTracked (on c) (s.bg_running c) (s.bg_start_ns c)
      → let s' = stopping scx is_background p cpu s in
        IsTracked (with_task cpu none on c) (s'.bg_running c) (s'.bg_start_ns c)
  unfolding stopping update_elem
  stopping-IsTracked on is_background s p cpu since c began small busy agrees h =
      elim (ℕ_discrete c cpu) [
        | yes e ↦
            let known : IsTracked (some (began, since)) (s.bg_running cpu) (s.bg_start_ns cpu) =
              rw (e, busy) at h in
            rw e (ground arith)
        | no n ↦ ground arith
      ]

  -- The other callbacks leave the maps alone.
  abbrev HasMapsOf : Machine scx → Machine scx → Type 0
  HasMapsOf s s' = (s'.bg_running ≡ s.bg_running) × (s'.bg_start_ns ≡ s.bg_start_ns)

  preempt-maps : (now n i : ℕ) (s : Machine scx) → HasMapsOf s (preempt scx now n i s)
  unfolding preempt
  preempt-maps now zero i s = (refl, refl)
  preempt-maps now (suc n) i s = elim (Bool-cases (is_victim scx now s i)) [
    | inl h ↦ rw h (refl, refl)
    | inr h ↦ rw h (preempt-maps now n (suc i) s)
  ]

  select_cpu-maps :
      (is_background : ℕ → Bool) (p cpu now : ℕ) (is_idle : Bool) (s : Machine scx)
      → HasMapsOf s (select_cpu scx is_background p cpu is_idle now s).1
  unfolding select_cpu
  select_cpu-maps is_background p cpu now true s = (refl, refl)
  select_cpu-maps is_background p cpu now false s = elim (Bool-cases (is_background p)) [
    | inl h ↦ rw h (refl, refl)
    | inr h ↦ rw h (preempt-maps now max_cpus 0 s)
  ]

  enqueue-maps :
      (is_background : ℕ → Bool) (p : ℕ) (s : Machine scx)
      → HasMapsOf s (enqueue scx is_background p s)
  unfolding enqueue
  enqueue-maps is_background p s = elim (Bool-cases (is_background p)) [
    | inl h ↦ rw h (refl, refl)
    | inr h ↦ rw h (refl, refl)
  ]

  dispatch-maps :
      (is_background : ℕ → Bool) (cpu : ℕ) (s : Machine scx)
      → HasMapsOf s (dispatch scx is_background cpu s)
  unfolding dispatch
  dispatch-maps is_background cpu s =
      elim (Bool-cases (scx.move_to_local cpu (user foreground_dsq) s.kernel).0) [
        | inl h ↦ rw h (refl, refl)
        | inr h ↦ rw h (refl, refl)
      ]

  kept-IsTracked :
      (on : Running) (c : ℕ) (s s' : Machine scx)
      → HasMapsOf s s'
      → IsTracked on (s.bg_running c) (s.bg_start_ns c)
      → IsTracked on (s'.bg_running c) (s'.bg_start_ns c)
  kept-IsTracked on c s s' (same_flags, same_starts) h = rw (same_flags, same_starts) h

  Reached-IsTracked :
      {on : ℕ → Running} {runs : Runs} {s : Machine scx}
      → Reached on runs s
      → AllAgree runs
      → (c : ℕ) → c < max_cpus
      → IsTracked (on c) (s.bg_running c) (s.bg_start_ns c)
  Reached-IsTracked (booted s e) agree c small = (sym (ap (λ m. m c) e), λ h. cc)
  Reached-IsTracked (started on runs s is_background p cpu now free r) agree c small =
      running-IsTracked on is_background s p cpu now c small free
        (Reached-IsTracked r agree c small)
  Reached-IsTracked (stopped on runs s is_background p cpu since began busy r) (agrees, agree) c
        small =
      stopping-IsTracked on is_background s p cpu since c began small busy agrees
        (Reached-IsTracked r agree c small)
  Reached-IsTracked (selected on runs s is_background p cpu now is_idle r) agree c small =
      kept-IsTracked (on c) c s (select_cpu scx is_background p cpu is_idle now s).1
        (select_cpu-maps is_background p cpu now is_idle s) (Reached-IsTracked r agree c small)
  Reached-IsTracked (queued on runs s is_background p r) agree c small =
      kept-IsTracked (on c) c s (enqueue scx is_background p s) (enqueue-maps is_background p s)
        (Reached-IsTracked r agree c small)
  Reached-IsTracked (dispatched on runs s is_background cpu r) agree c small =
      kept-IsTracked (on c) c s (dispatch scx is_background cpu s)
        (dispatch-maps is_background cpu s) (Reached-IsTracked r agree c small)

  -- Names may change and reads may fail from callback to callback. In a state that was reached by runs at whose stop the classifier said the same as at their start, the scan takes a CPU for a victim exactly if it is one of the 256 that the maps cover, the task that runs there was classified as background when it started, and the clock minus the time of that start, modulo 2^64, is 2 ms or more.
  pub is_victim-exact :
      {on : ℕ → Running} {runs : Runs} {s : Machine scx}
      → Reached on runs s
      → AllAgree runs
      → (now c : ℕ)
      → is_victim scx now s c
        ≡ (ltb c max_cpus && is_busy (on c))
          && not (ltb (sub64 now (since_of (on c))) bg_min_run_ns)
  unfolding is_victim lookup_elem
  is_victim-exact {on = on} {s = s} r agree now c = elim (dec_lt c max_cpus) [
    | yes small ↦ ground (arith, Reached-IsTracked r agree c small)
    | no large ↦ ground arith
  ]
