-- ===== src/Tests/Preempting.antt =====
-- The generated schedulers that preempt, at concrete inputs.
use Prim.Native.Char.{nul}
use schedcore.Prelude.{
  ℕ, ◌<◌, Bool, true, false, none, some, [], ◌∷◌, ◌≡◌, refl, arith, ltb, not, ◌||◌, ◌&&◌, ◌⊎◌,
  if◌then◌else◌, nat_eq,
}
use schedcore.Prelude.Word.{sub64}
use schedcore.Generator.{Prefix}
use schedcore.Generator.Scx.{Dsq}
use schedcore.Generator.Scx.Model.{queues, idle_queues, queues-IsFifo}
use schedcore.Generator.Preemption.{
  Machine, is_victim, select_cpu, running, stopping, update_elem, lookup_elem, max_cpus,
  bg_min_run_ns,
}
use schedcore.Generator.Preemption.Victim.{none_from, select_cpu-preempts}
use schedcore.Generator.Preemption.Tracking.{
  Running, Runs, Reached, with_task, is_busy, since_of, is_victim-exact,
}
use schedcore.Generator.Asymmetric
use schedcore.Generator.Asymmetric.{
  Host, Reading, classify, is_cpu_hog, is_foreground_class, limit_of,
}
use schedcore.Generator.Asymmetric.Caching.{stopping-running, select_cpu-preempts_hog}

-- Tasks from number 100 on are background tasks.
abbrev from_100 : ℕ → Bool
from_100 p = ltb 99 p

abbrev booted_machine : Machine queues
booted_machine = record { bg_running = λ c. 0; bg_start_ns = λ c. 0; kernel = idle_queues }

-- A background task started on CPU 3 after 1 ms.
abbrev busy_machine : Machine queues
busy_machine = running queues from_100 101 3 1000000 booted_machine

select_cpu-preempts_example :
    let r = select_cpu queues from_100 1 0 false 4000000 busy_machine in
    let victim = is_victim queues 4000000 busy_machine in
    (r.0 ≡ 0)
    × ((d : Dsq) → queues.queue d r.1.kernel ≡ queues.queue d busy_machine.kernel)
    × (r.1.bg_running ≡ busy_machine.bg_running)
    × (r.1.bg_start_ns ≡ busy_machine.bg_start_ns)
    × ((((from_100 1 || none_from max_cpus 0 victim) ≡ true)
          × (queues.kicks r.1.kernel ≡ queues.kicks busy_machine.kernel))
        ⊎ ((c : ℕ) × (from_100 1 ≡ false)
            × (c < max_cpus)
            × (victim c ≡ true)
            × (none_from c 0 victim ≡ true)
            × (queues.kicks r.1.kernel ≡ c ∷ queues.kicks busy_machine.kernel)))
select_cpu-preempts_example =
    select_cpu-preempts queues queues-IsFifo from_100 1 0 4000000 busy_machine

-- The foreground task 5 ran on CPU 3 before the background task that runs there now.
abbrev on_3 : ℕ → Running
on_3 =
    with_task 3 (some (true, 1000000))
      (with_task 3 none (with_task 3 (some (false, 0)) (λ c. none)))

abbrev agreeing : Runs
agreeing = (false, false) ∷ []

busy_machine-Reached : Reached queues on_3 agreeing busy_machine
unfolding stopping running nat_eq
busy_machine-Reached =
    Reached.started (with_task 3 none (with_task 3 (some (false, 0)) (λ c. none))) agreeing
      booted_machine from_100 101 3 1000000 refl
      (Reached.stopped (with_task 3 (some (false, 0)) (λ c. none)) [] booted_machine from_100 5 3 0
        false refl
        (Reached.started (λ c. none) [] booted_machine from_100 5 3 0 refl
          (Reached.booted booted_machine refl)))

is_victim-exact_example :
    is_victim queues 4000000 busy_machine 3
    ≡ (ltb 3 max_cpus && is_busy queues (on_3 3))
      && not (ltb (sub64 4000000 (since_of queues (on_3 3))) bg_min_run_ns)
is_victim-exact_example = is_victim-exact queues busy_machine-Reached (refl, tt) 4000000 3

-- A task that is renamed while it runs leaves the flag of its CPU behind.
stale_machine : Machine queues
stale_machine = stopping queues (λ p. false) 101 3 busy_machine

stale_flag : is_victim queues 4000000 stale_machine 3 ≡ true
unfolding stale_machine stopping running is_victim update_elem lookup_elem nat_eq
stale_flag = refl

abbrev hog : Prefix
hog = record { prefix = "sysbench"; length = some 8; name_pattern = "sysbench*" }

abbrev named : Reading
named = record { name = some "sysbench-cpu"; buffer = λ i. nul; can_create = true }

abbrev renamed : Reading
renamed = record { name = some "idle"; buffer = λ i. nul; can_create = true }

abbrev host : Host queues
host = record { machine = booted_machine; cells = λ p. none; nr_cpus = 8 }

stopping-running_example :
    (Asymmetric.stopping queues
        (hog ∷ [])
        []
        101
        3
        renamed
        (Asymmetric.running queues (hog ∷ []) [] 101 3 1000000 named host)).machine.bg_running
      3
    ≡ (if is_cpu_hog (classify queues (hog ∷ []) [] 101 named host).0 then 0 else 0)
stopping-running_example =
    stopping-running queues (hog ∷ []) [] 101 3 1000000 named renamed host refl (omega arith)

select_cpu-preempts_hog_example :
    let h' = (Asymmetric.select_cpu queues (hog ∷ []) [] 1 0 false 4000000 renamed host).1 in
    let victim = is_victim queues 4000000 host.machine in
    let class = (classify queues (hog ∷ []) [] 1 renamed host).0 in
    (((not (is_foreground_class class) || none_from (limit_of 8) 0 victim) ≡ true)
      × (queues.kicks h'.machine.kernel ≡ queues.kicks host.machine.kernel))
    ⊎ ((c : ℕ) × (is_foreground_class class ≡ true)
        × (c < 8)
        × (c < max_cpus)
        × (victim c ≡ true)
        × (none_from c 0 victim ≡ true)
        × (queues.kicks h'.machine.kernel ≡ c ∷ queues.kicks host.machine.kernel))
select_cpu-preempts_hog_example =
    select_cpu-preempts_hog queues (hog ∷ []) [] queues-IsFifo 1 0 4000000 renamed host
