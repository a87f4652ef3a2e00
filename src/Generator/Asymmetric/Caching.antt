-- ===== src/Generator/Asymmetric/Caching.antt =====
-- What the cached class means for the maps and for preemption.
use schedcore.Prelude.{
  ℕ, ◌<◌, true, false, List, ◌∷◌, ◌≡◌, refl, ap, arith, ◌==◌, nat_eq, ◌⊎◌, inl, inr, Bool-cases,
  not, ◌||◌, if◌then◌else◌,
}
use schedcore.Generator.{Prefix}
use schedcore.Generator.Matching.Caching.{classify_task-stable}
use schedcore.Generator.Scx.{Scx, IsFifo}
use schedcore.Generator.Preemption.{is_victim, update_elem, max_cpus}
use schedcore.Generator.Preemption.Victim.{none_from, preempt-cases}
use schedcore.Generator.Asymmetric.{
  Host, Reading, classify, select_cpu, running, stopping, is_cpu_hog, is_foreground_class, limit_of,
}

module _ (scx : Scx) (bg fg : List Prefix) where
  -- A second call finds the class of the first one, in any state that has the cell.
  classify-again :
      (p : ℕ) (r r' : Reading) (h h' : Host scx)
      → r.can_create ≡ true
      → h'.cells p ≡ (classify scx bg fg p r h).1.cells p
      → (classify scx bg fg p r' h').0 ≡ (classify scx bg fg p r h).0
  unfolding classify
  classify-again p r r' h h' e same =
      let found : (p == p) ≡ true = ground arith in
      rw (same, found, e)
        (ap (λ t. t.0)
          (classify_task-stable bg fg (h.cells p) r.name r'.name r.buffer r'.buffer r'.can_create))

  flags-stopping :
      (p cpu : ℕ) (r : Reading) (h : Host scx)
      → (stopping scx bg fg p cpu r h).machine.bg_running ≡ (
          if is_cpu_hog (classify scx bg fg p r h).0
          then update_elem cpu 0 h.machine.bg_running
          else h.machine.bg_running)
  unfolding stopping classify
  flags-stopping p cpu r h = elim (Bool-cases (is_cpu_hog (classify scx bg fg p r h).0)) [
    | inl hog ↦ rw hog
    | inr other ↦ rw other
  ]

  after-running :
      (p cpu now : ℕ) (r : Reading) (h : Host scx)
      → let h' = running scx bg fg p cpu now r h in
        (h'.cells p ≡ (classify scx bg fg p r h).1.cells p)
        × (h'.machine.bg_running ≡ (
            if is_cpu_hog (classify scx bg fg p r h).0
            then update_elem cpu 1 h.machine.bg_running
            else h.machine.bg_running))
  unfolding running classify
  after-running p cpu now r h = elim (Bool-cases (is_cpu_hog (classify scx bg fg p r h).0)) [
    | inl hog ↦ rw hog (refl, refl)
    | inr other ↦ rw other (refl, refl)
  ]

  -- When the kernel can make a cell for the task as it starts on one of the first 256 CPUs, and the
  -- task then stops there, the flag of the CPU is cleared for a CPU hog and as before for another
  -- task, even if the task has changed its name in between.
  pub stopping-running :
      (p cpu now : ℕ) (r r' : Reading) (h : Host scx)
      → r.can_create ≡ true
      → cpu < max_cpus
      → (stopping scx bg fg p cpu r' (running scx bg fg p cpu now r h)).machine.bg_running cpu
        ≡ (if is_cpu_hog (classify scx bg fg p r h).0 then 0 else h.machine.bg_running cpu)
  unfolding update_elem
  stopping-running p cpu now r r' h e small =
      let h' = running scx bg fg p cpu now r h in
      let (cells, flags) = after-running p cpu now r h in
      let same_class = classify-again p r r' h h' e cells in
      elim (Bool-cases (is_cpu_hog (classify scx bg fg p r h).0)) [
        | inl hog ↦ rw (flags-stopping p cpu r' h', same_class, hog) (ground arith)
        | inr other ↦ rw (flags-stopping p cpu r' h', same_class, other, flags, other)
      ]

  -- Without an idle CPU a task asks for a preemption only if its class is foreground. It asks for the
  -- first CPU that passes the two tests, which is one of the machine's CPUs and of the first 256.
  pub select_cpu-preempts_hog :
      (fifo : IsFifo scx) (p cpu now : ℕ) (r : Reading) (h : Host scx)
      → let h' = (select_cpu scx bg fg p cpu false now r h).1 in
        let victim = is_victim scx now h.machine in
        let class = (classify scx bg fg p r h).0 in
        (((not (is_foreground_class class) || none_from (limit_of h.nr_cpus) 0 victim) ≡ true)
          × (scx.kicks h'.machine.kernel ≡ scx.kicks h.machine.kernel))
        ⊎ ((c : ℕ) × (is_foreground_class class ≡ true)
            × (c < h.nr_cpus)
            × (c < max_cpus)
            × (victim c ≡ true)
            × (none_from c 0 victim ≡ true)
            × (scx.kicks h'.machine.kernel ≡ c ∷ scx.kicks h.machine.kernel))
  unfolding select_cpu classify
  select_cpu-preempts_hog fifo p cpu now r h =
      elim (Bool-cases (is_foreground_class (classify scx bg fg p r h).0)) [
        | inr other ↦ inl (rw other, rw other)
        | inl front ↦ elim (preempt-cases scx fifo now (limit_of h.nr_cpus) 0 h.machine) [
          | inl (none_passes, e) ↦ inl (rw (front, none_passes), rw (front, e))
          | inr (c, d, same, small, v, first, e) ↦
              let at_zero : c ≡ d = omega arith in
              inr (
                c,
                front,
                ground arith,
                ground arith,
                v,
                (rw at_zero first),
                rw (front, e) (fifo.kicks-kick c h.machine.kernel),
              )
        ]
      ]
