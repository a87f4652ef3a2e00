-- ===== src/Generator/Preemption/Victim.antt =====
-- Which CPU a waking foreground task preempts.
use schedcore.Prelude.{
  ℕ, zero, suc, ◌+◌, ◌<◌, Bool, true, false, ◌∷◌, ◌≡◌, refl, arith, ◌⊎◌, inl, inr, Bool-cases, ◌||◌,
  if◌then◌else◌,
}
use schedcore.Generator.Scx.{Scx, Dsq, IsFifo}
use schedcore.Generator.Preemption.{Machine, is_victim, preempt, select_cpu, max_cpus}

-- None of `n` numbers from `i` on passes the test.
abbrev pub none_from : ℕ → ℕ → (ℕ → Bool) → Bool
none_from zero i test = true
none_from (suc n) i test = if test i then false else none_from n (suc i) test

module _ (scx : Scx) (fifo : IsFifo scx) where
  open scx use {queue, kicks}

  pub preempt-cases :
      (now n i : ℕ) (s : Machine scx)
      → ((none_from n i (is_victim scx now s) ≡ true) × (preempt scx now n i s ≡ s))
        ⊎ ((c : ℕ) × (d : ℕ) × (c ≡ i + d)
            × (d < n)
            × (is_victim scx now s c ≡ true)
            × (none_from d i (is_victim scx now s) ≡ true)
            × (preempt scx now n i s ≡ record s { kernel = scx.kick_cpu c s.kernel }))
  unfolding preempt
  preempt-cases now zero i s = inl (refl, refl)
  preempt-cases now (suc n) i s = elim (Bool-cases (is_victim scx now s i)) [
    | inl h ↦ inr (i, 0, omega arith, omega arith, h, refl, rw h)
    | inr h ↦ elim (preempt-cases now n (suc i) s) [
      | inl (e, f) ↦ inl (rw (h, e), rw (h, f))
      | inr (c, d, same, small, v, first, e) ↦
          inr (c, suc d, omega arith, omega arith, v, rw (h, first), rw (h, e))
    ]
  ]

  -- When no CPU is idle, a waking foreground task sends at most one preemption request, to the
  -- first CPU that passes the two tests, and none if no CPU passes; a background task sends none.
  -- The queues and both maps stay as they are, and the CPU that was proposed is returned.
  pub select_cpu-preempts :
      (is_background : ℕ → Bool) (p cpu now : ℕ) (s : Machine scx)
      → let r = select_cpu scx is_background p cpu false now s in
        let victim = is_victim scx now s in
        (r.0 ≡ cpu)
        × ((d : Dsq) → queue d r.1.kernel ≡ queue d s.kernel)
        × (r.1.bg_running ≡ s.bg_running)
        × (r.1.bg_start_ns ≡ s.bg_start_ns)
        × ((((is_background p || none_from max_cpus 0 victim) ≡ true)
              × (kicks r.1.kernel ≡ kicks s.kernel))
            ⊎ ((c : ℕ) × (is_background p ≡ false)
                × (c < max_cpus)
                × (victim c ≡ true)
                × (none_from c 0 victim ≡ true)
                × (kicks r.1.kernel ≡ c ∷ kicks s.kernel)))
  unfolding select_cpu
  select_cpu-preempts is_background p cpu now s = elim (Bool-cases (is_background p)) [
    | inl h ↦ rw h (refl, λ d. refl, refl, refl, inl (refl, refl))
    | inr h ↦ elim (preempt-cases now max_cpus 0 s) [
      | inl (none_passes, e) ↦ rw (h, e) (refl, λ d. refl, refl, refl, inl (none_passes, refl))
      | inr (c, d, same, small, v, first, e) ↦
          rw (h, e)
            (
              refl,
              λ d. fifo.queue-kick d c s.kernel,
              refl,
              refl,
              inr (
                c,
                refl,
                omega arith,
                v,
                (let at_zero : c ≡ d = omega arith in rw at_zero first),
                fifo.kicks-kick c s.kernel,
              ),
            )
    ]
  ]
