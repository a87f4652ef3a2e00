-- ===== src/Profiler/Classify/Exact.antt =====
-- The classification in whole numbers.
use schedcore.Prelude.{
  ℕ, ◌+◌, ◌*◌, ◌^◌, ◌<◌, ◌≡◌, String, Bool, ltb, ◌&&◌, ◌||◌, nat_eq, arith, not, if◌then◌else◌,
}
use schedcore.Prelude.Float.{Float, IsIeee}
use schedcore.Prelude.Float.Compare.{lt_ratio}
use schedcore.Profiler.Classify.{classify_active, classify_thread}

-- Is the thread background work? It may not be an I/O thread, which sleeps more than half of the
-- time and made more than 50 network calls. Its bursts last more than 2 ms on average with more
-- than 50 disk calls, or more than 5 ms while it sleeps less than 30% of the time.
abbrev pub is_active_background : ℕ → ℕ → ℕ → ℕ → ℕ → Bool
is_active_background run sleep wakeups network disk =
    not (ltb (5 * (run + sleep)) (sleep * 10) && ltb 50 network)
    && ((ltb (2000000 * wakeups) run && ltb 50 disk)
        || (ltb (5000000 * wakeups) run && ltb (sleep * 10) (3 * (run + sleep))))

abbrev pub is_background_work : ℕ → ℕ → ℕ → ℕ → ℕ → Bool
is_background_work run sleep wakeups network disk =
    (ltb 0 (run + sleep) && ltb 0 wakeups) && is_active_background run sleep wakeups network disk

abbrev pub role_of : Bool → String
role_of b = if b then "background" else "foreground"

module _ (float : Float) (laws : IsIeee float) where
  open float use {ratio, lt}

  active_role :
      (run sleep wakeups network disk : ℕ)
      → 0 < run + sleep
      → 0 < wakeups
      → (run + sleep) * 10 < 2 ^ 52
      → wakeups * 1000000 < 2 ^ 52
      → (classify_active float (ratio sleep (run + sleep)) (ratio run wakeups) network disk).role
        ≡ role_of (is_active_background run sleep wakeups network disk)
  unfolding classify_active
  active_role run sleep wakeups network disk ht hw small small' =
      let total = run + sleep in
      rw
        (
          lt_ratio float laws sleep total 8 10 ht (omega arith) (omega arith) small,
          lt_ratio float laws sleep total 5 10 ht (omega arith) (omega arith) small,
          lt_ratio float laws 1000000 1 run wakeups (omega arith) hw (omega arith) (omega arith),
          lt_ratio float laws run wakeups 2000000 1 hw (omega arith) (omega arith) (omega arith),
          lt_ratio float laws run wakeups 5000000 1 hw (omega arith) (omega arith) (omega arith),
          lt_ratio float laws 3 10 sleep total (omega arith) ht (omega arith) (omega arith),
        )
        (ground arith)

  -- The role is decided by the whole numbers alone, for totals that a double holds exactly.
  pub classify_thread_exact :
      (comm : String) (run sleep wakeups max_run network disk sync : ℕ)
      → (run + sleep) * 10 < 2 ^ 52
      → wakeups * 1000000 < 2 ^ 52
      → (classify_thread float comm run sleep wakeups max_run network disk sync).role
        ≡ role_of (is_background_work run sleep wakeups network disk)
  unfolding classify_thread
  classify_thread_exact comm run sleep wakeups max_run network disk sync h k =
      ground (arith, active_role run sleep wakeups network disk)
