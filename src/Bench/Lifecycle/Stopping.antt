-- ===== src/Bench/Lifecycle/Stopping.antt =====
-- Whether `stop_scheduler` ends the scheduler.
use schedcore.Prelude.{if◌then◌else◌, ℕ, Bool, true, false, ◌≡◌, refl, inl, inr}
use schedcore.Prelude.Result.{
  Exception, Result, ok, raise, os_error, process_lookup_error, timeout_expired,
}
use schedcore.Bench.Io.{
  Io, return, and_then, except, ◌>>◌, and_then-ok, and_then-raise, handled-ok, handled-raise,
}
use schedcore.Bench.Os.{Os, IsOs, IsObeyed, Signal, sigterm, sigkill}
use schedcore.Bench.Lifecycle.{signal_and_wait, end_process, stop_scheduler}

-- What did not run before does not run afterwards.
pub still_ended :
    {before after : Bool} → (after ≡ true → before ≡ true) → before ≡ false → after ≡ false
still_ended {after = false} starts ended = refl
still_ended {after = true} starts ended = absurd (cc (starts refl))

module _ (os : Os) where
  open os use {State, running, poll_is_none, killpg, wait, sleep}

  -- An action returned, and the process has ended.
  abbrev IsEnded : ℕ → Result (Unit {0}) × State → Type 0
  IsEnded p x = (x.0 ≡ ok tt) × (running p x.1 ≡ false)

  module _ (lawful : IsOs os) (obeyed : IsObeyed os) where
    waited :
        (p timeout : ℕ) (s : State) → (wait p timeout s).0 ≡ ok tt → IsEnded p (wait p timeout s)
    waited p timeout s h = (h, lawful.wait_ended p timeout s h)

    kill-IsEnded :
        (p : ℕ) (s : State) → IsEnded p (except (signal_and_wait os p sigkill 3) (λ _. return tt) s)
    kill-IsEnded p s =
        let x = killpg p sigkill s in
        elim (obeyed.killpg_ok p sigkill s) [
          | inl h ↦
              rw
                (
                  and_then-ok (λ _. wait p 3) x tt h,
                  handled-ok (λ _. return tt) (wait p 3 x.1) tt (obeyed.sigkill_ends p s h),
                )
                (waited p 3 x.1 (obeyed.sigkill_ends p s h))
          | inr (h, ended) ↦
              rw (and_then-raise (λ _. wait p 3) x process_lookup_error h) (refl, ended)
        ]

    -- The first attempt, with a second one behind it that works.
    term-IsEnded :
        (p : ℕ) (handler : Exception → Io State (Unit {0})) (s : State)
        → ((e : Exception) (t : State) → IsEnded p (handler e t))
        → IsEnded p (except (signal_and_wait os p sigterm 5) handler s)
    term-IsEnded p handler s second =
        let x = killpg p sigterm s in
        elim (obeyed.killpg_ok p sigterm s) [
          | inl h ↦ rw (and_then-ok (λ _. wait p 5) x tt h) (elim (obeyed.wait_ok p 5 x.1) [
            | inl w ↦ rw (handled-ok handler (wait p 5 x.1) tt w) (waited p 5 x.1 w)
            | inr w ↦
                rw (handled-raise handler (wait p 5 x.1) timeout_expired w refl)
                  (second timeout_expired (wait p 5 x.1).1)
          ])
          | inr (h, ended) ↦
              rw (and_then-raise (λ _. wait p 5) x process_lookup_error h)
                (second process_lookup_error x.1)
        ]

    end_process-IsEnded : (p : ℕ) (s : State) → IsEnded p (end_process os p s)
    unfolding end_process
    end_process-IsEnded p s =
        term-IsEnded p (λ _. except (signal_and_wait os p sigkill 3) (λ _. return tt)) s
          (λ e t. kill-IsEnded p t)

    slept :
        (p : ℕ) (x : Result (Unit {0}) × State)
        → IsEnded p x
        → IsEnded p (and_then (λ _. sleep 2) x)
    slept p x (h, ended) =
        rw (and_then-ok (λ _. sleep 2) x tt h)
          (obeyed.sleep_ok 2 x.1, still_ended (lawful.sleep_none 2 p x.1) ended)

    -- If the user may signal the scheduler and the waits are not interrupted, `stop_scheduler` returns, and the scheduler has ended.
    pub stop_scheduler-IsEnded :
        (p : ℕ) (s : State)
        → ((stop_scheduler os p s).0 ≡ ok tt) × (running p (stop_scheduler os p s).1 ≡ false)
    unfolding stop_scheduler
    stop_scheduler-IsEnded p s =
        let x = poll_is_none p s in
        let next = λ (alive : Bool). (if alive then end_process os p else return tt) >> sleep 2 in
        elim (obeyed.poll_ok p s) [
          | inl h ↦
              rw (and_then-ok next x true h)
                (slept p (end_process os p x.1) (end_process-IsEnded p x.1))
          | inr h ↦
              rw (and_then-ok next x false h) (slept p (ok tt, x.1) (refl, lawful.poll_ended p s h))
        ]

  -- A scheduler that runs on, and whose group the user may not signal.
  pub record IsDenied (p : ℕ) : Type 0 where
    pub polled : (s : State) → running p s ≡ true → (poll_is_none p s).0 ≡ ok true
    pub poll_keeps : (s : State) → running p s ≡ true → running p (poll_is_none p s).1 ≡ true
    pub killpg_raises : (sig : Signal) (s : State) → (killpg p sig s).0 ≡ raise os_error
    pub killpg_keeps :
        (sig : Signal) (s : State) → running p s ≡ true → running p (killpg p sig s).1 ≡ true
    pub sleep_keeps :
        (seconds : ℕ) (s : State) → running p s ≡ true → running p (sleep seconds s).1 ≡ true
    pub sleep_ok : (seconds : ℕ) (s : State) → (sleep seconds s).0 ≡ ok tt

  module _ (p : ℕ) (denied : IsDenied p) where
    attempt-denied :
        (sig : Signal) (timeout : ℕ) (handler : Exception → Io State (Unit {0})) (s : State)
        → except (signal_and_wait os p sig timeout) handler s ≡ handler os_error (killpg p sig s).1
    attempt-denied sig timeout handler s =
        let x = killpg p sig s in
        rw (and_then-raise (λ _. wait p timeout) x os_error (denied.killpg_raises sig s)) refl

    end_process-denied :
        (s : State)
        → running p s ≡ true
        → ((end_process os p s).0 ≡ ok tt) × (running p (end_process os p s).1 ≡ true)
    unfolding end_process
    end_process-denied s run =
        let t = (killpg p sigterm s).1 in
        rw
          (
            attempt-denied sigterm 5 (λ _. except (signal_and_wait os p sigkill 3) (λ _. return tt))
                s,
            attempt-denied sigkill 3 (λ _. return tt) t,
          )
          (refl, denied.killpg_keeps sigkill t (denied.killpg_keeps sigterm s run))

    slept_on :
        (x : Result (Unit {0}) × State)
        → (x.0 ≡ ok tt) × (running p x.1 ≡ true)
        → ((and_then (λ _. sleep 2) x).0 ≡ ok tt) × (running p (and_then (λ _. sleep 2) x).1 ≡ true)
    slept_on x (h, run) =
        rw (and_then-ok (λ _. sleep 2) x tt h) (denied.sleep_ok 2 x.1, denied.sleep_keeps 2 x.1 run)

    -- If every signal to the group of a running scheduler raises an `OSError`, `stop_scheduler` returns without an exception and the scheduler runs on.
    pub stop_scheduler-denied :
        (s : State)
        → running p s ≡ true
        → ((stop_scheduler os p s).0 ≡ ok tt) × (running p (stop_scheduler os p s).1 ≡ true)
    unfolding stop_scheduler
    stop_scheduler-denied s run =
        let x = poll_is_none p s in
        let next = λ (alive : Bool). (if alive then end_process os p else return tt) >> sleep 2 in
        rw (and_then-ok next x true (denied.polled s run))
          (slept_on (end_process os p x.1) (end_process-denied x.1 (denied.poll_keeps s run)))
