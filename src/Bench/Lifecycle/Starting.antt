-- ===== src/Bench/Lifecycle/Starting.antt =====
-- Which processes run when a scheduler was started or stopped.
use schedcore.Prelude.{
  ℕ, String, Bool, true, false, Option, none, some, List, ◌≡◌, refl, sym, ap, ◌∙◌, ◌⊎◌, inl, inr,
  if◌then◌else◌,
}
use schedcore.Prelude.Result.{Exception, Result, ok, raise, Result-cases}
use schedcore.Bench.Io.{
  Io, return, and_then, except, ◌>>=◌, ◌>>◌, and_then-ok, and_then-raise, and_then_keeps,
  and_then_agree, handled_keeps,
}
use schedcore.Bench.Os.{Os, IsOs, IsObeyed, StartsNone, Signal, sigterm, sigkill}
use schedcore.Bench.Lifecycle.{
  signal_and_wait, end_process, stop_scheduler, launch, if_alive, if_there, chosen_start, or_exit,
  require, Start,
}

module _ (os : Os) where
  open os use {State, path_exists, running, popen, poll_is_none, read_stderr, killpg, wait, sleep}

  -- No other processes run.
  abbrev pub Only : (ℕ → Type 0) → State → Type 0
  Only A s = (q : ℕ) → running q s ≡ true → A q

  abbrev pub Keeps {ℓ} : (ℕ → Type 0) → {R : Type ℓ} → Io State R → Type 0
  Keeps A action = (s : State) → Only A s → Only A (action s).1

  -- One process, and the others.
  abbrev pub And : ℕ → (ℕ → Type 0) → ℕ → Type 0
  And p A q = (q ≡ p) ⊎ A q

  -- What runs when a scheduler was started, or was not.
  abbrev pub Started : (ℕ → Type 0) → Result (Option ℕ) × State → Type 0
  Started A (ok (some p), s) = Only (And p A) s
  Started A (ok none, s) = Only A s
  Started A (raise e, s) = Only A s

  abbrev pub IsStarter : (ℕ → Type 0) → Option (Start os) → Type 0
  IsStarter A none = Unit
  IsStarter A (some start) = (s : State) → Only A s → Started A (start s)

  pub keeps {ℓ} :
      {R : Type ℓ} → (A : ℕ → Type 0) (action : Io State R) → StartsNone os action → Keeps A action
  keeps A action starts s only q run = only q (starts q s run)

  pub starts_none {ℓ} :
      {R : Type ℓ}
      → (action : Io State R) → ((A : ℕ → Type 0) → Keeps A action)
      → StartsNone os action
  starts_none action all q s run = all (λ r. running r s ≡ true) s (λ r h. h) q run

  -- At most one process runs that did not run before.
  abbrev pub IsIsolated : State → State → Type 0
  IsIsolated before s =
      (p q : ℕ)
      → running p s ≡ true
      → running q s ≡ true
      → running p before ≡ false
      → running q before ≡ false
      → p ≡ q

  pub only-IsIsolated :
      (p : ℕ) (before s : State)
      → Only (And p (λ r. running r before ≡ true)) s
      → IsIsolated before s
  only-IsIsolated p before s only q r run run' new new' = elim (only q run) [
    | inl e ↦ elim (only r run') [ inl e' ↦ e ∙ sym e' | inr h ↦ absurd (cc (sym h ∙ new')) ]
    | inr h ↦ absurd (cc (sym h ∙ new))
  ]

  pub and_then-Started {ℓ} :
      {R : Type ℓ}
      → (A : ℕ → Type 0) (next : R → Io State (Option ℕ)) (x : Result R × State) → Only A x.1
      → ((r : R) (s : State) → Only A s → Started A (next r s))
      → Started A (and_then next x)
  and_then-Started A next (ok r, s) only started = started r s only
  and_then-Started A next (raise e, s) only started = only

  module _ (lawful : IsOs os) (A : ℕ → Type 0) where
    attempt-Keeps :
        (p : ℕ) (sig : Signal) (timeout : ℕ) (handler : Exception → Io State (Unit {0})) (s : State)
        → Only A s
        → ((e : Exception) (t : State) → Only A t → Only A (handler e t).1)
        → Only A (except (signal_and_wait os p sig timeout) handler s).1
    attempt-Keeps p sig timeout handler s only second =
        handled_keeps (Only A) handler (signal_and_wait os p sig timeout s)
          (and_then_keeps (Only A) (λ _. wait p timeout) (killpg p sig s)
            (keeps A (killpg p sig) (lawful.killpg_none p sig) s only)
            (λ _ t. keeps A (wait p timeout) (lawful.wait_none p timeout) t))
          second

    end_process-Keeps : (p : ℕ) → Keeps A (end_process os p)
    unfolding end_process
    end_process-Keeps p s only =
        attempt-Keeps p sigterm 5 (λ _. except (signal_and_wait os p sigkill 3) (λ _. return tt)) s
          only (λ e t still. attempt-Keeps p sigkill 3 (λ _. return tt) t still (λ f u last. last))

    chosen-Keeps : (p : ℕ) (alive : Bool) → Keeps A (if alive then end_process os p else return tt)
    chosen-Keeps p true s only = end_process-Keeps p s only
    chosen-Keeps p false s only = only

    pub stop_scheduler-Keeps : (p : ℕ) → Keeps A (stop_scheduler os p)
    unfolding stop_scheduler
    stop_scheduler-Keeps p s only =
        and_then_keeps (Only A)
          (λ (alive : Bool). (if alive then end_process os p else return tt) >> sleep 2)
          (poll_is_none p s) (keeps A (poll_is_none p) (lawful.poll_none p) s only)
          (λ alive t still.
            and_then_keeps (Only A) (λ _. sleep 2)
              ((if alive then end_process os p else return tt) t) (chosen-Keeps p alive t still)
              (λ _. keeps A (sleep 2) (lawful.sleep_none 2)))

    -- Once the process has ended, the others are left.
    pub others : (p : ℕ) (s : State) → Only (And p A) s → running p s ≡ false → Only A s
    others p s only ended q run = elim (only q run) [
      | inl e ↦ absurd (cc (sym run ∙ ap (λ r. running r s) e ∙ ended))
      | inr a ↦ a
    ]

    Started-none :
        (x : Result String × State) → Only A x.1 → Started A (and_then (λ _. return none) x)
    Started-none (ok text, s) only = only
    Started-none (raise e, s) only = only

    polled-Started :
        (p : ℕ) (s : State)
        → Only (And p A) s
        → ((poll_is_none p s).0 ≡ ok true) ⊎ ((poll_is_none p s).0 ≡ ok false)
        → Started A (and_then (if_alive os p) (poll_is_none p s))
    polled-Started p s only polled =
        let x = poll_is_none p s in
        let still = keeps (And p A) (poll_is_none p) (lawful.poll_none p) s only in
        elim polled [
          | inl h ↦ rw (and_then-ok (if_alive os p) x true h) still
          | inr h ↦ rw (and_then-ok (if_alive os p) x false h) (
              Started-none (read_stderr p x.1) (
                keeps A (read_stderr p) (lawful.read_stderr_none p) x.1
                  (others p x.1 still (lawful.poll_ended p s h))))
        ]

    module _ (obeyed : IsObeyed os) where
      slept-Started :
          (p : ℕ) (s : State)
          → Only (And p A) s
          → Started A ((do sleep 3; alive ← poll_is_none p; if_alive os p alive) s)
      slept-Started p s only =
          let x = sleep 3 s in
          rw
            (and_then-ok (λ _. (do alive ← poll_is_none p; if_alive os p alive)) x tt
              (obeyed.sleep_ok 3 s))
            (polled-Started p x.1 (keeps (And p A) (sleep 3) (lawful.sleep_none 3) s only)
              (obeyed.poll_ok p x.1))

      pub launch-IsStarter : (args : List String) → IsStarter A (some (launch os args))
      unfolding launch
      launch-IsStarter args s only =
          let x = popen args s in
          let next = λ (p : ℕ). (do sleep 3; alive ← poll_is_none p; if_alive os p alive) in
          elim (Result-cases x.0) [
            | inl (p, h) ↦ rw (and_then-ok next x p h) (
                slept-Started p x.1 (λ q run. elim (lawful.popen_one args p q s h run) [
                  | inl e ↦ inl e
                  | inr r ↦ inr (only q r)
                ]))
            | inr (e, h) ↦
                rw (and_then-raise next x e h)
                  (λ q run. only q (lawful.popen_raise args e q s h run))
          ]

      -- Where the files that a scheduler needs are looked for first.
      pub if_there-IsStarter :
          (start : Start os) (path : String)
          → IsStarter A (some start)
          → IsStarter A (some (if_there os path start))
      if_there-IsStarter start path starter s only =
          and_then-Started A (chosen_start os start) (path_exists path s)
            (keeps A (path_exists path) (lawful.path_exists_none path) s only) chosen-Started
        where
          chosen-Started :
              (there : Bool) (t : State) → Only A t → Started A (chosen_start os start there t)
          chosen-Started true t still = starter t still
          chosen-Started false t still = still

    module _ {R : Type 0} where
      or_exit-Keeps :
          (action : Io State R)
          → Keeps A action
          → (there : Bool) → Keeps A (or_exit os action there)
      or_exit-Keeps action kept true s only = kept s only
      or_exit-Keeps action kept false s only = only

      pub require-Keeps :
          (path : String) (action : Io State R) → Keeps A action → Keeps A (require os path action)
      require-Keeps path action kept s only =
          and_then_keeps (Only A) (or_exit os action) (path_exists path s)
            (keeps A (path_exists path) (lawful.path_exists_none path) s only)
            (or_exit-Keeps action kept)

      pub require_agree :
          (path : String) (action action' : Io State R) (s : State)
          → Only A s
          → ((t : State) → Only A t → action t ≡ action' t)
          → require os path action s ≡ require os path action' s
      require_agree path action action' s only agree =
          and_then_agree (Only A) (or_exit os action) (or_exit os action') (path_exists path s)
            (keeps A (path_exists path) (lawful.path_exists_none path) s only) or_exit_agree
        where
          or_exit_agree :
              (there : Bool) (t : State)
              → Only A t
              → or_exit os action there t ≡ or_exit os action' there t
          or_exit_agree true t still = agree t still
          or_exit_agree false t still = refl
