-- ===== src/Bench/Lifecycle/Isolation.antt =====
-- Which processes run while a benchmark runs: besides those from before, its own scheduler at most.
use schedcore.Prelude.{
  ℕ, String, Option, none, some, List, [], ◌∷◌, ◌≡◌, refl, ap, ◌∙◌, inr, All, string_eq,
}
use schedcore.Prelude.Dict.{Dict, insert}
use schedcore.Prelude.Result.{Result, ok, raise}
use schedcore.Bench.Io.{Io, and_then, at_last, ◌>>◌, and_then_keeps, and_then_agree, at_last-state}
use schedcore.Bench.Os.{Os, IsOs, IsObeyed, StartsNone}
use schedcore.Bench.Lifecycle.{stop_scheduler, Start, guarded, measure, beside}
use schedcore.Bench.Lifecycle.Stopping.{stop_scheduler-IsEnded}
use schedcore.Bench.Lifecycle.Starting.{
  Only, And, Keeps, Started, IsStarter, keeps, others, stop_scheduler-Keeps,
}

module _ (os : Os) where
  open os use {State, running}

  module _ {R : Type 0} (lawful : IsOs os) (obeyed : IsObeyed os) (A : ℕ → Type 0) where
    beside-Keeps :
        (bench : Io State (Option R)) (x : Result (Option ℕ) × State)
        → StartsNone os bench
        → Started os A x
        → Only os A (and_then (beside os bench) x).1
    beside-Keeps bench (ok none, s) starts only = only
    beside-Keeps bench (raise e, s) starts only = only
    beside-Keeps bench (ok (some p), s) starts only =
        let t = (bench s).1 in
        rw (at_last-state (stop_scheduler os p) (bench s)) (
          others os lawful A p (stop_scheduler os p t).1
            (stop_scheduler-Keeps os lawful (And os p A) p t
              (keeps os (And os p A) bench starts s only))
            (stop_scheduler-IsEnded os lawful obeyed p t).1)

    pub guarded-Keeps :
        (bench : Io State (Option R)) (start : Option (Start os))
        → StartsNone os bench
        → IsStarter os A start
        → Keeps os A (guarded os bench start)
    unfolding guarded
    guarded-Keeps bench none starts starter s only = keeps os A bench starts s only
    guarded-Keeps bench (some start) starts starter s only =
        beside-Keeps bench (start s) starts (starter s only)

  module _ {R : Type 0} (A : ℕ → Type 0) (bench bench' : Io State (Option R))
      (agree : (p : ℕ) (s : State) → Only os (And os p A) s → bench s ≡ bench' s) where
    beside_agree :
        (x : Result (Option ℕ) × State)
        → Started os A x
        → and_then (beside os bench) x ≡ and_then (beside os bench') x
    beside_agree (ok none, s) only = refl
    beside_agree (raise e, s) only = refl
    beside_agree (ok (some p), s) only = ap (at_last (stop_scheduler os p)) (agree p s only)

    pub guarded_agree :
        (start : Option (Start os)) (s : State)
        → IsStarter os A start
        → Only os A s
        → guarded os bench start s ≡ guarded os bench' start s
    unfolding guarded
    guarded_agree none s starter only = agree 0 s (λ q run. inr (only q run))
    guarded_agree (some start) s starter only = beside_agree (start s) (starter s only)

  module _ {R : Type 0} (A : ℕ → Type 0) (report : Option R → Io State (Unit {0}))
      (report_keeps : (r : Option R) → Keeps os A (report r)) where
    abbrev AllStart : List (String × Option (Start os)) → Type 0
    AllStart = All (λ config. IsStarter os A config.1)

    -- The rest of the loop behind the test of a configuration.
    abbrev onward :
        (Option (Start os) → Io State (Option R))
        → String
        → List (String × Option (Start os))
        → Dict String (Option R)
        → Option R
        → Io State (Dict String (Option R))
    onward run_test label configs results result =
        report result >> measure os run_test report configs (insert label result results)

    module _ (run_test : Option (Start os) → Io State (Option R))
        (run_test-Keeps : (start : Option (Start os))
          → IsStarter os A start
          → Keeps os A (run_test start)) where
      pub measure-Keeps :
          (configs : List (String × Option (Start os))) (results : Dict String (Option R))
          → AllStart configs
          → Keeps os A (measure os run_test report configs results)
      unfolding measure
      measure-Keeps [] results starters s only = only
      measure-Keeps ((label, start) ∷ configs) results (starter, starters) s only =
          and_then_keeps (Only os A) (onward run_test label configs results) (run_test start s)
            (run_test-Keeps start starter s only)
            (λ result t still.
              let results' = insert label result results in
              and_then_keeps (Only os A) (λ _. measure os run_test report configs results')
                (report result t) (report_keeps result t still)
                (λ _ u last. measure-Keeps configs results' starters u last))

      pub measure_agree :
          (run_test' : Option (Start os) → Io State (Option R))
          → ((start : Option (Start os)) (s : State)
              → IsStarter os A start
              → Only os A s
              → run_test start s ≡ run_test' start s)
          → (configs : List (String × Option (Start os))) (results : Dict String (Option R))
            (s : State)
          → AllStart configs
          → Only os A s
          → measure os run_test report configs results s
            ≡ measure os run_test' report configs results s
      unfolding measure
      measure_agree run_test' agree [] results s starters only = refl
      measure_agree run_test' agree ((label, start) ∷ configs) results s (starter, starters) only =
          and_then_agree (Only os A) (onward run_test label configs results)
            (onward run_test' label configs results) (run_test start s)
            (run_test-Keeps start starter s only)
            (λ result t still.
              let results' = insert label result results in
              and_then_agree (Only os A) (λ _. measure os run_test report configs results')
                (λ _. measure os run_test' report configs results') (report result t)
                (report_keeps result t still)
                (λ _ u last. measure_agree run_test' agree configs results' u starters last))
          ∙ ap (and_then (onward run_test' label configs results)) (agree start s starter only)
