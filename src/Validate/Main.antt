-- ===== src/Validate/Main.antt =====
-- pipeline/stage4_validate.py: what `main` prints results of, and its exit status. `parse` is the
-- parser of a workload, `none` where it finds no results.
use schedcore.Prelude.{
  ℕ, String, Option, none, some, Bool, true, false, List, [], ◌∷◌, is_empty, if◌then◌else◌,
}
use schedcore.Prelude.Float.{Float}
use schedcore.Validate.{Outcome, Gains, compute_improvement}

abbrev pub workloads : List String
workloads = "db_sim" ∷ "rocksdb" ∷ "redis" ∷ "nginx" ∷ []

module _ (float : Float) (parse : String → Option (Outcome float)) where
  -- A result with its improvement.
  abbrev pub Improved : Type 0
  Improved = Outcome float × Gains float

  abbrev improved : Option (Outcome float) → List Improved → List Improved
  improved none rest = rest
  improved (some r) rest = (r, compute_improvement float r.baseline r.custom) ∷ rest

  unfoldable pub results_of : List String → List Improved
  unfolding compute_improvement
  results_of [] = []
  results_of (name ∷ names) = improved (parse name) (results_of names)

  abbrev printed : Bool → List Improved → ℕ
  printed json results = if json then 0 else if is_empty results then 1 else 0

  -- `--summary`, `--workload`, `--json`: the results, and the status with which `main` ends.
  unfoldable pub validate : Bool → Option String → Bool → List Improved × ℕ
  unfolding results_of
  validate true workload json = (results_of workloads, printed json (results_of workloads))
  validate false none json = ([], 1)
  validate false (some name) json =
      let results = results_of (name ∷ []) in
      if is_empty results then ([], 1) else (results, printed json results)
