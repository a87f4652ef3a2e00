-- ===== src/Evaluate.antt =====
-- pipeline/evaluate_accuracy.py: the accuracy over all applications. `glob` and `load_json` are
-- parameters; of the printed table it matters only that it shows every name with a width, which raises
-- a `TypeError` for `None` and ends the program with status 1.
pub mod Safety
use schedcore.Prelude.{
  ℕ, suc, ◌+◌, ◌-◌, String, Char, ◌<>◌, Option, none, some, Bool, true, false, List, [], ◌∷◌, ltb,
  ◌==◌, ◌||◌, string_eq, char_eq, is_empty, is_some, not, if◌then◌else◌,
}
use schedcore.Prelude.Split.{has_part, ends_with, without}
use schedcore.Prelude.Sorting.{str_lt, sorted}
use schedcore.Prelude.Float.{Float}
use schedcore.Manifest.{Manifest, get_default}
use schedcore.Verify.{Counts, Metrics, compute_metrics, score}

-- `os.path.basename(path)`: `start` is what follows the last slash so far.
abbrev basename_from : String → String → String
basename_from start String.[] = start
basename_from start (String.◌∷◌ c s) = basename_from (if c == "/" then s else start) s

unfoldable pub basename : String → String
basename path = basename_from path path

-- The paths that the loop keeps.
unfoldable pub candidates : List String → List String
candidates [] = []
candidates (path ∷ paths) =
    let rest = candidates paths in
    if ends_with path "_stats.json"
    then rest
    else if has_part "thread_report" path
    then rest
    else path ∷ rest

abbrev pub last : List String → Option String
last [] = none
last (x ∷ []) = some x
last (x ∷ (y ∷ ys)) = last (y ∷ ys)

-- `None` in an f-string
abbrev pub shown_name : Option String → String
shown_name none = "None"
shown_name (some name) = name

-- `total_tp += …` and the others
abbrev pub add_counts : Counts → Counts → Counts
add_counts a b = record {
  true_positives = a.true_positives + b.true_positives;
  false_negatives = a.false_negatives + b.false_negatives;
  safety_violations = a.safety_violations + b.safety_violations;
  extra_discoveries = a.extra_discoveries + b.extra_discoveries;
}

abbrev pub no_counts : Counts
no_counts = record {
  true_positives = 0;
  false_negatives = 0;
  safety_violations = 0;
  extra_discoveries = 0;
}

module _ (glob : String → List String) (load_json : String → Manifest) where
  -- `glob` looks in the directory of results.
  unfoldable pub find_latest_generated : Option String → Option String
  unfolding candidates
  find_latest_generated app_name =
      last (candidates (sorted str_lt (glob (shown_name app_name <> "_generated*.json"))))

  unfoldable pub app_name_of : String → Option String
  unfolding basename without
  app_name_of gt_path =
      get_default (without "_manifest.json" 0 (basename gt_path)) (load_json gt_path).application

  unfoldable pub generated_for : String → Option String
  unfolding find_latest_generated app_name_of
  generated_for gt_path = find_latest_generated (app_name_of gt_path)

  module _ (float : Float) where
    pub record Row : Type 0 where
      pub app : Option String
      pub gt_path : String
      pub generated : Option (String × Metrics float)

    abbrev measured : String → Option String → Option (String × Metrics float)
    measured gt_path none = none
    measured gt_path (some gen_path) =
        some (gen_path, compute_metrics float (load_json gen_path) (load_json gt_path))

    unfoldable pub evaluate_one : String → Row
    unfolding app_name_of generated_for
    evaluate_one gt_path = record {
      app = app_name_of gt_path;
      gt_path = gt_path;
      generated = measured gt_path (generated_for gt_path);
    }

    unfoldable pub evaluate : List String → List Row
    unfolding evaluate_one
    evaluate [] = []
    evaluate (gt_path ∷ gt_paths) = evaluate_one gt_path ∷ evaluate gt_paths

    abbrev add_row : Counts → Option (String × Metrics float) → Counts
    add_row total none = total
    add_row total (some (path, m)) = add_counts total m.counts

    unfoldable pub add_totals : Counts → List Row → Counts
    add_totals total [] = total
    add_totals total (row ∷ rows) = add_totals (add_row total row.generated) rows

    unfoldable pub totals : List Row → Counts
    unfolding add_totals
    totals rows = add_totals no_counts rows

    -- The precision, recall and F1 of the last line, by the formulas of `compute_metrics`.
    unfoldable pub aggregate : List Row → Metrics float
    unfolding totals score
    aggregate rows = score float (totals rows)

    -- `f"{r['app']:<12}"` raises for some row.
    unfoldable pub any_unnamed : List Row → Bool
    any_unnamed [] = false
    any_unnamed (row ∷ rows) = not (is_some row.app) || any_unnamed rows

    -- The exit status of `main`, for what `glob` finds among the examples.
    unfoldable pub exit_status : List String → ℕ
    unfolding evaluate totals any_unnamed
    exit_status found =
        let gt_files = sorted str_lt found in
        if is_empty gt_files
        then 1
        else if any_unnamed (evaluate gt_files)
        then 1
        else if ltb 0 (totals (evaluate gt_files)).safety_violations
        then 1
        else 0
