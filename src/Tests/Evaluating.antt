-- ===== src/Tests/Evaluating.antt =====
-- evaluate_accuracy.py at concrete inputs.
use schedcore.Prelude.{
  String, some, true, false, List, [], ◌∷◌, ◌≡◌, ◌↔◌, refl, is_empty, contains, string_eq, char_eq,
  if◌then◌else◌,
}
use schedcore.Prelude.Text.{starts_with}
use schedcore.Prelude.Float.Fixed.{fixed}
use schedcore.Prelude.Sorting.{sorted, insert_sorted}
use schedcore.Manifest.{Manifest}
use schedcore.Prelude.Split.{without, ends_with, has_part}
use schedcore.Evaluate.{basename, candidates, find_latest_generated, exit_status}
use schedcore.Evaluate.Safety.{HasName, IsSafe, exit_status_iff}
use schedcore.Tests.Data.{rocksdb, generated}

-- Two generated manifests, statistics, and a report, in no order.
abbrev glob : String → List String
glob pattern =
    "results/rocksdb_generated_2.json" ∷ "results/rocksdb_generated_2_stats.json"
    ∷ "results/rocksdb_generated_1.json" ∷ "results/rocksdb_generated_thread_report.json" ∷ []

abbrev load_json : String → Manifest
load_json path = if starts_with path "examples/" then rocksdb else generated

abbrev examples : List String
examples = "examples/rocksdb_manifest.json" ∷ []

latest_generated :
    find_latest_generated glob load_json (some "rocksdb") ≡ some "results/rocksdb_generated_2.json"
unfolding find_latest_generated candidates sorted insert_sorted ends_with has_part starts_with
    string_eq char_eq
latest_generated = refl

name_of_file : without "_manifest.json" 0 (basename "examples/rocksdb_manifest.json") ≡ "rocksdb"
unfolding without basename starts_with char_eq
name_of_file = refl

exit_status_iff_example : (exit_status glob load_json fixed examples ≡ 0) ↔ (
    (is_empty examples ≡ false)
    × ((gt_path : String)
        → contains examples gt_path ≡ true
        → HasName glob load_json fixed gt_path × IsSafe glob load_json fixed gt_path))
exit_status_iff_example = exit_status_iff glob load_json fixed examples
