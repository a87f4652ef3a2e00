-- ===== src/Tests/Generating.antt =====
-- stage3_generate_scheduler.py at concrete inputs.
use Prim.Native.Char.{nul}
use schedcore.Prelude.{
  none, some, true, false, [], ◌∷◌, ◌≡◌, refl, arith, nat_eq, string_eq, option_eq, pair_eq,
  char_eq,
}
use schedcore.Prelude.Sorting.{any}
use schedcore.Prelude.Text.{starts_with, take}
use schedcore.Prelude.Result.{raise, type_error}
use schedcore.Prelude.Split.{has_part}
use schedcore.Manifest.{Thread, null, value}
use schedcore.Generator.{
  Prefix, checked, comm_tests, read_prefix, extract_prefixes, generate_scheduler,
  generate_comm_check,
}
use schedcore.Generator.Reading.{read_tests}
use schedcore.Generator.Reading.RoundTrip.{read_tests-generate_comm_check}
use schedcore.Generator.Matching.{
  Buffer, task_unknown, any_matches, copied, is_background_task, classify_task, is_valid_c,
}
use schedcore.Generator.Matching.Prefixes.{is_background_task-exact}
use schedcore.Generator.Matching.Extraction.{
  thread_matches, extract_prefixes-matches, generate_scheduler-raises,
}
use schedcore.Generator.Matching.Caching.{classify_task-stable}
use schedcore.Tests.Data.{thread, manifest}

abbrev rest : Buffer
rest i = nul

abbrev low : Prefix
low = record { prefix = "rocksdb:low"; length = some 11; name_pattern = "rocksdb:low*" }

abbrev bench : Prefix
bench = record { prefix = "db_bench"; length = some 8; name_pattern = "db_bench*" }

is_background_task-exact_example :
    (is_background_task (low ∷ []) (some "rocksdb:low0") rest
      ≡ any (λ p. starts_with "rocksdb:low0" (checked p)) (low ∷ []))
    × (is_background_task (low ∷ []) none rest ≡ false)
unfolding char_eq take is_valid_c has_part starts_with string_eq
is_background_task-exact_example =
    is_background_task-exact (low ∷ []) "rocksdb:low0" rest (refl, tt)

-- An empty prefix is no condition.
empty_condition : is_valid_c (record { prefix = ""; length = some 0; name_pattern = "*" }) ≡ false
unfolding is_valid_c take
empty_condition = refl

extract_prefixes-matches_example :
    any_matches (low ∷ []) (copied "rocksdb:low0" rest)
    ≡ any (thread_matches "background" (copied "rocksdb:low0" rest)) (
        thread "rocksdb:low*" "background" "rocksdb:low" (some 11)
        ∷ thread "rocksdb:low*" "background" "rocksdb:low" (some 11)
        ∷ [])
unfolding extract_prefixes read_prefix string_eq option_eq nat_eq pair_eq
extract_prefixes-matches_example =
    extract_prefixes-matches "background" (copied "rocksdb:low0" rest)
      (thread "rocksdb:low*" "background" "rocksdb:low" (some 11)
        ∷ thread "rocksdb:low*" "background" "rocksdb:low" (some 11)
        ∷ [])
      (low ∷ []) refl

-- A thread found by a uprobe, with `null` for its prefix.
abbrev probed : Thread
probed = record {
  name_pattern = "compaction";
  role = "background";
  purpose = "";
  identification = some (record { type = value "uprobe"; comm_prefix = null; comm_length = null });
}

generate_scheduler-raises_example :
    generate_scheduler (manifest (probed ∷ [])) "simple_dual_dsq" "db-aware" ≡ raise type_error
unfolding string_eq
generate_scheduler-raises_example =
    generate_scheduler-raises (manifest (probed ∷ [])) "simple_dual_dsq" "db-aware" refl

classify_task-stable_example :
    let r = classify_task (low ∷ []) (bench ∷ []) (some task_unknown) true (some "db_bench") rest in
    classify_task (low ∷ []) (bench ∷ []) r.1 true (some "rocksdb:low0") rest ≡ (r.0, r.1)
classify_task-stable_example =
    classify_task-stable (low ∷ []) (bench ∷ []) (some task_unknown) (some "db_bench")
      (some "rocksdb:low0") rest rest true

read_tests-generate_comm_check_example :
    read_tests 11 (generate_comm_check low "\t") ≡ some (comm_tests 0 (checked low))
unfolding char_eq take
read_tests-generate_comm_check_example =
    read_tests-generate_comm_check low "\t" 11 refl refl (omega arith) (omega arith)
