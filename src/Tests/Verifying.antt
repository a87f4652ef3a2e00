-- ===== src/Tests/Verifying.antt =====
-- verify_manifest.py and stage2_policy_select.py at concrete inputs.
use schedcore.Prelude.{
  ℕ, Option, [], ◌∷◌, ◌==◌, if◌then◌else◌, ◌+◌, String, none, some, true, false, List, ◌≡◌, ◌≢◌,
  ◌↔◌, refl, length, arith, string_eq, option_eq, pair_eq, nat_eq, char_eq,
}
use schedcore.Prelude.Dict.{keys, has_key, insert}
use schedcore.Prelude.Text.{starts_with, take}
use schedcore.Prelude.Float.Fixed.{fixed, fixed-IsIeee}
use schedcore.Prelude.Result.{ok}
use schedcore.Manifest.{Manifest, absent, value}
use schedcore.Verify.{Key, normalize_threads, add_threads, add_thread, set_and, set_minus}
use schedcore.Verify.Counting.{counts_of, count_keys_precision}
use schedcore.Verify.Compare.{Report, compare_manifests, verdict, find_partial}
use schedcore.Verify.Compare.Tally.{IsSetOrder}
use schedcore.Verify.Compare.Totals.{compare_manifests_tally}
use schedcore.Verify.Compare.Verdict.{IsAccepted, verdict_iff}
use schedcore.Verify.Main.{SchemaLine, verify}
use schedcore.Verify.Main.Status.{verify-status}
use schedcore.Policy.{select_policy, threads_or_types, cpus_or_default}
use schedcore.Policy.Choice.{pattern_for, select_policy_exact}
use schedcore.Tests.Data.{rocksdb, generated}

abbrev same_order : List Key → List Key
same_order ks = ks

same_order-IsSetOrder : IsSetOrder same_order
same_order-IsSetOrder = record { same_length = λ ks. refl; same_members = λ ks k. refl }

value_given : (s : String) → value s ≢ absent
value_given s e = cc

verdict_iff_example :
    (r : Report) × (compare_manifests fixed same_order generated rocksdb ≡ ok r)
    × ((verdict r ≡ 0) ↔ IsAccepted generated rocksdb)
verdict_iff_example =
    verdict_iff fixed same_order same_order-IsSetOrder generated rocksdb (value_given "rocksdb")
      (value_given "comm")

compare_manifests_tally_example :
    (r : Report) × (compare_manifests fixed same_order generated rocksdb ≡ ok r)
    × (r.fails ≡ 0)
    × (r.warnings ≡ 1)
unfolding normalize_threads add_threads add_thread option_eq string_eq pair_eq nat_eq char_eq insert
    has_key find_partial starts_with take set_and set_minus
compare_manifests_tally_example =
    compare_manifests_tally fixed same_order same_order-IsSetOrder generated rocksdb
      (value_given "rocksdb") (value_given "comm")

count_keys_precision_example :
    let g = normalize_threads generated in
    let t = normalize_threads rocksdb in
    (counts_of generated rocksdb).true_positives
      + ((counts_of generated rocksdb).safety_violations
          + (counts_of generated rocksdb).extra_discoveries)
    ≡ length (keys g.bg) + length (set_and (set_and (keys g.bg) (keys t.bg)) (keys t.fg))
count_keys_precision_example = count_keys_precision generated rocksdb

no_common_keys :
    (k : Key)
    → has_key k (normalize_threads rocksdb).fg ≡ true
    → has_key k (normalize_threads rocksdb).bg ≡ false
unfolding normalize_threads add_threads add_thread has_key keys string_eq option_eq pair_eq nat_eq
    insert
no_common_keys k h = ground arith

select_policy_exact_example :
    let s = select_policy fixed (some 4) rocksdb (some 8) none false in
    (s.name ≡ pattern_for 8 4 false) × (s.config.pattern ≡ s.name)
unfolding threads_or_types cpus_or_default nat_eq
select_policy_exact_example =
    select_policy_exact fixed fixed-IsIeee (some 4) rocksdb (some 8) none false (omega arith)
      (omega arith)

-- The schema rejects every manifest, and the comparison accepts this one.
abbrev load_manifest : String → Option Manifest
load_manifest path = if path == "ground_truth.json" then some rocksdb else some generated

abbrev invalid : Option (Manifest → Option String)
invalid = some (λ manifest. some "'threads' is a required property")

verify-status_example :
    (lines : List SchemaLine) × (status : ℕ) × (verify fixed same_order load_manifest true invalid
        ("generated.json" ∷ "ground_truth.json" ∷ [])
      ≡ ok (lines, status))
    × ((status ≡ 0) ↔ IsAccepted generated rocksdb)
unfolding string_eq
verify-status_example =
    verify-status fixed same_order same_order-IsSetOrder load_manifest true invalid "generated.json"
      "ground_truth.json" [] generated rocksdb refl refl (value_given "rocksdb")
      (value_given "comm")
