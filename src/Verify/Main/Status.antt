-- ===== src/Verify/Main/Status.antt =====
-- The exit status of the whole comparison.
use schedcore.Prelude.{ℕ, String, Option, some, Bool, List, [], ◌∷◌, ◌≡◌, ◌≢◌, ◌↔◌, if◌then◌else◌}
use schedcore.Prelude.Float.{Float}
use schedcore.Prelude.Result.{ok}
use schedcore.Manifest.{Manifest, absent}
use schedcore.Verify.{Key}
use schedcore.Verify.Compare.{verdict}
use schedcore.Verify.Compare.Tally.{IsSetOrder}
use schedcore.Verify.Compare.Verdict.{IsAccepted, verdict_iff}
use schedcore.Verify.Main.{SchemaLine, schema_lines, validate_schema, verify}

module _ (float : Float) (order : List Key → List Key) (o : IsSetOrder order)
    (load : String → Option Manifest) (schema_exists : Bool)
    (validate : Option (Manifest → Option String)) where
  -- For two manifests that exist, the generated one with an application and a method, the script
  -- ends with status 0 exactly if the generated one is accepted, whatever the schema says of it.
  pub verify-status :
      (generated_path ground_truth_path : String) (rest : List String) (gen gt : Manifest)
      → load generated_path ≡ some gen
      → load ground_truth_path ≡ some gt
      → gen.application ≢ absent
      → gen.identification_method ≢ absent
      → (lines : List SchemaLine) × (status : ℕ) × (verify float order load schema_exists validate
            (generated_path ∷ (ground_truth_path ∷ rest))
          ≡ ok (lines, status))
        × ((status ≡ 0) ↔ IsAccepted gen gt)
  unfolding verify
  verify-status generated_path ground_truth_path rest gen gt h k ha hm =
      let (r, e, accepted) = verdict_iff float order o gen gt ha hm in
      (
        if schema_exists then schema_lines (validate_schema validate gen) else [],
        verdict r,
        rw (h, k, e),
        accepted,
      )
