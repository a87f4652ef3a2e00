-- ===== src/Verify/Main.antt =====
-- pipeline/verify_manifest.py: `main`, with `validate_schema`. `load` is the manifest of a path, `none`
-- if there is no such file; `validate` is that of the package jsonschema, the message of its
-- `ValidationError` if it raises one, and `none` in place of it if the package is not installed.
pub mod Status
use schedcore.Prelude.{
  ℕ, zero, suc, String, ◌<>◌, Option, none, some, Bool, true, false, List, [], ◌∷◌, ◌++◌,
  if◌then◌else◌,
}
use schedcore.Prelude.Text.{starts_with}
use schedcore.Prelude.Float.{Float}
use schedcore.Prelude.Result.{Result, ok, raise, exit_one, ◌>>=◌}
use schedcore.Manifest.{Manifest}
use schedcore.Verify.{Key}
use schedcore.Verify.Compare.{compare_manifests, verdict}

-- A line of the output about the schema.
pub data SchemaLine : Type 0 where
  skipped failed : String → SchemaLine

module _ (validate : Option (Manifest → Option String)) where
  abbrev error_lines : Option String → List String
  error_lines none = []
  error_lines (some message) = ("Schema validation error: " <> message) ∷ []

  abbrev validated : Option (Manifest → Option String) → Manifest → List String
  validated none manifest = "SKIP: jsonschema not installed, schema validation skipped" ∷ []
  validated (some check) manifest = error_lines (check manifest)

  unfoldable pub validate_schema : Manifest → List String
  validate_schema manifest = validated validate manifest

-- `err[n:]`
abbrev after : ℕ → String → String
after zero s = s
after (suc n) String.[] = ""
after (suc n) (String.◌∷◌ c s) = after n s

unfoldable pub schema_lines : List String → List SchemaLine
unfolding starts_with
schema_lines [] = []
schema_lines (err ∷ errs) =
    let rest = schema_lines errs in
    if starts_with err "SKIP" then skipped (after 6 err) ∷ rest else failed err ∷ rest

-- What `main` prints about the schema, and the status with which it ends; `arguments` are those
-- behind the name of the program.
module _ (float : Float) (order : List Key → List Key) (load : String → Option Manifest)
    (schema_exists : Bool) (validate : Option (Manifest → Option String)) where
  abbrev compared : Option Manifest → Option Manifest → Result (List SchemaLine × ℕ)
  compared none ground_truth = ok ([], 1)
  compared (some generated) none = ok ([], 1)
  compared (some generated) (some ground_truth) = do
    report ← compare_manifests float order generated ground_truth
    ok (
      if schema_exists then schema_lines (validate_schema validate generated) else [],
      verdict report,
    )

  unfoldable pub verify : List String → Result (List SchemaLine × ℕ)
  unfolding schema_lines validate_schema compare_manifests verdict
  verify (generated_path ∷ (ground_truth_path ∷ rest)) =
      compared (load generated_path) (load ground_truth_path)
  verify (path ∷ []) = ok ([], 1)
  verify [] = ok ([], 1)
