-- ===== src/Evaluate/Safety.antt =====
-- What the exit status says about the applications.
use schedcore.Prelude.{
  ℕ, ◌+◌, ◌≡◌, ◌↔◌, refl, sym, ◌∙◌, String, Option, none, some, true, false, List, [], ◌∷◌, arith,
  contains, ◌==◌, string_eq, nat_eq, option_eq, pair_eq, Option-cases, inl, inr, is_empty, is_some,
  length,
}
use schedcore.Prelude.Sorting.{any, str_lt, sorted, any-sorted, length-sorted}
use schedcore.Prelude.Dict.{has_key}
use schedcore.Prelude.Float.{Float}
use schedcore.Manifest.{Manifest}
use schedcore.Verify.{Key, Counts, normalize_threads, compute_metrics, score}
use schedcore.Verify.Counting.{counts_of, no_safety_violations_iff}
use schedcore.Evaluate.{
  app_name_of, any_unnamed, generated_for, evaluate_one, evaluate, measured, add_row, add_totals,
  totals, exit_status, no_counts,
}

contains-any : (xs : List String) (x : String) → any (λ y. x == y) xs ≡ contains xs x
contains-any [] x = refl
contains-any (y ∷ ys) x = ground (arith, contains-any ys x)

contains-sorted : (xs : List String) (x : String) → contains (sorted str_lt xs) x ≡ contains xs x
contains-sorted xs x =
    sym (contains-any (sorted str_lt xs) x) ∙ any-sorted (λ y. x == y) str_lt xs ∙ contains-any xs x

is_empty-length : (xs ys : List String) → length xs ≡ length ys → is_empty xs ≡ is_empty ys
is_empty-length [] [] h = refl
is_empty-length [] (y ∷ ys) h = absurd (omega arith)
is_empty-length (x ∷ xs) [] h = absurd (omega arith)
is_empty-length (x ∷ xs) (y ∷ ys) h = refl

is_empty-sorted : (xs : List String) → is_empty (sorted str_lt xs) ≡ is_empty xs
is_empty-sorted xs = is_empty-length (sorted str_lt xs) xs (length-sorted str_lt xs)

module _ (glob : String → List String) (load_json : String → Manifest) (float : Float) where
  violations_of : String → Option String → ℕ
  violations_of gt_path none = 0
  violations_of gt_path (some gen_path) =
      (counts_of (load_json gen_path) (load_json gt_path)).safety_violations

  violations : String → ℕ
  violations gt_path = violations_of gt_path (generated_for glob load_json gt_path)

  sum_violations : List String → ℕ
  sum_violations [] = 0
  sum_violations (path ∷ paths) = violations path + sum_violations paths

  safety-add_row :
      (total : Counts) (gt_path : String) (o : Option String)
      → (add_row glob load_json float total
          (measured glob load_json float gt_path o)).safety_violations
        ≡ total.safety_violations + violations_of gt_path o
  unfolding violations_of compute_metrics score
  safety-add_row total gt_path none = omega arith
  safety-add_row total gt_path (some gen_path) = refl

  safety-add_totals :
      (total : Counts) (paths : List String)
      → (add_totals glob load_json float total
          (evaluate glob load_json float paths)).safety_violations
        ≡ total.safety_violations + sum_violations paths
  unfolding add_totals evaluate evaluate_one sum_violations violations
  safety-add_totals total [] = omega arith
  safety-add_totals total (path ∷ paths) =
      let o = generated_for glob load_json path in
      omega (
        arith,
        safety-add_row total path o,
        safety-add_totals
            (add_row glob load_json float total (measured glob load_json float path o)) paths,
      )

  sum_violations-zero :
      (paths : List String)
      → sum_violations paths ≡ 0
      → (path : String) → contains paths path ≡ true
      → violations path ≡ 0
  unfolding sum_violations
  sum_violations-zero [] h path m = ground arith
  sum_violations-zero (p ∷ ps) h path m = ground (arith, sum_violations-zero ps (omega arith) path)

  zero-sum_violations :
      (paths : List String)
      → ((path : String) → contains paths path ≡ true → violations path ≡ 0)
      → sum_violations paths ≡ 0
  unfolding sum_violations
  zero-sum_violations [] h = refl
  zero-sum_violations (p ∷ ps) h =
      omega (arith, h p (ground arith), zero-sum_violations ps (λ q m. h q (ground arith)))

  -- No key of the ground truth's foreground threads is a background key of what was generated for
  -- it, if something was.
  abbrev pub IsSafe : String → Type 0
  IsSafe gt_path =
      (gen_path : String)
      → generated_for glob load_json gt_path ≡ some gen_path
      → (k : Key) → has_key k (normalize_threads (load_json gt_path)).fg ≡ true
      → has_key k (normalize_threads (load_json gen_path)).bg ≡ false

  violations-zero : (gt_path : String) → (violations gt_path ≡ 0) ↔ IsSafe gt_path
  unfolding violations violations_of
  violations-zero gt_path = elim (Option-cases (generated_for glob load_json gt_path)) [
    | inl e ↦ rw e (λ h g found. cc, λ h. refl)
    | inr (gen_path, e) ↦
        let same = no_safety_violations_iff (load_json gen_path) (load_json gt_path) in
        rw e (
          λ h g found. let same_path : gen_path ≡ g = cc in rw (sym same_path) (same.0 h),
          λ h. same.1 (h gen_path refl),
        )
  ]

  -- `None` is not the name of the application.
  abbrev pub HasName : String → Type 0
  HasName gt_path = is_some (app_name_of glob load_json gt_path) ≡ true

  all_named :
      (paths : List String)
      → any_unnamed glob load_json float (evaluate glob load_json float paths) ≡ false
      → (path : String) → contains paths path ≡ true
      → HasName path
  unfolding any_unnamed evaluate evaluate_one
  all_named [] h path m = ground arith
  all_named (p ∷ ps) h path m = ground (arith, all_named ps (ground arith) path)

  named_all :
      (paths : List String)
      → ((path : String) → contains paths path ≡ true → HasName path)
      → any_unnamed glob load_json float (evaluate glob load_json float paths) ≡ false
  unfolding any_unnamed evaluate evaluate_one
  named_all [] h = refl
  named_all (p ∷ ps) h =
      ground (arith, h p (ground arith), named_all ps (λ q m. h q (ground arith)))

  exit_status_zero :
      (found : List String)
      → (exit_status glob load_json float found ≡ 0) ↔ (
          (is_empty (sorted str_lt found) ≡ false)
          × (any_unnamed glob load_json float (evaluate glob load_json float (sorted str_lt found))
              ≡ false)
          × (sum_violations (sorted str_lt found) ≡ 0))
  unfolding exit_status totals
  exit_status_zero found = ground (arith, safety-add_totals no_counts (sorted str_lt found))

  -- The evaluation ends with status 0 exactly if there is a ground-truth manifest, and each of them has an application that is not null, and the latest manifest that was generated for that application, if there is one, makes no ground-truth foreground key a background key.
  pub exit_status_iff :
      (found : List String)
      → (exit_status glob load_json float found ≡ 0) ↔ (
          (is_empty found ≡ false)
          × ((gt_path : String) → contains found gt_path ≡ true → HasName gt_path × IsSafe gt_path))
  exit_status_iff found =
      let zero_iff = exit_status_zero found in
      let files = sorted str_lt found in
      (
        (λ h.
            let (some_file, named, none_wrong) = zero_iff.0 h in
            (
              sym (is_empty-sorted found) ∙ some_file,
              λ path m. (
                all_named files named path (contains-sorted found path ∙ m),
                (violations-zero path).0
                    (sum_violations-zero files none_wrong path (contains-sorted found path ∙ m)),
              ),
            )),
        (λ (some_file, good). zero_iff.1 (
          is_empty-sorted found ∙ some_file,
          named_all files (λ path m. (good path (sym (contains-sorted found path) ∙ m)).0),
          zero-sum_violations files λ path m.
              (violations-zero path).1 (good path (sym (contains-sorted found path) ∙ m)).1,
        )),
      )
