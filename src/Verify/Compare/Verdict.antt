-- ===== src/Verify/Compare/Verdict.antt =====
-- When `main` of pipeline/verify_manifest.py accepts a manifest.
use schedcore.Prelude.{
  ◌≡◌, refl, ap, String, ◌≢◌, ◌↔◌, Option, none, Bool, true, false, List, [], ◌∷◌, length, not,
  arith, ◌==◌, string_eq, nat_eq, option_eq, pair_eq,
}
use schedcore.Prelude.Dict.{Dict, keys, has_key}
use schedcore.Prelude.Float.{Float}
use schedcore.Prelude.Result.{ok}
use schedcore.Manifest.{absent, Manifest, get, Thread}
use schedcore.Verify.{Key, normalize_threads, set_and, count_keys}
use schedcore.Verify.Counting.{no_safety_violations_iff}
use schedcore.Verify.Compare.{Report, is_explained, find_partial, compare_manifests, verdict}
use schedcore.Verify.Compare.Tally.{one_if, role_fails, count_missing, IsSetOrder}
use schedcore.Verify.Compare.Totals.{compare_manifests_tally}

count_missing-zero :
    (gen_bg d : Dict Key Thread) (k : Key)
    → count_missing gen_bg d ≡ 0
    → has_key k d ≡ true
    → has_key k gen_bg ≡ false
    → find_partial k.1.0 gen_bg ≢ none
unfolding has_key
count_missing-zero gen_bg [] k e h f = ground arith
count_missing-zero gen_bg ((j, t) ∷ d) k e h f = ground (arith, count_missing-zero gen_bg d k)

zero-count_missing :
    (gen_bg d : Dict Key Thread)
    → ((k : Key) → has_key k d ≡ true → has_key k gen_bg ≡ false → find_partial k.1.0 gen_bg ≢ none)
    → count_missing gen_bg d ≡ 0
unfolding has_key
zero-count_missing gen_bg [] h = refl
zero-count_missing gen_bg ((j, t) ∷ d) h =
    ground (arith, h j, zero-count_missing gen_bg d (λ k m. h k (ground arith)))

-- What a manifest needs to be accepted.
pub record IsAccepted (gen gt : Manifest) : Type 0 where
  pub same_application : get gen.application ≡ get gt.application
  pub same_method : get gen.identification_method ≡ get gt.identification_method
  pub explained : is_explained (get gen.rationale) ≡ true
  pub default_role : role_fails (get gen.default_role) (get gt.default_role) ≡ false
  pub discovered :
      (k : Key)
      → has_key k (normalize_threads gt).bg ≡ true
      → has_key k (normalize_threads gen).bg ≡ false
      → find_partial k.1.0 (normalize_threads gen).bg ≢ none
  pub safe :
      (k : Key)
      → has_key k (normalize_threads gt).fg ≡ true
      → has_key k (normalize_threads gen).bg ≡ false

safe_iff :
    (gen gt : Manifest)
    → (length (set_and (keys (normalize_threads gt).fg) (keys (normalize_threads gen).bg)) ≡ 0) ↔ (
        (k : Key)
        → has_key k (normalize_threads gt).fg ≡ true
        → has_key k (normalize_threads gen).bg ≡ false)
unfolding count_keys
safe_iff gen gt = no_safety_violations_iff gen gt

verdict_zero : (r : Report) → (verdict r ≡ 0) ↔ (r.fails ≡ 0)
unfolding verdict
verdict_zero r = ground arith

one_if-zero : (b : Bool) → one_if b ≡ 0 → b ≡ false
one_if-zero b h = ground arith

zero-one_if : (b : Bool) → b ≡ false → one_if b ≡ 0
zero-one_if b h = ground arith

holds_if_passed : (b : Bool) → one_if (not b) ≡ 0 → b ≡ true
holds_if_passed b h = ground arith

same_if_passed : (a b : Option String) → one_if (not (a == b)) ≡ 0 → a ≡ b
same_if_passed a b h = ground arith

passed_if_same : (a b : Option String) → a ≡ b → one_if (not (a == b)) ≡ 0
passed_if_same a b h = ground arith

module _ (float : Float) (order : List Key → List Key) (o : IsSetOrder order)
    (gen gt : Manifest) where
  -- In whatever order a set is gone through, a manifest with an application and an identification
  -- method, which the schema requires, gets a report. The exit
  -- status is 0 exactly if its application and identification method are the ground truth's, its
  -- rationale is long enough, its default role does not differ, each ground-truth background key
  -- is generated or resembles a generated one, and no ground-truth foreground key is generated
  -- as background.
  pub verdict_iff :
      gen.application ≢ absent
      → gen.identification_method ≢ absent
      → (r : Report) × (compare_manifests float order gen gt ≡ ok r)
        × ((verdict r ≡ 0) ↔ IsAccepted gen gt)
  verdict_iff ha hm =
      let (r, e, fails, _) = compare_manifests_tally float order o gen gt ha hm in
      (
        r,
        e,
        (
          λ v.
              let none_failed : r.fails ≡ 0 = (verdict_zero r).0 v in
              record {
                same_application = same_if_passed _ _ (omega arith);
                same_method = same_if_passed _ _ (omega arith);
                explained = holds_if_passed _ (omega arith);
                default_role = one_if-zero _ (omega arith);
                discovered = λ k. count_missing-zero _ _ k (omega arith);
                safe = (safe_iff gen gt).0 (omega arith);
              },
          λ a. (verdict_zero r).1 (
              omega (
                arith,
                passed_if_same _ _ a.same_application,
                passed_if_same _ _ a.same_method,
                zero-one_if _ (ap not a.explained),
                zero-one_if _ a.default_role,
                zero-count_missing _ _ a.discovered,
                (safe_iff gen gt).1 a.safe,
              )),
        ),
      )
