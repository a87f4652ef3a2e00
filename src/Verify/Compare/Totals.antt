-- ===== src/Verify/Compare/Totals.antt =====
-- The failures and warnings of a whole comparison.
use schedcore.Prelude.{
  ◌+◌, ◌≡◌, ◌≢◌, List, length, not, arith, ◌==◌, string_eq, nat_eq, option_eq, pair_eq,
}
use schedcore.Prelude.Dict.{keys}
use schedcore.Prelude.Float.{Float}
use schedcore.Prelude.Result.{ok}
use schedcore.Manifest.{absent, Manifest, get}
use schedcore.Verify.{Key, normalize_threads, set_minus, set_and, compute_metrics}
use schedcore.Verify.Compare.{
  Report, start, say, info, heading, is_explained, check_default_role, check_rationale,
  check_backgrounds, check_foregrounds, summarize, report_metrics, compare_manifests,
}
use schedcore.Verify.Compare.Tally.{
  one_if, role_fails, role_warns, count_missing, count_partial, IsSetOrder, check_backgrounds-adds,
  check_foregrounds-adds, summarize-adds, check_default_role-adds, check_rationale-adds,
  check_application-adds, check_method-adds, check_extras-adds, extras_known, report_metrics-adds,
}

module _ (float : Float) (order : List Key → List Key) (o : IsSetOrder order)
    (gen gt : Manifest) where
  -- With an application and an identification method, which the schema requires, the comparison
  -- returns a report, in whatever order a set is gone through. It has a
  -- failure for each differing application name and identification method, a missing rationale,
  -- a differing default role, each ground-truth background key with neither its own nor a
  -- similar generated key, and each safety violation; and a warning for a default role that is
  -- not set, each ground-truth background key with only a similar one, and each generated
  -- background key that is not in the ground truth's.
  pub compare_manifests_tally :
      gen.application ≢ absent
      → gen.identification_method ≢ absent
      → let g = normalize_threads gen in
        let t = normalize_threads gt in
        (r : Report) × (compare_manifests float order gen gt ≡ ok r)
        × (r.fails
            ≡ one_if (not (get gen.application == get gt.application))
              + one_if (not (get gen.identification_method == get gt.identification_method))
              + one_if (not (is_explained (get gen.rationale)))
              + one_if (role_fails (get gen.default_role) (get gt.default_role))
              + count_missing g.bg t.bg
              + length (set_and (keys t.fg) (keys g.bg)))
        × (r.warnings
            ≡ one_if (role_warns (get gen.default_role) (get gt.default_role))
              + count_partial g.bg t.bg
              + length (set_minus (keys g.bg) (keys t.bg)))
  unfolding compare_manifests
  compare_manifests_tally ha hm =
      let g = normalize_threads gen in
      let t = normalize_threads gt in
      let gr = get gen.default_role in
      let tr = get gt.default_role in
      let extra = set_minus (keys g.bg) (keys t.bg) in
      let (r1, e1, f1, w1) = check_application-adds gen gt start ha in
      let (r2, e2, f2, w2) = check_method-adds gen gt r1 hm in
      let r3 = check_default_role gr tr (check_rationale gen r2) in
      let r3' = say info (heading "Background Thread Discovery") r3 in
      let r4 = check_backgrounds g.bg t.bg r3' in
      let r4' = say info (heading "Foreground Thread Safety") r4 in
      let r5 = check_foregrounds g.bg t.fg r4' in
      let r5' = say info (heading "Extra Discoveries") r5 in
      let (r6, e6, f6, w6) =
        check_extras-adds g.bg (order extra) r5' (extras_known order o g.bg (keys t.bg)) in
      let r6' = say info (heading "Generated Manifest Summary") r6 in
      let r7 = summarize gen.threads r6' in
      let m = compute_metrics float gen gt in
      (
        report_metrics float m r7,
        rw (e1, e2, e6),
        omega (
          arith,
          check_rationale-adds gen r2,
          check_default_role-adds gr tr (check_rationale gen r2),
          check_backgrounds-adds g.bg t.bg r3',
          check_foregrounds-adds g.bg t.fg r4',
          summarize-adds gen.threads r6',
          report_metrics-adds float m r7,
        ),
        omega (
          arith,
          check_rationale-adds gen r2,
          check_default_role-adds gr tr (check_rationale gen r2),
          check_backgrounds-adds g.bg t.bg r3',
          check_foregrounds-adds g.bg t.fg r4',
          o.same_length extra,
          summarize-adds gen.threads r6',
          report_metrics-adds float m r7,
        ),
      )
