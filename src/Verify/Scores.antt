-- ===== src/Verify/Scores.antt =====
-- Precision, recall and F1 as floating-point numbers.
use schedcore.Prelude.{
  ℕ, zero, suc, ◌↔◌, ◌+◌, ◌^◌, ◌<◌, ◌≡◌, refl, ap, ◌∙◌, true, false, length, arith, lt→ltb,
  string_eq, nat_eq, option_eq, pair_eq,
}
use schedcore.Prelude.Dict.{keys, has_key}
use schedcore.Prelude.Float.{Float, IsIeee}
use schedcore.Manifest.{Manifest}
use schedcore.Verify.{
  Key, Counts, Metrics, share, f1_score, score, compute_metrics, normalize_threads,
}
use schedcore.Verify.Counting.{
  counts_of, count_keys_recall, no_false_negatives_iff, no_safety_violations_iff,
  no_extra_discoveries,
}

count_keys_self :
    (m : Manifest)
    → ((k : Key)
        → has_key k (normalize_threads m).fg ≡ true
        → has_key k (normalize_threads m).bg ≡ false)
    → counts_of m m ≡ record {
      true_positives = length (keys (normalize_threads m).bg);
      false_negatives = 0;
      safety_violations = 0;
      extra_discoveries = 0;
    }
count_keys_self m disjoint = ground (
  arith,
  count_keys_recall m m,
  (no_false_negatives_iff m m).1 (λ k h. h),
  (no_safety_violations_iff m m).1 disjoint,
  no_extra_discoveries m,
)

module _ (float : Float) (laws : IsIeee float) where
  open float use {F, ratio, lt}

  share_full : (a : ℕ) → share float a (a + 0) ≡ ratio 1 1
  unfolding share
  share_full a = ground (arith, laws.ratio_eq a (a + 0) 1 1)

  share_part : (a b : ℕ) → a + b < 2 ^ 52 → 0 < b → lt (share float a (a + b)) (ratio 1 1) ≡ true
  unfolding share
  share_part a b small h = rw (lt→ltb 0 (a + b) (omega arith)) (
      laws.lt_complete 1 1 a (a + b) (omega arith) (omega arith) (omega arith) (omega arith)
        (omega arith))

  -- A share is below one exactly when something else counts.
  share_below_one :
      (a b : ℕ) → a + b < 2 ^ 52 → (lt (share float a (a + b)) (ratio 1 1) ≡ true) ↔ (0 < b)
  share_below_one a zero small = (
    λ h.
        absurd (
          omega
            (arith, laws.lt_sound 1 1 1 1 (omega arith) (omega arith) (rw (share_full a) at h))),
    λ h. absurd (omega arith),
  )
  share_below_one a (suc b) small =
      (λ h. omega arith, λ h. share_part a (suc b) small (omega arith))

  f1_of_ones : f1_score float (ratio 1 1) (ratio 1 1) ≡ ratio 1 1
  unfolding f1_score
  f1_of_ones =
      rw
        (
          laws.add_exact 1 1 (omega arith),
          laws.mul_exact 2 1 (omega arith),
          laws.mul_exact 2 1 (omega arith),
          laws.lt_complete 2 1 0 1 (omega arith) (omega arith) (omega arith) (omega arith)
              (omega arith),
          laws.div_exact 2 2 (omega arith) (omega arith) (omega arith),
        )
        (laws.ratio_eq 2 2 1 1 (omega arith) (omega arith) (omega arith))

  -- Precision is below 1 exactly when a generated background key is a safety violation or an
  -- extra discovery, and recall exactly when one of the ground truth was not discovered, for
  -- counts that a double holds exactly.
  pub compute_metrics_below_one :
      (gen gt : Manifest)
      → let c = counts_of gen gt in
        let m = compute_metrics float gen gt in
        c.true_positives + (c.safety_violations + c.extra_discoveries) < 2 ^ 52
        → c.true_positives + c.false_negatives < 2 ^ 52
        → ((lt m.precision (ratio 1 1) ≡ true) ↔ (0 < c.safety_violations + c.extra_discoveries))
          × ((lt m.recall (ratio 1 1) ≡ true) ↔ (0 < c.false_negatives))
  unfolding compute_metrics
  compute_metrics_below_one gen gt small small' =
      let c = counts_of gen gt in
      (
        share_below_one c.true_positives (c.safety_violations + c.extra_discoveries) small,
        share_below_one c.true_positives c.false_negatives small',
      )

  abbrev pub perfect : ℕ → Metrics float
  perfect n = record {
    counts = record {
      true_positives = n;
      false_negatives = 0;
      safety_violations = 0;
      extra_discoveries = 0;
    };
    precision = ratio 1 1;
    recall = ratio 1 1;
    f1 = ratio 1 1;
  }

  score_fields :
      (c : Counts)
      → let p =
          share float c.true_positives
            (c.true_positives + (c.safety_violations + c.extra_discoveries)) in
        let r = share float c.true_positives (c.true_positives + c.false_negatives) in
        score float c ≡ record { counts = c; precision = p; recall = r; f1 = f1_score float p r }
  unfolding score
  score_fields c = refl

  score-perfect : (n : ℕ) → score float (perfect n).counts ≡ perfect n
  score-perfect n = rw (score_fields, share_full n, f1_of_ones)

  -- A manifest that gives no key both roles, compared with itself, scores 1 throughout, with a
  -- true positive for each of its background keys.
  pub compute_metrics_self :
      (m : Manifest)
      → ((k : Key)
          → has_key k (normalize_threads m).fg ≡ true
          → has_key k (normalize_threads m).bg ≡ false)
      → compute_metrics float m m ≡ perfect (length (keys (normalize_threads m).bg))
  unfolding compute_metrics
  compute_metrics_self m disjoint =
      ap (score float) (count_keys_self m disjoint)
      ∙ score-perfect (length (keys (normalize_threads m).bg))
