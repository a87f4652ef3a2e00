-- ===== src/Verify/Counting.antt =====
-- What the four counts of `compute_metrics` add up to.
use schedcore.Prelude.{
  ◌+◌, ◌≡◌, refl, ◌↔◌, true, false, List, [], ◌∷◌, length, arith, contains, string_eq, nat_eq,
  option_eq, pair_eq,
}
use schedcore.Prelude.Dict.{keys, has_key}
use schedcore.Manifest.{Manifest}
use schedcore.Verify.{Key, Counts, set_and, set_minus, set_or, count_keys, normalize_threads}
use schedcore.Verify.Sets.{length-and-minus, length-set_and_comm, length-split, contains-set_or}
use schedcore.Verify.Lookups.{normalize_threads-IsDistinct}

abbrev pub counts_of : Manifest → Manifest → Counts
counts_of gen gt = count_keys (normalize_threads gen) (normalize_threads gt)

-- Every background key of the ground truth is a true positive or a false negative, and no key
-- is both.
pub count_keys_recall :
    (gen gt : Manifest)
    → (counts_of gen gt).true_positives + (counts_of gen gt).false_negatives
      ≡ length (keys (normalize_threads gt).bg)
unfolding count_keys
count_keys_recall gen gt =
    let g = normalize_threads gen in
    let t = normalize_threads gt in
    let dg = normalize_threads-IsDistinct gen in
    let dt = normalize_threads-IsDistinct gt in
    omega (
      arith,
      length-and-minus (keys t.bg) (keys g.bg),
      length-set_and_comm (keys g.bg) (keys t.bg) dg.bg dt.bg,
    )

-- True positives, safety violations and extra discoveries count every generated background key
-- once, and once more each key to which the ground truth itself gives both roles.
pub count_keys_precision :
    (gen gt : Manifest)
    → let g = normalize_threads gen in
      let t = normalize_threads gt in
      (counts_of gen gt).true_positives
        + ((counts_of gen gt).safety_violations + (counts_of gen gt).extra_discoveries)
      ≡ length (keys g.bg) + length (set_and (set_and (keys g.bg) (keys t.bg)) (keys t.fg))
unfolding count_keys
count_keys_precision gen gt =
    let g = normalize_threads gen in
    let t = normalize_threads gt in
    let dg = normalize_threads-IsDistinct gen in
    let dt = normalize_threads-IsDistinct gt in
    omega (
      arith,
      length-split (keys g.bg) (keys t.bg) (keys t.fg),
      length-set_and_comm (keys t.fg) (keys g.bg) dt.fg dg.bg,
    )

set_and-empty :
    (xs ys : List Key) (k : Key)
    → length (set_and xs ys) ≡ 0
    → contains xs k ≡ true
    → contains ys k ≡ false
unfolding set_and
set_and-empty [] ys k e h = ground arith
set_and-empty (x ∷ xs) ys k e h = ground (arith, set_and-empty xs ys k)

empty-set_and :
    (xs ys : List Key)
    → ((k : Key) → contains xs k ≡ true → contains ys k ≡ false)
    → length (set_and xs ys) ≡ 0
unfolding set_and
empty-set_and [] ys h = refl
empty-set_and (x ∷ xs) ys h = ground (arith, h x, empty-set_and xs ys (λ k m. h k (ground arith)))

set_minus-empty :
    (xs ys : List Key) (k : Key)
    → length (set_minus xs ys) ≡ 0
    → contains xs k ≡ true
    → contains ys k ≡ true
unfolding set_minus
set_minus-empty [] ys k e h = ground arith
set_minus-empty (x ∷ xs) ys k e h = ground (arith, set_minus-empty xs ys k)

empty-set_minus :
    (xs ys : List Key)
    → ((k : Key) → contains xs k ≡ true → contains ys k ≡ true)
    → length (set_minus xs ys) ≡ 0
unfolding set_minus
empty-set_minus [] ys h = refl
empty-set_minus (x ∷ xs) ys h =
    ground (arith, h x, empty-set_minus xs ys (λ k m. h k (ground arith)))

-- No safety violation is counted exactly when no key of the ground truth's foreground threads is
-- a background key of the generated manifest.
pub no_safety_violations_iff :
    (gen gt : Manifest)
    → ((counts_of gen gt).safety_violations ≡ 0) ↔ (
        (k : Key)
        → has_key k (normalize_threads gt).fg ≡ true
        → has_key k (normalize_threads gen).bg ≡ false)
unfolding count_keys has_key
no_safety_violations_iff gen gt = (
  λ e k h. set_and-empty (keys (normalize_threads gt).fg) (keys (normalize_threads gen).bg) k e h,
  λ h. empty-set_and (keys (normalize_threads gt).fg) (keys (normalize_threads gen).bg) h,
)

-- No false negative is counted exactly when every background key of the ground truth is one of
-- the generated manifest.
pub no_false_negatives_iff :
    (gen gt : Manifest)
    → ((counts_of gen gt).false_negatives ≡ 0) ↔ (
        (k : Key)
        → has_key k (normalize_threads gt).bg ≡ true
        → has_key k (normalize_threads gen).bg ≡ true)
unfolding count_keys has_key
no_false_negatives_iff gen gt = (
  λ e k h. set_minus-empty (keys (normalize_threads gt).bg) (keys (normalize_threads gen).bg) k e h,
  λ h. empty-set_minus (keys (normalize_threads gt).bg) (keys (normalize_threads gen).bg) h,
)

pub no_extra_discoveries : (m : Manifest) → (counts_of m m).extra_discoveries ≡ 0
unfolding count_keys
no_extra_discoveries m =
    let l = normalize_threads m in
    empty-set_minus (keys l.bg) (set_or (keys l.bg) (keys l.fg))
      λ k h. ground (arith, contains-set_or (keys l.bg) (keys l.fg) k)
