-- ===== src/Verify.antt =====
-- pipeline/verify_manifest.py: the lookup of background and foreground threads, and the metrics.
pub mod Sets
pub mod Lookups
pub mod Counting
pub mod Scores
pub mod Compare
pub mod Main
use schedcore.Prelude.{
  ℕ, ◌+◌, String, Option, Bool, true, false, List, [], ◌∷◌, ◌++◌, length, ltb, ◌==◌, string_eq,
  nat_eq, option_eq, pair_eq, contains, not, if◌then◌else◌,
}
use schedcore.Prelude.Dict.{Dict, keys, insert}
use schedcore.Prelude.Float.{Float}
use schedcore.Manifest.{Thread, Manifest, Identification, get, ident, is_background}

-- `(ident.get("type"), ident.get("comm_prefix"), ident.get("comm_length"))`
abbrev pub Key : Type 0
Key = Option String × (Option String × Option ℕ)

abbrev pub key_of : Thread → Key
key_of t = let i = ident t in (get i.type, (get i.comm_prefix, get i.comm_length))

pub record Lookup : Type 0 where
  pub bg : Dict Key Thread
  pub fg : Dict Key Thread

-- One round of the loop.
unfoldable pub add_thread : Lookup → Thread → Lookup
add_thread l t =
    if is_background t
    then record l { bg = insert (key_of t) t l.bg }
    else record l { fg = insert (key_of t) t l.fg }

unfoldable pub add_threads : Lookup → List Thread → Lookup
add_threads l [] = l
add_threads l (t ∷ ts) = add_threads (add_thread l t) ts

unfoldable pub normalize_threads : Manifest → Lookup
unfolding add_threads add_thread
normalize_threads m = add_threads (record { bg = []; fg = [] }) m.threads

-- Sets of keys, as lists without repetition: `a & b`, `a - b`, `a | b`.
unfoldable pub set_and : List Key → List Key → List Key
set_and [] ys = []
set_and (x ∷ xs) ys = if contains ys x then x ∷ set_and xs ys else set_and xs ys

unfoldable pub set_minus : List Key → List Key → List Key
set_minus [] ys = []
set_minus (x ∷ xs) ys = if contains ys x then set_minus xs ys else x ∷ set_minus xs ys

unfoldable pub set_or : List Key → List Key → List Key
unfolding set_minus
set_or xs ys = xs ++ set_minus ys xs

-- The four counts of `compute_metrics`.
pub record Counts : Type 0 where
  pub true_positives : ℕ
  pub false_negatives : ℕ
  pub safety_violations : ℕ
  pub extra_discoveries : ℕ

unfoldable pub count_keys : Lookup → Lookup → Counts
unfolding set_and set_minus set_or
count_keys gen gt = record {
  true_positives = length (set_and (keys gen.bg) (keys gt.bg));
  false_negatives = length (set_minus (keys gt.bg) (keys gen.bg));
  safety_violations = length (set_and (keys gt.fg) (keys gen.bg));
  extra_discoveries = length (set_minus (keys gen.bg) (set_or (keys gt.bg) (keys gt.fg)));
}

module _ (float : Float) where
  open float use {F, ratio, add, mul, div, lt}

  pub record Metrics : Type 0 where
    pub counts : Counts
    pub precision : F
    pub recall : F
    pub f1 : F

  -- `a / n if n > 0 else 1.0`
  unfoldable pub share : ℕ → ℕ → F
  share a n = if ltb 0 n then ratio a n else ratio 1 1

  -- `2 * p * r / (p + r) if (p + r) > 0 else 0.0`
  unfoldable pub f1_score : F → F → F
  f1_score p r =
      if lt (ratio 0 1) (add p r) then div (mul (mul (ratio 2 1) p) r) (add p r) else ratio 0 1

  unfoldable pub score : Counts → Metrics
  unfolding share f1_score
  score c =
      let fp = c.safety_violations + c.extra_discoveries in
      let p = share c.true_positives (c.true_positives + fp) in
      let r = share c.true_positives (c.true_positives + c.false_negatives) in
      record { counts = c; precision = p; recall = r; f1 = f1_score p r }

  unfoldable pub compute_metrics : Manifest → Manifest → Metrics
  unfolding score normalize_threads count_keys
  compute_metrics generated ground_truth =
      score (count_keys (normalize_threads generated) (normalize_threads ground_truth))
