-- ===== src/Validate/Improvement.antt =====
-- What the averages and the percentages are for whole numbers, and when there is a result.
use schedcore.Prelude.{
  ℕ, zero, suc, ◌+◌, ◌-◌, ◌*◌, ◌^◌, ◌<◌, ◌≤◌, ◌≡◌, refl, ap, ◌∙◌, String, Option, none, some, List,
  [], ◌∷◌, length, arith, ltb, Option-cases, inl, inr, if◌then◌else◌,
}
use schedcore.Prelude.{◌<>◌}
use schedcore.Prelude.Text.{show}
use schedcore.Prelude.Float.{Float, IsIeee}
use schedcore.Prelude.Float.Compare.{lt_ratio}
use schedcore.Validate.{
  Side, Outcome, RocksdbRun, collect_runs, outcome, sum, average, percent, compute_improvement,
  parse_rocksdb, run_numbers, average_rocksdb, min,
}

length-collect_runs {ℓ} :
    {R : Type ℓ} (read_run : String → Option R) (start ending : String) (is : List ℕ)
    → length (collect_runs read_run start ending is) ≤ length is
unfolding collect_runs
length-collect_runs read_run start ending [] = omega arith
length-collect_runs read_run start ending (i ∷ is) =
    let rest = length-collect_runs read_run start ending is in
    elim (Option-cases (read_run (start <> (show i <> ending)))) [
      | inl e ↦ rw e (omega arith)
      | inr (r, e) ↦ rw e (omega arith)
    ]

module _ (float : Float) where
  abbrev runs_of : Option (Outcome float) → ℕ
  runs_of none = 0
  runs_of (some o) = o.runs

  runs-outcome :
      {R : Type 0} (workload scheduler : String) (averaged : List R → Side float) (xs ys : List R)
      (o : Outcome float)
      → length xs ≤ 9
      → outcome float workload scheduler averaged xs ys ≡ some o
      → (0 < o.runs) × (o.runs ≤ 9)
  unfolding outcome
  runs-outcome workload scheduler averaged [] ys o small h = cc
  runs-outcome workload scheduler averaged (x ∷ xs) [] o small h = cc
  runs-outcome workload scheduler averaged (x ∷ xs) (y ∷ ys) o small h =
      let same : min (suc (length xs)) (suc (length ys)) ≡ o.runs = ap runs_of h in ground arith

  -- A result of the RocksDB benchmark stands on one to nine runs of each scheduler.
  pub runs-parse_rocksdb :
      (read_run : String → Option (RocksdbRun float)) (o : Outcome float)
      → parse_rocksdb float read_run ≡ some o
      → (0 < o.runs) × (o.runs ≤ 9)
  unfolding parse_rocksdb
  runs-parse_rocksdb read_run o h =
      runs-outcome "rocksdb" "rocksdb_v7" (average_rocksdb float)
        (collect_runs read_run "cfs_run" ".txt" run_numbers)
        (collect_runs read_run "v7_run" ".txt" run_numbers) o
        (length-collect_runs read_run "cfs_run" ".txt" run_numbers) h

module _ (float : Float) (laws : IsIeee float) where
  open float use {F, ratio, mul}

  abbrev pub copies : ℕ → F → List F
  copies zero x = []
  copies (suc n) x = x ∷ copies n x

  sum-copies :
      (n a b : ℕ)
      → b + n * a < 2 ^ 53
      → sum float (copies n (ratio a 1)) (ratio b 1) ≡ ratio (b + n * a) 1
  unfolding sum
  sum-copies zero a b h = ap (λ t. ratio t 1) (omega arith)
  sum-copies (suc n) a b h =
      let regroup : b + a + n * a ≡ b + suc n * a = omega arith in
      ap (sum float (copies n (ratio a 1))) (laws.add_exact b a (omega arith))
      ∙ sum-copies n a (b + a) (omega arith)
      ∙ ap (λ t. ratio t 1) regroup

  -- The average of equal whole numbers is that number, if their sum is below 2^53.
  pub average-copies :
      (n a : ℕ)
      → 0 < n
      → n < 2 ^ 53
      → n * a < 2 ^ 53
      → average float (copies n (ratio a 1)) n ≡ ratio a 1
  unfolding average
  average-copies n a h small total =
      rw
        (
          average,
          sum-copies n a 0 (omega arith),
          laws.div_exact (0 + n * a) n h (omega arith) small,
        )
        (laws.ratio_eq (0 + n * a) n a 1 h (omega arith) (omega arith))

  percent_def : (b c : F) → percent float b c ≡ mul (float.div (float.sub c b) b) (ratio 100 1)
  unfolding percent
  percent_def b c = refl

  -- For whole throughputs that do not fall, the improvement is a hundred times the fraction that was
  -- gained, and there is none for a baseline of 0.
  pub compute_improvement-throughput :
      (base custom : Side float) (b c : ℕ)
      → base.throughput ≡ ratio b 1
      → custom.throughput ≡ ratio c 1
      → b ≤ c
      → c < 2 ^ 52
      → (compute_improvement float base custom).throughput_pct
        ≡ (if ltb 0 b then some (mul (ratio (c - b) b) (ratio 100 1)) else none)
  unfolding compute_improvement percent
  compute_improvement-throughput base custom zero c eb ec grows small =
      rw
        (
          eb,
          ec,
          lt_ratio float laws 0 1 0 1 (omega arith) (omega arith) (omega arith) (omega arith),
        )
        (ground arith)
  compute_improvement-throughput base custom (suc b) c eb ec grows small =
      rw
        (
          eb,
          ec,
          laws.is_zero_exact (suc b) (omega arith) (omega arith),
          lt_ratio float laws (suc b) 1 0 1 (omega arith) (omega arith) (omega arith) (omega arith),
          percent_def,
          laws.sub_exact c (suc b) grows (omega arith),
          laws.div_exact (c - suc b) (suc b) (omega arith) (omega arith) (omega arith),
        )
        (ground arith)
