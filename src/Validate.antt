-- ===== src/Validate.antt =====
-- pipeline/stage4_validate.py: the averages over the runs of a benchmark and the improvement over the
-- baseline. `read_run` is the parser of one file by its name in the directory of results, `none`
-- where it returns `None`.
pub mod Improvement
pub mod Parsers
pub mod DbSim
pub mod Main
use schedcore.Prelude.{
  ℕ, suc, ◌+◌, String, ◌<>◌, Option, none, some, Bool, true, false, List, [], ◌∷◌, length, ltb,
  ◌==◌, ◌&&◌, ◌||◌, not, is_empty, string_eq, if◌then◌else◌,
}
use schedcore.Prelude.Text.{show}
use schedcore.Prelude.Dict.{Dict, lookup}
use schedcore.Prelude.Float.{Float}

abbrev pub min : ℕ → ℕ → ℕ
min a b = if ltb b a then b else a

-- `range(1, 10)`
abbrev pub run_numbers : List ℕ
run_numbers = 1 ∷ 2 ∷ 3 ∷ 4 ∷ 5 ∷ 6 ∷ 7 ∷ 8 ∷ 9 ∷ []

module _ {ℓ} {R : Type ℓ} where
  -- The runs that the loop appends, for one of its two lists.
  abbrev pub add_run : Option R → List R → List R
  add_run none runs = runs
  add_run (some r) runs = r ∷ runs

  unfoldable pub collect_runs : (String → Option R) → String → String → List ℕ → List R
  collect_runs read_run start ending [] = []
  collect_runs read_run start ending (i ∷ is) =
      add_run (read_run (start <> (show i <> ending))) (collect_runs read_run start ending is)

module _ (float : Float) where
  open float use {F, ratio, add, sub, mul, div, lt, is_zero}

  -- `dict.get(key)` of the latencies.
  pub record Latency : Type 0 where
    pub p50 : Option F
    pub p99 : Option F
    pub p99_9 : Option F
    pub p99_99 : Option F

  pub record Side : Type 0 where
    pub throughput : F
    pub latency_us : Latency

  pub record Outcome : Type 0 where
    pub workload : String
    pub scheduler : String
    pub runs : ℕ
    pub baseline : Side
    pub custom : Side

  unfoldable pub sum : List F → F → F
  sum [] total = total
  sum (x ∷ xs) total = sum xs (add total x)

  -- `sum(xs) / n`
  unfoldable pub average : List F → ℕ → F
  unfolding sum
  average xs n = div (sum xs (ratio 0 1)) (ratio n 1)

  unfoldable pub outcome :
      {R : Type 0} → String → String → (List R → Side) → List R → List R → Option Outcome
  outcome workload scheduler averaged cfs_runs custom_runs =
      if is_empty cfs_runs || is_empty custom_runs
      then none
      else some (record {
        workload = workload;
        scheduler = scheduler;
        runs = min (length cfs_runs) (length custom_runs);
        baseline = averaged cfs_runs;
        custom = averaged custom_runs;
      })

  pub record RocksdbRun : Type 0 where
    pub ops_sec : ℕ
    pub p50 : F
    pub p99 : F
    pub p99_9 : F
    pub p99_99 : F

  abbrev each {κ} : {R : Type κ} → (R → F) → List R → List F
  each f [] = []
  each f (r ∷ rs) = f r ∷ each f rs

  abbrev sum_ops : List RocksdbRun → ℕ
  sum_ops [] = 0
  sum_ops (r ∷ rs) = r.ops_sec + sum_ops rs

  unfoldable pub average_rocksdb : List RocksdbRun → Side
  unfolding average
  average_rocksdb runs =
      let n = length runs in
      record {
        throughput = ratio (sum_ops runs) n;
        latency_us = record {
          p50 = some (average (each (λ r. r.p50) runs) n);
          p99 = some (average (each (λ r. r.p99) runs) n);
          p99_9 = some (average (each (λ r. r.p99_9) runs) n);
          p99_99 = some (average (each (λ r. r.p99_99) runs) n);
        };
      }

  unfoldable pub parse_rocksdb : (String → Option RocksdbRun) → Option Outcome
  unfolding outcome average_rocksdb collect_runs
  parse_rocksdb read_run =
      outcome "rocksdb" "rocksdb_v7" average_rocksdb
        (collect_runs read_run "cfs_run" ".txt" run_numbers)
        (collect_runs read_run "v7_run" ".txt" run_numbers)

  pub record RedisRow : Type 0 where
    pub rps : F
    pub p50_ms : F
    pub p99_ms : F

  -- The GET row, else the SET row, else 0.
  abbrev field_or_zero : (RedisRow → F) → Option RedisRow → F
  field_or_zero f none = ratio 0 1
  field_or_zero f (some row) = f row

  unfoldable pub primary : Dict String RedisRow → Option RedisRow
  primary run = elim (lookup "GET" run) [ some row ↦ some row | none ↦ lookup "SET" run ]

  unfoldable pub average_redis : List (Dict String RedisRow) → Side
  unfolding average primary
  average_redis runs =
      let n = length runs in
      let field =
        λ (f : RedisRow → F). average (each (λ run. field_or_zero f (primary run)) runs) n in
      record {
        throughput = field (λ row. row.rps);
        latency_us = record {
          p50 = some (mul (field (λ row. row.p50_ms)) (ratio 1000 1));
          p99 = some (mul (field (λ row. row.p99_ms)) (ratio 1000 1));
          p99_9 = none;
          p99_99 = none;
        };
      }

  -- An empty dict is left out, as `None` is.
  abbrev not_empty : Option (Dict String RedisRow) → Option (Dict String RedisRow)
  not_empty none = none
  not_empty (some run) = if is_empty run then none else some run

  unfoldable pub parse_redis : (String → Option (Dict String RedisRow)) → Option Outcome
  unfolding outcome average_redis collect_runs
  parse_redis read_run =
      outcome "redis" "redis_aware" average_redis
        (collect_runs (λ path. not_empty (read_run path)) "cfs_run" ".csv" run_numbers)
        (collect_runs (λ path. not_empty (read_run path)) "redis_aware_run" ".csv" run_numbers)

  pub record NginxRun : Type 0 where
    pub rps : F
    pub latency : Latency

  -- `[r[key] for r in runs if key in r]`
  abbrev present : (Latency → Option F) → List NginxRun → List F
  present key [] = []
  present key (r ∷ rs) = add_run (key r.latency) (present key rs)

  unfoldable pub average_key : (Latency → Option F) → List NginxRun → Option F
  unfolding average
  average_key key runs =
      let vals = present key runs in
      if is_empty vals then none else some (average vals (length vals))

  unfoldable pub average_nginx : List NginxRun → Side
  unfolding average average_key
  average_nginx runs = record {
    throughput = average (each (λ r. r.rps) runs) (length runs);
    latency_us = record {
      p50 = average_key (λ l. l.p50) runs;
      p99 = average_key (λ l. l.p99) runs;
      p99_9 = average_key (λ l. l.p99_9) runs;
      p99_99 = average_key (λ l. l.p99_99) runs;
    };
  }

  unfoldable pub parse_nginx : (String → Option NginxRun) → Option Outcome
  unfolding outcome average_nginx collect_runs
  parse_nginx read_run =
      outcome "nginx" "nginx_aware" average_nginx
        (collect_runs read_run "cfs_run" ".txt" run_numbers)
        (collect_runs read_run "nginx_aware_run" ".txt" run_numbers)

  pub record Gains : Type 0 where
    pub throughput_pct : Option F
    pub p50_pct : Option F
    pub p99_pct : Option F
    pub p99_9_pct : Option F
    pub p99_99_pct : Option F

  -- `(custom - base) / base * 100`
  unfoldable pub percent : F → F → F
  percent base custom = mul (div (sub custom base) base) (ratio 100 1)

  unfoldable pub latency_pct : Option F → Option F → Option F
  unfolding percent
  latency_pct (some base) (some custom) =
      if not (is_zero base) && (not (is_zero custom) && lt (ratio 0 1) base)
      then some (percent base custom)
      else none
  latency_pct base custom = none

  unfoldable pub compute_improvement : Side → Side → Gains
  unfolding percent latency_pct
  compute_improvement base custom = record {
    throughput_pct =
        if not (is_zero base.throughput) && lt (ratio 0 1) base.throughput
        then some (percent base.throughput custom.throughput)
        else none;
    p50_pct = latency_pct base.latency_us.p50 custom.latency_us.p50;
    p99_pct = latency_pct base.latency_us.p99 custom.latency_us.p99;
    p99_9_pct = latency_pct base.latency_us.p99_9 custom.latency_us.p99_9;
    p99_99_pct = latency_pct base.latency_us.p99_99 custom.latency_us.p99_99;
  }
