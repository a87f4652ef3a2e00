-- ===== src/Validate/DbSim.antt =====
-- pipeline/stage4_validate.py: `parse_db_sim`, on the value that `json.load` reads from the file of
-- results, `none` if there is no such file.
pub mod Saved
use schedcore.Prelude.{String, Option, none, some}
use schedcore.Prelude.Float.{Float}
use schedcore.Prelude.Json.{Json, null, number, object, empty, get}
use schedcore.Prelude.Result.{Result, ok, ◌>>=◌}

-- `"p99.9"` is `None` on both sides.
pub record Report (F : Type 0) : Type 0 where
  pub throughput : Json F
  pub p50 : Json F
  pub p99 : Json F
  pub max : Json F

pub record DbSimOutcome (F : Type 0) : Type 0 where
  pub baseline : Report F
  pub custom : Report F

module _ (float : Float) where
  open float use {F, ratio}

  abbrev pub J : Type 0
  J = Json F

  -- `{}` and `0`
  abbrev pub no_entries : J
  no_entries = object empty

  abbrev pub zero_ops : J
  zero_ops = number (ratio 0 1)

  -- The throughput of one configuration.
  abbrev pub throughput_of : J → Result J
  throughput_of config = do
    compaction ← get "compaction_throughput" no_entries config
    get "ops_per_sec" zero_ops compaction

  -- The dict of one configuration, from its latencies and its throughput.
  abbrev pub report_of : J → J → Result (Report F)
  report_of lat tput = do
    p50 ← get "p50" null lat
    p99 ← get "p99" null lat
    max ← get "max" null lat
    ok (record { throughput = tput; p50 = p50; p99 = p99; max = max })

  unfoldable pub parse_data : J → Result (Option (DbSimOutcome F))
  parse_data data_read = do
    cfs ← get "CFS (default)" no_entries data_read
    custom ← get "db_aware" no_entries data_read
    cfs_lat ← get "query_latency_us" no_entries cfs
    custom_lat ← get "query_latency_us" no_entries custom
    cfs_tput ← throughput_of cfs
    custom_tput ← throughput_of custom
    baseline ← report_of cfs_lat cfs_tput
    customized ← report_of custom_lat custom_tput
    ok (some (record { baseline = baseline; custom = customized }))

  unfoldable pub parse_db_sim : Option J → Result (Option (DbSimOutcome F))
  unfolding parse_data
  parse_db_sim none = ok none
  parse_db_sim (some data_read) = parse_data data_read
