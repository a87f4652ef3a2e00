-- ===== src/Tests/Validating.antt =====
-- stage4_validate.py at concrete inputs.
use schedcore.Prelude.{
  char_eq, ℕ, ◌≡◌, refl, String, Option, none, some, ◌==◌, string_eq, if◌then◌else◌,
}
use schedcore.Prelude.Float.Fixed.{fixed}
use schedcore.Prelude.Result.{Result, ok, raise, value_error}
use schedcore.Validate.Parsers.{parse_rocksdb_text, parse_wrk2_text, parse_rocksdb_files}
use schedcore.Tests.Data.{ascii}
use schedcore.Validate.{Outcome, Side, RocksdbRun}

abbrev run : RocksdbRun fixed
run = record {
  ops_sec = 50000;
  p50 = fixed.ratio 8301 100;
  p99 = fixed.ratio 22390 100;
  p99_9 = fixed.ratio 39663 10;
  p99_99 = fixed.ratio 997598 100;
}

-- Every file holds the same run.
abbrev read_run : String → Option (RocksdbRun fixed)
read_run path = some run

abbrev side : ℕ → Side fixed
side n = record {
  throughput = fixed.ratio n 1;
  latency_us = record { p50 = none; p99 = none; p99_9 = none; p99_99 = none };
}

-- `int` and `float` of the texts below
abbrev int : String → ℕ
int text = if text == "41042" then 41042 else 0

abbrev parse_float : String → Option fixed.F
parse_float text =
    if text == "1.2.3"
    then none
    else if text == "83.01"
    then some (fixed.ratio 8301 100)
    else some (fixed.ratio 2 1)

abbrev db_bench : String
db_bench =
    "readrandom : 24.3 micros/op 41042 ops/sec;\nPercentiles: P50: 83.01 P75: 106.78 P99: 223.90 P99.9: 3966.30 P99.99: 9975.98\n"

abbrev ops_and_median : Result (Option (RocksdbRun fixed)) → Option (ℕ × fixed.F)
ops_and_median (ok (some r)) = some (r.ops_sec, r.p50)
ops_and_median (ok none) = none
ops_and_median (raise e) = none

parse_rocksdb_text_runs :
    ops_and_median (parse_rocksdb_text ascii fixed int parse_float (some db_bench))
    ≡ some (41042, fixed.ratio 8301 100)
unfolding parse_rocksdb_text char_eq string_eq
parse_rocksdb_text_runs = refl

parse_wrk2_text_raises :
    parse_wrk2_text ascii fixed int parse_float (some "x\n 50.000%    1.2.3ms\n")
    ≡ raise value_error
unfolding parse_wrk2_text char_eq string_eq
parse_wrk2_text_raises = refl

abbrev read : String → Option String
read path = some db_bench

abbrev rocksdb_result : Option (Outcome fixed)
unfolding parse_rocksdb_files
rocksdb_result = value_of (parse_rocksdb_files ascii fixed int parse_float read)
  where
    value_of : Result (Option (Outcome fixed)) → Option (Outcome fixed)
    value_of (ok r) = r
    value_of (raise e) = none
