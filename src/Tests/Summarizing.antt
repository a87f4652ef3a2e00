-- ===== src/Tests/Summarizing.antt =====
-- The helpers of the Redis benchmarks at concrete inputs.
use schedcore.Prelude.{
  Bool, ◌==◌, ◌||◌, if◌then◌else◌, ℕ, String, Option, none, some, List, [], ◌∷◌, ◌≡◌, refl, ◌+◌,
  length, char_eq, string_eq, nat_eq, All,
}
use schedcore.Prelude.Float.Fixed.{fixed, unit}
use schedcore.Prelude.Split.{split, strip, without, occurrences}
use schedcore.Prelude.Text.{starts_with, show}
use schedcore.Prelude.Result.{ok}
use schedcore.Bench.Os.{exited}
use schedcore.Bench.Redis.Config.{number, option_line, option_line-io_threads}
use schedcore.Bench.Redis.Csv.{
  plain, fields, HasHeaders, parse_csv_output, parse_csv_output-HasHeaders,
}
use schedcore.Bench.Redis.Output.{of_test, parse_benchmark_output}
use schedcore.Bench.Redis.Summary.{TestResult, generate_summary, generate_summary_counts, successes}
use schedcore.Tests.Data.{ascii}

option_line-io_threads_example : option_line "io_threads" (number 0) ≡ ok "io-threads 0"
unfolding show
option_line-io_threads_example = option_line-io_threads 0

abbrev test : String → Option ℕ → TestResult fixed ℕ 0 0
test name code = record {
  test_name = some name;
  return_code = elim code [ none ↦ none | some n ↦ some (exited n) ];
  duration = none;
  metrics = none;
  parsed_metrics = none;
}

abbrev results : List (TestResult fixed ℕ 0 0)
results = test "GET" (some 0) ∷ test "SET" (some 1) ∷ test "PING" none ∷ []

generate_summary_counts_example :
    ((generate_summary fixed ℕ 0 0 results).successful_tests
        + (generate_summary fixed ℕ 0 0 results).failed_tests
      ≡ (generate_summary fixed ℕ 0 0 results).total_tests)
    × (length (generate_summary fixed ℕ 0 0 results).test_summary
        ≡ (generate_summary fixed ℕ 0 0 results).total_tests)
    × (successes fixed ℕ 0 0 (generate_summary fixed ℕ 0 0 results).test_summary
        ≡ (generate_summary fixed ℕ 0 0 results).successful_tests)
generate_summary_counts_example = generate_summary_counts fixed ℕ 0 0 results

abbrev no_number : String → Option ℕ
no_number text = none

abbrev csv : String
csv = "\"test\",\"rps\"\n\"GET\",\"100.5\"\n\"SET\"\n\n"

parse_csv_output_runs :
    parse_csv_output ascii no_number no_number csv
    ≡ some ((("test", plain "GET") ∷ ("rps", plain "100.5") ∷ []) ∷ [])
unfolding parse_csv_output starts_with char_eq string_eq nat_eq
parse_csv_output_runs = refl

parse_csv_output-HasHeaders_example :
    All
      (HasHeaders ascii no_number no_number ("test" ∷ "rps" ∷ []))
      ((("test", plain "GET") ∷ ("rps", plain "100.5") ∷ []) ∷ [])
unfolding fields split strip starts_with char_eq string_eq nat_eq
parse_csv_output-HasHeaders_example =
    parse_csv_output-HasHeaders ascii no_number no_number csv
      ((("test", plain "GET") ∷ ("rps", plain "100.5") ∷ []) ∷ []) parse_csv_output_runs

abbrev decimals : String → Option fixed.F
decimals text =
    if text == "1.5"
    then some (fixed.ratio 15 10)
    else if text == "9.5"
    then some (fixed.ratio 95 10)
    else if text == "50000.25"
    then some (fixed.ratio 5000025 100)
    else none

abbrev digits_only : String → Bool
digits_only text = text == "15" || text == "95"

-- The latency of 99.90% takes the place of that of 99.00%.
parse_benchmark_output_runs :
    parse_benchmark_output ascii fixed decimals digits_only
      "====== GET ======\n99.00% percentile latency 1.5\n99.90% percentile latency 9.5\n50000.25 requests per second\n"
    ≡ ok (
        (
          "GET",
          of_test (
              ("latency_p99", fixed.ratio 95 10)
              ∷ ("requests_per_second", fixed.ratio 5000025 100)
              ∷ []),
        )
        ∷ [])
unfolding parse_benchmark_output char_eq string_eq starts_with without unit occurrences
parse_benchmark_output_runs = refl
