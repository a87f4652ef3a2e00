-- ===== src/Bench/Redis/Summary.antt =====
-- workloads/redis/archive/utils.py: `generate_summary`. A result is the part of its dict that the
-- summary reads, `none` where the key is missing; `V` are its metrics, with the two defaults.
use schedcore.Prelude.{
  ℕ, ◌+◌, String, Option, none, some, Bool, false, List, [], ◌∷◌, ◌≡◌, refl, arith, length,
  if◌then◌else◌,
}
use schedcore.Prelude.Float.{Float}
use schedcore.Bench.Os.{ReturnCode, succeeded}

module _ (float : Float) (V : Type 0) (no_metrics no_parsed : V) where
  open float use {F, ratio, add}

  pub record TestResult : Type 0 where
    pub test_name : Option String
    pub return_code : Option ReturnCode
    pub duration : Option F
    pub metrics : Option V
    pub parsed_metrics : Option V

  pub record TestSummary : Type 0 where
    pub name : String
    pub is_success : Bool
    pub took : F
    pub metrics : V
    pub parsed_metrics : V

  pub record Summary : Type 0 where
    pub total_tests : ℕ
    pub successful_tests : ℕ
    pub failed_tests : ℕ
    pub total_duration : F
    pub test_summary : List TestSummary

  abbrev or_default {ℓ} : {A : Type ℓ} → A → Option A → A
  or_default d none = d
  or_default d (some a) = a

  -- `r.get("return_code") == 0`
  abbrev has_succeeded : Option ReturnCode → Bool
  has_succeeded none = false
  has_succeeded (some code) = succeeded code

  unfoldable pub count_successful : List TestResult → ℕ
  count_successful [] = 0
  count_successful (r ∷ rs) = (if has_succeeded r.return_code then 1 else 0) + count_successful rs

  unfoldable pub count_failed : List TestResult → ℕ
  count_failed [] = 0
  count_failed (r ∷ rs) = (if has_succeeded r.return_code then 0 else 1) + count_failed rs

  unfoldable pub sum_durations : List TestResult → F → F
  sum_durations [] total = total
  sum_durations (r ∷ rs) total = sum_durations rs (add total (or_default (ratio 0 1) r.duration))

  abbrev summarize : TestResult → TestSummary
  summarize r = record {
    name = or_default "unknown" r.test_name;
    is_success = has_succeeded r.return_code;
    took = or_default (ratio 0 1) r.duration;
    metrics = or_default no_metrics r.metrics;
    parsed_metrics = or_default no_parsed r.parsed_metrics;
  }

  unfoldable pub summaries : List TestResult → List TestSummary
  summaries [] = []
  summaries (r ∷ rs) = summarize r ∷ summaries rs

  unfoldable pub generate_summary : List TestResult → Summary
  unfolding count_successful count_failed sum_durations summaries
  generate_summary results = record {
    total_tests = length results;
    successful_tests = count_successful results;
    failed_tests = count_failed results;
    total_duration = sum_durations results (ratio 0 1);
    test_summary = summaries results;
  }

  -- How many entries of the summary have the status "success".
  abbrev pub successes : List TestSummary → ℕ
  successes [] = 0
  successes (t ∷ ts) = (if t.is_success then 1 else 0) + successes ts

  counts_add : (rs : List TestResult) → count_successful rs + count_failed rs ≡ length rs
  unfolding count_successful count_failed
  counts_add [] = refl
  counts_add (r ∷ rs) = ground (arith, counts_add rs)

  successes-summaries : (rs : List TestResult) → successes (summaries rs) ≡ count_successful rs
  unfolding summaries count_successful
  successes-summaries [] = refl
  successes-summaries (r ∷ rs) = ground (arith, successes-summaries rs)

  length-summaries : (rs : List TestResult) → length (summaries rs) ≡ length rs
  unfolding summaries
  length-summaries [] = refl
  length-summaries (r ∷ rs) = ground (arith, length-summaries rs)

  -- In a summary the tests that succeeded and those that failed add up to all tests, there is an entry for each test, and as many entries have the status "success" as tests succeeded.
  pub generate_summary_counts :
      (results : List TestResult)
      → ((generate_summary results).successful_tests + (generate_summary results).failed_tests
          ≡ (generate_summary results).total_tests)
        × (length (generate_summary results).test_summary ≡ (generate_summary results).total_tests)
        × (successes (generate_summary results).test_summary
            ≡ (generate_summary results).successful_tests)
  unfolding generate_summary
  generate_summary_counts results =
      (counts_add results, length-summaries results, successes-summaries results)
