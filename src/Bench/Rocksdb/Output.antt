-- ===== src/Bench/Rocksdb/Output.antt =====
-- workloads/rocksdb_dbbench/rocksdb_sched_bench.py: `parse_db_bench_output`. `int` and `parse_float`
-- are Python's `int` and `float` of a text, the latter `none` where it raises `ValueError`.
use schedcore.Prelude.{
  ℕ, String, Char, Option, none, some, Bool, true, false, not, ◌||◌, [], ◌∷◌, ◌++◌, get_elem?, ◌==◌,
  char_eq,
}
use schedcore.Prelude.Split.{Unicode}
use schedcore.Prelude.Result.{Result, raise, ok, value_error, ◌>>=◌}
use schedcore.Prelude.Regex.{
  Pattern, Item, many, lines, greedy, lazy, exactly, Found, search_for, search_text,
}
use schedcore.Prelude.Float.{Float}

-- `m.group(n + 1)`
abbrev text_of : Option String → String
text_of none = ""
text_of (some g) = g

abbrev pub group_at : ℕ → Found → String
group_at n (groups, rest) = text_of (get_elem? groups n)

-- `.` and `[^\n]`
abbrev pub in_line : Char → Bool
in_line c = not (c == "\n")

module _ (u : Unicode) where
  abbrev pub spaces : Item
  spaces = many greedy false false u.is_space

  abbrev pub number : Item
  number = many greedy true true (λ c. u.is_digit c || c == ".")

  -- `.*` and `.*?`
  abbrev rest_of_line : Item
  rest_of_line = many greedy false false in_line

  abbrev few : Item
  few = many lazy false false in_line

  unfoldable pub summary_pattern : Pattern
  unfolding exactly
  summary_pattern =
      exactly "readwhilewriting"
      ++ spaces
        ∷ (exactly ":"
            ++ spaces
              ∷ number
              ∷ spaces
              ∷ (exactly "micros/op"
                  ++ spaces ∷ many greedy true true u.is_digit ∷ spaces ∷ exactly "ops/sec"))

  unfoldable pub histogram_pattern : Pattern
  unfolding exactly
  histogram_pattern =
      exactly "rocksdb.db.get.micros"
      ++ rest_of_line
        ∷ (exactly "\n"
            ++ lines
              ∷ rest_of_line
              ∷ (exactly "P99" ++ spaces ∷ (exactly ":" ++ rest_of_line ∷ [])))

  -- `label\s*:\s*([\d.]+)`
  unfoldable pub label_pattern : String → Pattern
  unfolding exactly
  label_pattern label = exactly label ++ spaces ∷ (exactly ":" ++ spaces ∷ number ∷ [])

  unfoldable pub percentiles_pattern : Pattern
  unfolding exactly
  percentiles_pattern =
      exactly "P50:"
      ++ spaces
        ∷ number
        ∷ few
        ∷ (exactly "P99:" ++ spaces ∷ number ∷ few ∷ (exactly "P99.9:" ++ spaces ∷ number ∷ []))

  module _ (float : Float) (int : String → ℕ) (parse_float : String → Option float.F) where
    open float use {F}

    -- The dict of the results, without the tail of the output.
    pub record Metrics : Type 0 where
      pub micros_per_op : Option F
      pub ops_per_sec : Option ℕ
      pub p50_us : Option F
      pub p99_us : Option F
      pub p999_us : Option F
      pub max_us : Option F

    abbrev pub no_metrics : Metrics
    no_metrics = record {
      micros_per_op = none;
      ops_per_sec = none;
      p50_us = none;
      p99_us = none;
      p999_us = none;
      max_us = none;
    }

    abbrev pub to_float : String → Result F
    to_float text = elim (parse_float text) [ some x ↦ ok x | none ↦ raise value_error ]

    abbrev with_summary : Option Found → Metrics → Result Metrics
    with_summary none result = ok result
    with_summary (some summary) result = do
      micros ← to_float (group_at 0 summary)
      ok (record result {
        micros_per_op = some micros;
        ops_per_sec = some (int (group_at 1 summary));
      })

    -- The value behind a label, if the block has the label.
    abbrev value_of : Option Found → Result (Option F)
    value_of none = ok none
    value_of (some m) = do x ← to_float (group_at 0 m); ok (some x)

    unfoldable pub labelled : String → String → Result (Option F)
    unfolding label_pattern search_for
    labelled label block = value_of (search_for (label_pattern label) block)

    abbrev with_histogram : Option String → Metrics → Result Metrics
    with_histogram none result = ok result
    with_histogram (some block) result = do
      p50 ← labelled "P50" block
      p99 ← labelled "P99" block
      p999 ← labelled "P999" block
      max ← labelled "Max" block
      ok (record result { p50_us = p50; p99_us = p99; p999_us = p999; max_us = max })

    abbrev with_percentiles : Option Found → Metrics → Result Metrics
    with_percentiles none result = ok result
    with_percentiles (some pct_line) result = do
      p50 ← to_float (group_at 0 pct_line)
      p99 ← to_float (group_at 1 pct_line)
      p999 ← to_float (group_at 2 pct_line)
      ok (record result { p50_us = some p50; p99_us = some p99; p999_us = some p999 })

    -- `if result["p99_us"] is None: …`
    abbrev with_fallback : Option F → String → Metrics → Result Metrics
    with_fallback none output result =
        with_percentiles (search_for percentiles_pattern output) result
    with_fallback (some p99) output result = ok result

    unfoldable pub parse_db_bench_output : String → Result Metrics
    unfolding summary_pattern histogram_pattern percentiles_pattern search_for search_text labelled
    parse_db_bench_output output = do
      summarised ← with_summary (search_for summary_pattern output) no_metrics
      result ← with_histogram (search_text histogram_pattern output) summarised
      with_fallback result.p99_us output result
