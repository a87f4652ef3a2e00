-- ===== src/Validate/Parsers.antt =====
-- pipeline/stage4_validate.py: the parsers of one file of the RocksDB and of the Nginx benchmark.
-- `read` gives the text of a file by its path, `none` if there is no file; `int` and `parse_float`
-- are Python's `int` and `float` of a text, the latter `none` where it raises `ValueError`.
pub mod Returned
use schedcore.Prelude.{
  ℕ, String, Char, ◌<>◌, Option, none, some, Bool, true, false, ◌||◌, List, [], ◌∷◌, ◌++◌,
  get_elem?, is_some, ◌==◌, char_eq, string_eq, if◌then◌else◌,
}
use schedcore.Prelude.Split.{Unicode}
use schedcore.Prelude.Result.{Result, raise, ok, value_error, ◌>>=◌}
use schedcore.Prelude.Regex.{
  Pattern, Item, one, many, greedy, lazy, exactly, Found, match_at, search_for,
}
use schedcore.Prelude.Float.{Float}
use schedcore.Prelude.Text.{show}
use schedcore.Validate.{
  add_run, run_numbers, Outcome, outcome, average_rocksdb, average_nginx, RocksdbRun, NginxRun,
  Latency,
}

-- `m.group(n + 1)`
abbrev group_at : ℕ → Found → String
group_at n (groups, rest) = text_of (get_elem? groups n)
  where
    text_of : Option String → String
    text_of none = ""
    text_of (some g) = g

-- The first of several patterns that matches here, with its tag.
abbrev Tagged : Type 0
Tagged = Found × String

abbrev first_or : Option Found → String → Option Tagged → Option Tagged
first_or none tag other = other
first_or (some found) tag other = some (found, tag)

abbrev match_tagged : List (Pattern × String) → String → Option Tagged
match_tagged [] s = none
match_tagged ((p, tag) ∷ ps) s = first_or (match_at p s) tag (match_tagged ps s)

abbrev or_later : Option Tagged → Option Tagged → Option Tagged
or_later none later = later
or_later (some found) later = some found

-- `re.search('^…', s, re.MULTILINE)`: the first start of a line where one of the patterns matches
unfoldable pub search_line_starts : List (Pattern × String) → Bool → String → Option Tagged
unfolding match_at
search_line_starts ps at_start String.[] = if at_start then match_tagged ps String.[] else none
search_line_starts ps at_start (String.◌∷◌ c s) =
    let later = search_line_starts ps (c == "\n") s in
    if at_start then or_later (match_tagged ps (String.◌∷◌ c s)) later else later

module _ (u : Unicode) where
  abbrev some_spaces : Item
  some_spaces = many greedy true false u.is_space

  -- `[\d.]+` as a group
  abbrev number : Item
  number = many greedy true true (λ c. u.is_digit c || c == ".")

  unfoldable pub ops_pattern : Pattern
  unfolding exactly
  ops_pattern = many greedy true true u.is_digit ∷ some_spaces ∷ exactly "ops/sec"

  -- `label:\s+([\d.]+)`, and what follows
  abbrev labelled : String → Pattern → Pattern
  labelled label rest = exactly label ++ some_spaces ∷ number ∷ rest

  unfoldable pub percentiles_pattern : Pattern
  unfolding exactly
  percentiles_pattern =
      exactly "Percentiles:"
      ++ some_spaces
        ∷ labelled "P50:" (
            some_spaces
            ∷ labelled "P75:" (
                some_spaces
                ∷ labelled "P99:"
                    (some_spaces ∷ labelled "P99.9:" (some_spaces ∷ labelled "P99.99:" []))))

  -- The units exclude each other, and none starts like a number, so one pattern per unit is the same
  -- as the group `(ms|us|s)`.
  abbrev unit_pattern : String → String → Pattern
  unit_pattern label unit =
      many greedy false false u.is_space ∷ (exactly label ++ some_spaces ∷ number ∷ exactly unit)

  module _ (float : Float) (int : String → ℕ) (parse_float : String → Option float.F) where
    open float use {F, ratio, mul}

    abbrev pub to_float : String → Result F
    to_float text = elim (parse_float text) [ some x ↦ ok x | none ↦ raise value_error ]

    abbrev ops_of : Option Found → ℕ
    ops_of none = 0
    ops_of (some m) = int (group_at 0 m)

    abbrev run_of : ℕ → Option Found → Result (Option (RocksdbRun float))
    run_of ops_sec none = ok none
    run_of ops_sec (some p) = do
      p50 ← to_float (group_at 0 p)
      p99 ← to_float (group_at 2 p)
      p99_9 ← to_float (group_at 3 p)
      p99_99 ← to_float (group_at 4 p)
      ok (some (record { ops_sec = ops_sec; p50 = p50; p99 = p99; p99_9 = p99_9; p99_99 = p99_99 }))

    -- The first match of `findall` is that of `search`.
    unfoldable pub parse_rocksdb_text : Option String → Result (Option (RocksdbRun float))
    unfolding search_for ops_pattern percentiles_pattern
    parse_rocksdb_text none = ok none
    parse_rocksdb_text (some text) =
        run_of (ops_of (search_for ops_pattern text)) (search_for percentiles_pattern text)

    -- A match of a percentile, with its unit, in microseconds.
    abbrev in_microseconds : String → F → F
    in_microseconds unit val =
        if unit == "s"
        then mul val (ratio 1000000 1)
        else if unit == "ms"
        then mul val (ratio 1000 1)
        else val

    abbrev scaled : Option Tagged → Result (Option F)
    scaled none = ok none
    scaled (some (m, unit)) = do val ← to_float (group_at 0 m); ok (some (in_microseconds unit val))

    unfoldable pub percentile : String → String → Result (Option F)
    unfolding search_line_starts exactly
    percentile text label = scaled (
        search_line_starts
          ((unit_pattern label "ms", "ms")
            ∷ (unit_pattern label "us", "us")
            ∷ (unit_pattern label "s", "s")
            ∷ [])
          true text)

    abbrev rate_of : Option Found → Result F
    rate_of none = ok (ratio 0 1)
    rate_of (some m) = to_float (group_at 0 m)

    abbrev with_median : Latency float → F → Option (NginxRun float)
    with_median latency rps =
        if is_some latency.p50 then some (record { rps = rps; latency = latency }) else none

    unfoldable pub parse_wrk2_text : Option String → Result (Option (NginxRun float))
    unfolding percentile search_for exactly
    parse_wrk2_text none = ok none
    parse_wrk2_text (some text) = do
      p50 ← percentile text "50.000%"
      p99 ← percentile text "99.000%"
      p99_9 ← percentile text "99.900%"
      p99_99 ← percentile text "99.990%"
      rps ← rate_of (search_for (labelled "Requests/sec:" []) text)
      ok (with_median (record { p50 = p50; p99 = p99; p99_9 = p99_9; p99_99 = p99_99 }) rps)

-- The loop of a parser over the runs, with what a file raises: for each number first the file of the
-- baseline, then the other one.
module _ {R : Type 0} (parse : String → Result (Option R)) where
  unfoldable pub parse_runs : String → String → String → List ℕ → Result (List R × List R)
  parse_runs cfs custom ending [] = ok ([], [])
  parse_runs cfs custom ending (i ∷ is) = do
    r ← parse (cfs <> (show i <> ending))
    q ← parse (custom <> (show i <> ending))
    rest ← parse_runs cfs custom ending is
    ok (add_run r rest.0, add_run q rest.1)

module _ (u : Unicode) (float : Float) (int : String → ℕ) (parse_float : String → Option float.F)
    (read : String → Option String) where
  -- `parse_rocksdb` and `parse_nginx` on the files of a directory
  unfoldable pub parse_rocksdb_files : Result (Option (Outcome float))
  unfolding parse_runs parse_rocksdb_text outcome average_rocksdb
  parse_rocksdb_files =
      parse_runs (λ path. parse_rocksdb_text u float int parse_float (read path)) "cfs_run" "v7_run"
        ".txt" run_numbers
      >>= λ runs. ok (outcome float "rocksdb" "rocksdb_v7" (average_rocksdb float) runs.0 runs.1)

  unfoldable pub parse_nginx_files : Result (Option (Outcome float))
  unfolding parse_runs parse_wrk2_text outcome average_nginx
  parse_nginx_files =
      parse_runs (λ path. parse_wrk2_text u float int parse_float (read path)) "cfs_run"
        "nginx_aware_run" ".txt" run_numbers
      >>= λ runs. ok (outcome float "nginx" "nginx_aware" (average_nginx float) runs.0 runs.1)
