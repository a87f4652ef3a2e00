-- ===== src/Bench/Redis/Output.antt =====
-- workloads/redis/archive/utils.py: `parse_benchmark_output` and `extract_latency`. `parse_float` is
-- Python's `float` of a text, `none` where it raises `ValueError`, and `is_digits` is `str.isdigit`.
use Prim.Native.String.{[], ◌∷◌}
use mathlib.Core.List.{List}
use schedcore.Prelude.{
  ℕ, zero, suc, ◌-◌, String, ◌<>◌, Option, none, some, Bool, ◌&&◌, ◌||◌, ◌==◌, char_eq, string_eq,
  if◌then◌else◌,
}
use schedcore.Prelude.Dict.{Dict, insert, lookup}
use schedcore.Prelude.Float.{Float}
use schedcore.Prelude.Text.{starts_with}
use schedcore.Prelude.Split.{Unicode, has_part, without, split, strip, lower, occurrences, before}
use schedcore.Prelude.Result.{Result, ok, raise, type_error, value_error, ◌>>=◌}
use schedcore.Bench.Redis.Csv.{unquoted}

-- `metrics[key]`: a number, or the dict of a test.
pub data Metric (F : Type 0) : Type 0 where
  single : F → Metric F
  of_test : Dict String F → Metric F

-- `s[6:]`
abbrev behind_six : String → String
behind_six (a ∷ b ∷ c ∷ d ∷ e ∷ f ∷ s) = s
behind_six s = []

-- `s.replace('.', '', n)`
unfoldable pub remove_dots : ℕ → String → String
remove_dots zero s = s
remove_dots (suc n) [] = []
remove_dots (suc n) (c ∷ s) =
    let fewer = remove_dots n s in
    let same = remove_dots (suc n) s in if c == "." then fewer else c ∷ same

-- `part.replace(',', '').replace('.', '', part.count('.') - 1)`
abbrev cleaned : String → String
cleaned part = remove_dots (occurrences "." part - 1) (without "," 0 part)

abbrev add_word : String → List String → List String
add_word [] words = words
add_word (c ∷ s) words = List.◌∷◌ (c ∷ s) words

module _ (u : Unicode) where
  -- `s.split()`: `word` is the word so far.
  unfoldable pub words_from : String → String → List String
  words_from word [] = add_word word List.[]
  words_from word (c ∷ s) =
      let cut = add_word word (words_from [] s) in
      let grown = words_from (word <> (c ∷ [])) s in if u.is_space c then cut else grown

module _ (u : Unicode) (float : Float) (parse_float : String → Option float.F)
    (is_digits : String → Bool) where
  open float use {F, ratio, lt}

  abbrev pub Metrics : Type 0
  Metrics = Dict String (Metric F)

  pub record State : Type 0 where
    pub current_test : Option String
    pub metrics : Metrics

  -- `metrics[test] = {}` if it is missing, then `metrics[test][key] = value`
  abbrev stored : String → String → F → Metrics → Option (Metric F) → Result Metrics
  stored test key value m none = ok (insert test (of_test (List.◌∷◌ (key, value) List.[])) m)
  stored test key value m (some (of_test d)) = ok (insert test (of_test (insert key value d)) m)
  stored test key value m (some (single x)) = raise type_error

  unfoldable pub store : String → String → F → Metrics → Result Metrics
  unfolding lookup insert
  store test key value m = stored test key value m (lookup test m)

  abbrev or_same : Metrics → Result Metrics → Metrics
  or_same m (raise e) = m
  or_same m (ok m') = m'

  -- The rate of a quoted line, unless something is raised.
  abbrev csv_rate : Metrics → List String → Metrics
  csv_rate m List.[] = m
  csv_rate m (List.◌∷◌ name List.[]) = m
  csv_rate m (List.◌∷◌ name (List.◌∷◌ rate rest)) = elim (parse_float rate) [
    | none ↦ m
    | some rps ↦ or_same m (store name "requests_per_second" rps m)
  ]

  -- Where a rate is stored, by the current test; an empty name is none.
  abbrev store_rate : Option String → F → Metrics → Result Metrics
  store_rate none rps m = ok (insert "requests_per_second" (single rps) m)
  store_rate (some test) rps m =
      if test == ""
      then ok (insert "requests_per_second" (single rps) m)
      else store test "requests_per_second" rps m

  -- The first word that is a number and can be stored.
  abbrev or_next : Metrics → Result Metrics → Metrics
  or_next next (raise e) = next
  or_next next (ok m) = m

  unfoldable pub first_rate : Option String → Metrics → List String → Metrics
  unfolding store remove_dots
  first_rate test m List.[] = m
  first_rate test m (List.◌∷◌ part parts) =
      let next = first_rate test m parts in
      elim (parse_float (cleaned part)) [
        | none ↦ next
        | some rps ↦ or_next next (store_rate test rps m)
      ]

  -- `extract_latency`
  abbrev to_float : String → Result F
  to_float part = elim (parse_float part) [ none ↦ raise value_error | some x ↦ ok x ]

  unfoldable pub first_latency : List String → Result F
  first_latency List.[] = ok (ratio 0 1)
  first_latency (List.◌∷◌ part parts) =
      let next = first_latency parts in
      if is_digits (without "." 0 part) then to_float part else next

  unfoldable pub extract_latency : String → Result F
  unfolding first_latency words_from
  extract_latency line = first_latency (words_from u "" line)

  abbrev store_latency : Option String → String → F → Metrics → Result Metrics
  store_latency none key latency m = ok (insert key (single latency) m)
  store_latency (some test) key latency m =
      if test == "" || test == "latency"
      then ok (insert key (single latency) m)
      else store test key latency m

  -- `f'latency_p{p.split(".")[0]}'`
  abbrev latency_key : String → String
  latency_key p = "latency_p" <> before "." p

  abbrev percentile : String → Option String → String → Metrics → Result Metrics
  percentile line test p m =
      if has_part (p <> "%") line
      then (do
        latency ← extract_latency line
        if lt (ratio 0 1) latency then store_latency test (latency_key p) latency m else ok m)
      else ok m

  unfoldable pub percentiles : String → Option String → List String → Metrics → Result Metrics
  unfolding extract_latency store before
  percentiles line test List.[] m = ok m
  percentiles line test (List.◌∷◌ p ps) m = do
    m' ← percentile line test p m
    percentiles line test ps m'

  abbrev with_metrics : State → Metrics → State
  with_metrics s m = record s { metrics = m }

  unfoldable pub parse_line : String → State → Result State
  unfolding has_part lower strip split first_rate percentiles words_from unquoted
  parse_line line s =
      if starts_with line "======" && has_part "======" (behind_six line)
      then ok (record s { current_test = some (strip u (without "=" 0 line)) })
      else if has_part "\"" line && has_part "," line
      then ok (with_metrics s (csv_rate s.metrics (split "\",\"" (unquoted (strip u line)))))
      else if has_part "requests per second" (lower u line)
      then ok (with_metrics s (first_rate s.current_test s.metrics (words_from u "" line)))
      else if has_part "latency summary" (lower u line)
      then ok (record s { current_test = some "latency" })
      else if has_part "%" line
          && (has_part "percentile" (lower u line) || has_part "latency" (lower u line))
      then (do
        m ←
            percentiles line s.current_test
              (List.◌∷◌ "50.00" (List.◌∷◌ "95.00" (List.◌∷◌ "99.00" (List.◌∷◌ "99.90" List.[]))))
              s.metrics
        ok (with_metrics s m))
      else ok s

  unfoldable pub parse_lines : List String → State → Result State
  unfolding parse_line
  parse_lines List.[] s = ok s
  parse_lines (List.◌∷◌ line lines) s = do t ← parse_line line s; parse_lines lines t

  unfoldable pub parse_benchmark_output : String → Result Metrics
  unfolding parse_lines split
  parse_benchmark_output output = do
    s ← parse_lines (split "\n" output) (record { current_test = none; metrics = List.[] })
    ok s.metrics
