-- ===== src/Validate/DbSim/Saved.antt =====
-- What `parse_db_sim` makes of the results that the benchmark of the database simulation saved.
use schedcore.Prelude.{
  String, Option, none, some, [], ◌∷◌, ◌≡◌, refl, string_eq, arith, ◌⊎◌, inl, inr,
}
use schedcore.Prelude.Float.{Float}
use schedcore.Prelude.Json.{
  Json, null, boolean, number, text, array, object, empty, entry, lookup_or, get, subscript, at_key,
  saved,
}
use schedcore.Prelude.Result.{ok, raise, attribute_error}
use schedcore.Validate.DbSim.{
  Report, parse_data, parse_db_sim, throughput_of, report_of, no_entries, zero_ops,
}

-- A key that is there has its value whatever the default.
get-subscript :
    {F : Type 0}
    → (j v default : Json F) (key : String) → subscript j key ≡ ok v
    → get key default j ≡ ok v
unfolding at_key lookup_or
get-subscript (object empty) v default key h = absurd cc
get-subscript (object (entry k w rest)) v default key h =
    ground (arith, get-subscript (object rest) v default key)
get-subscript null v default key h = absurd cc
get-subscript (boolean b) v default key h = absurd cc
get-subscript (number x) v default key h = absurd cc
get-subscript (text s) v default key h = absurd cc
get-subscript (array a) v default key h = absurd cc

module _ (float : Float) where
  open float use {F}

  -- What `print_table` of the benchmark reads of a configuration, by subscripts.
  pub record IsReport (config : Json F) (r : Report F) : Type 0 where
    pub latencies : Json F
    pub throughputs : Json F
    pub has_latencies : subscript config "query_latency_us" ≡ ok latencies
    pub has_throughputs : subscript config "compaction_throughput" ≡ ok throughputs
    pub has_ops : subscript throughputs "ops_per_sec" ≡ ok r.throughput
    pub has_p50 : subscript latencies "p50" ≡ ok r.p50
    pub has_p99 : subscript latencies "p99" ≡ ok r.p99
    pub has_max : subscript latencies "max" ≡ ok r.max

  abbrev pub both : Option (Json F) → Option (Json F) → Json F
  both cfs custom = object (saved (("CFS (default)", cfs) ∷ ("db_aware", custom) ∷ []))

  throughput_of-IsReport :
      (config : Json F) (r : Report F)
      → IsReport config r
      → throughput_of float config ≡ ok r.throughput
  throughput_of-IsReport config r report =
      rw
        (get-subscript config report.throughputs (no_entries float) "compaction_throughput"
          report.has_throughputs)
        (get-subscript report.throughputs r.throughput (zero_ops float) "ops_per_sec"
          report.has_ops)

  report_of-IsReport :
      (config : Json F) (r : Report F) (report : IsReport config r)
      → report_of float report.latencies r.throughput ≡ ok r
  report_of-IsReport config r report =
      rw
        (
          get-subscript report.latencies r.p50 null "p50" report.has_p50,
          get-subscript report.latencies r.p99 null "p99" report.has_p99,
          get-subscript report.latencies r.max null "max" report.has_max,
        )
        refl

  -- If both configurations have a result with the fields that the table of the benchmark shows, `parse_db_sim` returns the values of these fields, on the side of each configuration.
  pub parse_db_sim-saved :
      (cfs custom : Json F) (r q : Report F)
      → IsReport cfs r
      → IsReport custom q
      → parse_db_sim float (some (both (some cfs) (some custom)))
        ≡ ok (some (record { baseline = r; custom = q }))
  unfolding parse_db_sim parse_data saved lookup_or string_eq
  parse_db_sim-saved cfs custom r q report report' =
      rw
        (
          get-subscript cfs report.latencies (no_entries float) "query_latency_us"
              report.has_latencies,
          get-subscript custom report'.latencies (no_entries float) "query_latency_us"
              report'.has_latencies,
          throughput_of-IsReport cfs r report,
          throughput_of-IsReport custom q report',
          report_of-IsReport cfs r report,
          report_of-IsReport custom q report',
        )
        refl

  no_custom :
      (cfs : Option (Json F)) → parse_db_sim float (some (both cfs none)) ≡ raise attribute_error
  unfolding parse_db_sim parse_data saved lookup_or string_eq
  no_custom none = refl
  no_custom (some null) = refl
  no_custom (some (boolean b)) = refl
  no_custom (some (number x)) = refl
  no_custom (some (text s)) = refl
  no_custom (some (array a)) = refl
  no_custom (some (object o)) = refl

  -- If either configuration has no result, which the benchmark saves as `null`, `parse_db_sim` raises an `AttributeError`.
  pub parse_db_sim-failed :
      (cfs custom : Option (Json F))
      → (cfs ≡ none) ⊎ (custom ≡ none)
      → parse_db_sim float (some (both cfs custom)) ≡ raise attribute_error
  unfolding parse_db_sim parse_data saved lookup_or string_eq
  parse_db_sim-failed cfs custom (inl h) = rw h refl
  parse_db_sim-failed cfs custom (inr h) = rw h (no_custom cfs)
