-- ===== src/Verify/Compare.antt =====
-- `compare_manifests` of pipeline/verify_manifest.py, and the verdict of `main`. A message is a
-- constructor, which stands for the text of the f-string, with the values that it shows.
pub mod Tally
pub mod Totals
pub mod Verdict
use schedcore.Prelude.{
  ℕ, ◌+◌, String, Option, none, some, Bool, true, false, List, [], ◌∷◌, ◌++◌, ltb, ◌==◌, ◌&&◌,
  string_eq, nat_eq, option_eq, pair_eq, not, is_empty, if◌then◌else◌, length,
}
use schedcore.Prelude.Text.{count, take, starts_with}
use schedcore.Prelude.Dict.{Dict, keys, lookup, has_key}
use schedcore.Prelude.Float.{Float}
use schedcore.Prelude.Result.{Result, ok, raise, key_error, ◌>>=◌}
use schedcore.Manifest.{Field, absent, null, value, Thread, Manifest, get, ident}
use schedcore.Verify.{Key, Metrics, Lookup, normalize_threads, set_minus, compute_metrics}

pub data Level : Type 0 where
  pass fail warn info : Level

pub data Message : Type 0 where
  application_matches : Option String → Message
  application_mismatch : Option String → Option String → Message
  method_matches : Option String → Message
  method_mismatch : Option String → Option String → Message
  rationale_provided rationale_missing : Message
  role_matches : Option String → Message
  role_not_set : Option String → Message
  role_mismatch : Option String → Option String → Message
  role_set : Option String → Message
  heading : String → Message
  thread_found : Option String → Option ℕ → String → Message
  partial_match : Option String → Option String → Option ℕ → Option ℕ → Message
  thread_missing : Option String → Option ℕ → String → Message
  misclassified : Option String → Message
  not_misclassified : Option String → String → Message
  extra_thread : String → Option String → Message
  no_extra_threads : Message
  summary : String → String → Option String → Option String → Option ℕ → Message
  true_positives false_negatives safety_violations extra_discoveries : ℕ → Message
  scores : String → String → String → Message
  safety_alarm : ℕ → Message

pub record Report : Type 0 where
  pub passes : ℕ
  pub fails : ℕ
  pub warnings : ℕ
  pub messages : List (Level × Message)

-- `messages.append((level, text))`, alone and with its counter.
abbrev say : Level → Message → Report → Report
say level m r = record r { messages = r.messages ++ ((level, m) ∷ []) }

abbrev passed : Message → Report → Report
passed m r = say pass m (record r { passes = r.passes + 1 })

abbrev failed : Message → Report → Report
failed m r = say fail m (record r { fails = r.fails + 1 })

abbrev warned : Message → Report → Report
warned m r = say warn m (record r { warnings = r.warnings + 1 })

-- `d[k]`
abbrev pub subscript {ℓ} : {A : Type ℓ} → String → Field A → Result (Option A)
subscript k absent = raise (key_error k)
subscript k null = ok none
subscript k (value a) = ok (some a)

-- The truth of a value that is a text or `None`.
abbrev pub truthy : Option String → Bool
truthy none = false
truthy (some s) = not (s == "")

abbrev start : Report
start = record { passes = 0; fails = 0; warnings = 0; messages = [] }

unfoldable pub check_application : Manifest → Manifest → Report → Result Report
check_application gen gt r =
    if get gen.application == get gt.application
    then (do
      name ← subscript "application" gen.application
      ok (passed (application_matches name) r))
    else ok (failed (application_mismatch (get gen.application) (get gt.application)) r)

unfoldable pub check_method : Manifest → Manifest → Report → Result Report
check_method gen gt r =
    if get gen.identification_method == get gt.identification_method
    then (do
      method ← subscript "identification_method" gen.identification_method
      ok (passed (method_matches method) r))
    else ok
        (failed (method_mismatch (get gen.identification_method) (get gt.identification_method)) r)

-- `generated.get("rationale") and len(generated["rationale"]) > 20`
abbrev pub is_explained : Option String → Bool
is_explained none = false
is_explained (some s) = not (s == "") && ltb 20 (count s)

unfoldable pub check_rationale : Manifest → Report → Report
check_rationale gen r =
    if is_explained (get gen.rationale)
    then passed rationale_provided r
    else failed rationale_missing r

unfoldable pub check_default_role : Option String → Option String → Report → Report
check_default_role gen gt r =
    if truthy gt
    then (if gen == gt
        then passed (role_matches gen) r
        else if gen == none
        then warned (role_not_set gt) r
        else failed (role_mismatch gen gt) r)
    else if truthy gen
    then passed (role_set gen) r
    else r

-- `gk[1] and prefix and gk[1].startswith(prefix[:3])`
unfoldable pub resembles : Option String → Option String → Bool
resembles (some found) (some prefix) =
    not (found == "") && (not (prefix == "") && starts_with found (take 3 prefix))
resembles found prefix = false

-- The first generated background key that resembles the prefix.
unfoldable pub find_partial : Option String → Dict Key Thread → Option Key
unfolding resembles
find_partial prefix [] = none
find_partial prefix ((k, t) ∷ d) = if resembles k.1.0 prefix then some k else find_partial prefix d

abbrev report_missing : Option Key → Key → Thread → Report → Report
report_missing (some found) k t r = warned (partial_match k.1.0 found.1.0 found.1.1 k.1.1) r
report_missing none k t r = failed (thread_missing k.1.0 k.1.1 t.name_pattern) r

-- One round of the loop over the ground truth's background threads.
unfoldable pub check_background : Dict Key Thread → Key → Thread → Report → Report
check_background gen_bg k t r =
    if has_key k gen_bg
    then passed (thread_found k.1.0 k.1.1 t.name_pattern) r
    else report_missing (find_partial k.1.0 gen_bg) k t r

unfoldable pub check_backgrounds : Dict Key Thread → Dict Key Thread → Report → Report
check_backgrounds gen_bg [] r = r
check_backgrounds gen_bg ((k, t) ∷ d) r = check_backgrounds gen_bg d (check_background gen_bg k t r)

-- One round of the loop over the ground truth's foreground threads.
unfoldable pub check_foreground : Dict Key Thread → Key → Thread → Report → Report
check_foreground gen_bg k t r =
    if has_key k gen_bg
    then failed (misclassified k.1.0) r
    else passed (not_misclassified k.1.0 t.name_pattern) r

unfoldable pub check_foregrounds : Dict Key Thread → Dict Key Thread → Report → Report
check_foregrounds gen_bg [] r = r
check_foregrounds gen_bg ((k, t) ∷ d) r = check_foregrounds gen_bg d (check_foreground gen_bg k t r)

abbrev report_extra : Option Thread → Key → Report → Result Report
report_extra none k r = raise (key_error "generated background thread")
report_extra (some t) k r = ok (warned (extra_thread t.name_pattern k.1.0) r)

unfoldable pub report_extras : Dict Key Thread → List Key → Report → Result Report
report_extras gen_bg [] r = ok r
report_extras gen_bg (k ∷ ks) r = do
  r' ← report_extra (lookup k gen_bg) k r
  report_extras gen_bg ks r'

unfoldable pub check_extras : Dict Key Thread → List Key → Report → Result Report
unfolding report_extras
check_extras gen_bg extra_bg r =
    if is_empty extra_bg then ok (say info no_extra_threads r) else report_extras gen_bg extra_bg r

unfoldable pub summarize : List Thread → Report → Report
summarize [] r = r
summarize (t ∷ ts) r =
    let i = ident t in
    summarize ts (
      say info (summary t.role t.name_pattern (get i.type) (get i.comm_prefix) (get i.comm_length))
        r)

module _ (float : Float) where
  unfoldable pub report_metrics : Metrics float → Report → Report
  report_metrics m r =
      let c = m.counts in
      let shown =
        say info
          (scores (float.format 3 m.precision) (float.format 3 m.recall) (float.format 3 m.f1))
          (say info (extra_discoveries c.extra_discoveries) (
            say info (safety_violations c.safety_violations) (
              say info (false_negatives c.false_negatives) (
                say info (true_positives c.true_positives)
                  (say info (heading "Quantitative Metrics") r))))) in
      if ltb 0 c.safety_violations then say fail (safety_alarm c.safety_violations) shown else shown

  -- `order` is the order in which Python iterates over a set.
  module _ (order : List Key → List Key) where
    unfoldable pub compare_manifests : Manifest → Manifest → Result Report
    compare_manifests gen gt = do
      r1 ← check_application gen gt start
      r2 ← check_method gen gt r1
      let g = normalize_threads gen
      let t = normalize_threads gt
      let r3 =
          check_default_role (get gen.default_role) (get gt.default_role) (check_rationale gen r2)
      let r4 = check_backgrounds g.bg t.bg (say info (heading "Background Thread Discovery") r3)
      let r5 = check_foregrounds g.bg t.fg (say info (heading "Foreground Thread Safety") r4)
      r6 ←
          check_extras g.bg (order (set_minus (keys g.bg) (keys t.bg)))
            (say info (heading "Extra Discoveries") r5)
      let r7 = summarize gen.threads (say info (heading "Generated Manifest Summary") r6)
      ok (report_metrics (compute_metrics float gen gt) r7)

-- The end of `main`: the exit status.
unfoldable pub verdict : Report → ℕ
verdict r = if ltb 0 r.fails then 1 else 0
