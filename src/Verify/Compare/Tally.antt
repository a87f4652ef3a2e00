-- ===== src/Verify/Compare/Tally.antt =====
-- What the failures and warnings of `compare_manifests` count.
use schedcore.Prelude.{
  ℕ, ◌+◌, ◌≡◌, refl, ◌≢◌, String, Option, none, some, Bool, true, List, [], ◌∷◌, ◌++◌, ◌&&◌, ltb,
  length, not, arith, contains, Option-cases, Bool-cases, inl, inr, ◌==◌, string_eq, nat_eq,
  option_eq, pair_eq, if◌then◌else◌,
}
use schedcore.Prelude.Dict.{Dict, keys, lookup, has_key, has_key_iff}
use schedcore.Prelude.Float.{Float}
use schedcore.Prelude.Result.{ok}
use schedcore.Manifest.{Field, absent, null, value, Thread, Manifest, get}
use schedcore.Verify.{Key, Metrics, set_minus, set_and}
use schedcore.Verify.Sets.{contains-set_minus}
use schedcore.Verify.Compare.{
  Report, pass, fail, warn, application_matches, application_mismatch, method_matches,
  method_mismatch, extra_thread, check_foreground, subscript, truthy, is_explained,
  check_application, check_method, check_rationale, check_default_role, find_partial,
  check_background, check_backgrounds, check_foregrounds, report_extras, check_extras, summarize,
  report_metrics,
}

-- How many entries of the dict have neither their own key nor a similar one in the other dict, and
-- how many have only a similar one.
abbrev pub count_missing : Dict Key Thread → Dict Key Thread → ℕ
count_missing gen_bg [] = 0
count_missing gen_bg ((k, t) ∷ d) =
    (if has_key k gen_bg then 0 else if find_partial k.1.0 gen_bg == none then 1 else 0)
    + count_missing gen_bg d

abbrev pub count_partial : Dict Key Thread → Dict Key Thread → ℕ
count_partial gen_bg [] = 0
count_partial gen_bg ((k, t) ∷ d) =
    (if has_key k gen_bg then 0 else if find_partial k.1.0 gen_bg == none then 0 else 1)
    + count_partial gen_bg d

abbrev pub one_if : Bool → ℕ
one_if b = if b then 1 else 0

check_background-adds :
    (gen_bg : Dict Key Thread) (k : Key) (t : Thread) (r : Report)
    → ((check_background gen_bg k t r).fails
        ≡ r.fails
          + (if has_key k gen_bg then 0 else if find_partial k.1.0 gen_bg == none then 1 else 0))
      × ((check_background gen_bg k t r).warnings
          ≡ r.warnings
            + (if has_key k gen_bg then 0 else if find_partial k.1.0 gen_bg == none then 0 else 1))
unfolding check_background
check_background-adds gen_bg k t r = elim (Option-cases (find_partial k.1.0 gen_bg)) [
  | inl e ↦ rw e (ground arith)
  | inr (found, e) ↦ rw e (ground arith)
]

pub check_backgrounds-adds :
    (gen_bg d : Dict Key Thread) (r : Report)
    → ((check_backgrounds gen_bg d r).fails ≡ r.fails + count_missing gen_bg d)
      × ((check_backgrounds gen_bg d r).warnings ≡ r.warnings + count_partial gen_bg d)
unfolding check_backgrounds
check_backgrounds-adds gen_bg [] r = omega arith
check_backgrounds-adds gen_bg ((k, t) ∷ d) r = omega (
  arith,
  check_background-adds gen_bg k t r,
  check_backgrounds-adds gen_bg d (check_background gen_bg k t r),
)

check_foreground-adds :
    (gen_bg : Dict Key Thread) (k : Key) (t : Thread) (r : Report)
    → ((check_foreground gen_bg k t r).fails ≡ r.fails + one_if (has_key k gen_bg))
      × ((check_foreground gen_bg k t r).warnings ≡ r.warnings)
unfolding check_foreground
check_foreground-adds gen_bg k t r = ground arith

length-set_and-keys :
    (gen_bg d : Dict Key Thread) (k : Key) (t : Thread)
    → length (set_and (keys ((k, t) ∷ d)) (keys gen_bg))
      ≡ one_if (has_key k gen_bg) + length (set_and (keys d) (keys gen_bg))
unfolding set_and keys has_key
length-set_and-keys gen_bg d k t = ground arith

pub check_foregrounds-adds :
    (gen_bg d : Dict Key Thread) (r : Report)
    → ((check_foregrounds gen_bg d r).fails ≡ r.fails + length (set_and (keys d) (keys gen_bg)))
      × ((check_foregrounds gen_bg d r).warnings ≡ r.warnings)
unfolding check_foregrounds
check_foregrounds-adds gen_bg [] r = unfold keys set_and in omega arith
check_foregrounds-adds gen_bg ((k, t) ∷ d) r = omega (
  arith,
  length-set_and-keys gen_bg d k t,
  check_foreground-adds gen_bg k t r,
  check_foregrounds-adds gen_bg d (check_foreground gen_bg k t r),
)

pub summarize-adds :
    (ts : List Thread) (r : Report)
    → ((summarize ts r).fails ≡ r.fails) × ((summarize ts r).warnings ≡ r.warnings)
unfolding summarize
summarize-adds [] r = (refl, refl)
summarize-adds (t ∷ ts) r = summarize-adds ts _

report_extras-adds :
    (gen_bg : Dict Key Thread) (ks : List Key) (r : Report)
    → ((k : Key) → contains ks k ≡ true → lookup k gen_bg ≢ none)
    → (r' : Report) × (report_extras gen_bg ks r ≡ ok r')
      × (r'.fails ≡ r.fails)
      × (r'.warnings ≡ r.warnings + length ks)
unfolding report_extras
report_extras-adds gen_bg [] r h = (r, refl, refl, omega arith)
report_extras-adds gen_bg (k ∷ ks) r h = elim (Option-cases (lookup k gen_bg)) [
  | inl e ↦ absurd (h k (ground arith) e)
  | inr (t, e) ↦
      let (r', done, fails, warnings) =
        report_extras-adds gen_bg ks
          (record r {
            warnings = r.warnings + 1;
            messages = r.messages ++ ((warn, extra_thread t.name_pattern k.1.0) ∷ []);
          })
          (λ j m. h j (ground arith)) in
      (r', rw e done, fails, omega arith)
]

-- The outcomes of the check of `default_role`.
abbrev pub role_fails : Option String → Option String → Bool
role_fails gen gt = truthy gt && (not (gen == gt) && not (gen == none))

abbrev pub role_warns : Option String → Option String → Bool
role_warns gen gt = truthy gt && (not (gen == gt) && gen == none)

pub check_default_role-adds :
    (gen gt : Option String) (r : Report)
    → ((check_default_role gen gt r).fails ≡ r.fails + one_if (role_fails gen gt))
      × ((check_default_role gen gt r).warnings ≡ r.warnings + one_if (role_warns gen gt))
unfolding check_default_role
check_default_role-adds gen gt r = ground arith

pub check_rationale-adds :
    (gen : Manifest) (r : Report)
    → ((check_rationale gen r).fails ≡ r.fails + one_if (not (is_explained (get gen.rationale))))
      × ((check_rationale gen r).warnings ≡ r.warnings)
unfolding check_rationale
check_rationale-adds gen r = elim (Bool-cases (is_explained (get gen.rationale))) [
  | inl e ↦ rw e (omega arith)
  | inr e ↦ rw e (omega arith)
]

subscript_present {ℓ} :
    {A : Type ℓ} (k : String) (f : Field A) → f ≢ absent → (o : Option A) × (subscript k f ≡ ok o)
subscript_present k absent h = absurd (h refl)
subscript_present k null h = (none, refl)
subscript_present k (value a) h = (some a, refl)

pub check_application-adds :
    (gen gt : Manifest) (r : Report)
    → gen.application ≢ absent
    → (r' : Report) × (check_application gen gt r ≡ ok r')
      × (r'.fails ≡ r.fails + one_if (not (get gen.application == get gt.application)))
      × (r'.warnings ≡ r.warnings)
unfolding check_application
check_application-adds gen gt r h = elim (Bool-cases (get gen.application == get gt.application)) [
  | inl e ↦
      let (o, got) = subscript_present "application" gen.application h in
      (
        record r {
          passes = r.passes + 1;
          messages = r.messages ++ ((pass, application_matches o) ∷ []);
        },
        rw (e, got),
        rw e (omega arith),
        refl,
      )
  | inr e ↦ (
    record r {
      fails = r.fails + 1;
      messages =
          r.messages
          ++ ((fail, application_mismatch (get gen.application) (get gt.application)) ∷ []);
    },
    rw e,
    rw e,
    refl,
  )
]

pub check_method-adds :
    (gen gt : Manifest) (r : Report)
    → gen.identification_method ≢ absent
    → (r' : Report) × (check_method gen gt r ≡ ok r')
      × (r'.fails
          ≡ r.fails + one_if (not (get gen.identification_method == get gt.identification_method)))
      × (r'.warnings ≡ r.warnings)
unfolding check_method
check_method-adds gen gt r h =
    elim (Bool-cases (get gen.identification_method == get gt.identification_method)) [
      | inl e ↦
          let (o, got) = subscript_present "identification_method" gen.identification_method h in
          (
            record r {
              passes = r.passes + 1;
              messages = r.messages ++ ((pass, method_matches o) ∷ []);
            },
            rw (e, got),
            rw e (omega arith),
            refl,
          )
      | inr e ↦ (
        record r {
          fails = r.fails + 1;
          messages =
              r.messages
              ++ ((
                fail,
                method_mismatch (get gen.identification_method) (get gt.identification_method),
              )
                  ∷ []);
        },
        rw e,
        rw e,
        refl,
      )
    ]

-- What Python leaves open about the iteration over a set: an order of the same elements.
pub record IsSetOrder (order : List Key → List Key) : Type 0 where
  pub same_length : (ks : List Key) → length (order ks) ≡ length ks
  pub same_members : (ks : List Key) (k : Key) → contains (order ks) k ≡ contains ks k

pub check_extras-adds :
    (gen_bg : Dict Key Thread) (ks : List Key) (r : Report)
    → ((k : Key) → contains ks k ≡ true → lookup k gen_bg ≢ none)
    → (r' : Report) × (check_extras gen_bg ks r ≡ ok r')
      × (r'.fails ≡ r.fails)
      × (r'.warnings ≡ r.warnings + length ks)
unfolding check_extras
check_extras-adds gen_bg [] r h = (_, refl, refl, omega arith)
check_extras-adds gen_bg (k ∷ ks) r h = report_extras-adds gen_bg (k ∷ ks) r h

pub extras_known :
    (order : List Key → List Key)
    → IsSetOrder order
    → (gen_bg : Dict Key Thread) (gt : List Key) (k : Key)
    → contains (order (set_minus (keys gen_bg) gt)) k ≡ true
    → lookup k gen_bg ≢ none
unfolding has_key
extras_known order o gen_bg gt k h = (has_key_iff k gen_bg).0 (
    ground
      (arith, o.same_members (set_minus (keys gen_bg) gt) k, contains-set_minus (keys gen_bg) gt k))

pub report_metrics-adds :
    (float : Float) (m : Metrics float) (r : Report)
    → ((report_metrics float m r).fails ≡ r.fails)
      × ((report_metrics float m r).warnings ≡ r.warnings)
unfolding report_metrics
report_metrics-adds float m r = elim (Bool-cases (ltb 0 m.counts.safety_violations)) [
  | inl e ↦ rw e (refl, refl)
  | inr e ↦ rw e (refl, refl)
]
