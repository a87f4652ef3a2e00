-- ===== src/Discovery/Setters/Sound.antt =====
-- Where the setters that the scan finds have their names from.
use mathlib.Core.Bool.{false≢true}
use mathlib.Core.Option.{none-ne-some}
use schedcore.Prelude.{
  ℕ, ◌+◌, ◌≡◌, refl, sym, ap, ◌∙◌, String, Option, none, some, Bool, true, false, ◌||◌, not, List,
  [], ◌∷◌, ◌++◌, arith, ◌==◌, string_eq, option_eq, nat_eq, Bool-cases, inl, inr, ◌⊎◌,
}
use schedcore.Prelude.Split.{Unicode, has_part, occurrences}
use schedcore.Prelude.Dict.{Dict, has_key, has_key-insert}
use schedcore.Discovery.Setters.{Scan, defined_function, enter_function, scan_line, scan_lines}
use schedcore.Discovery.Setters.Bodies.{
  is_body, mentions_setproctitle, is_body-balanced, starts, Sets, scan_of, step, noted,
  step-outside, step-inside,
}

module _ (u : Unicode) where
  -- The rest of a body in which the scan is, with `b` if `setproctitle` was mentioned in it.
  pub record Ends (f : Option String) (o c : ℕ) (b : Bool) (k : String) (lines : List String)
      : Type 0 where
    pub body : List String
    pub after : List String
    pub parts : lines ≡ body ++ after
    pub inside : f ≡ some k
    pub ends : is_body o c body ≡ true
    pub mentions : (b || mentions_setproctitle body) ≡ true
    pub other_name : not (k == "setproctitle") ≡ true

  -- Where the scan of the lines may have a name from.
  abbrev pub Found :
      Option String → ℕ → ℕ → Bool → Dict String String → String → List String → Type 0
  Found f o c b d k lines = (has_key k d ≡ true) ⊎ (Ends f o c b k lines ⊎ Sets u o c k lines)

  abbrev pub IsFound : List String → Type 0
  IsFound lines =
      (f : Option String) (o c : ℕ) (b : Bool) (d : Dict String String) (k : String)
      → has_key k (scan_lines u (scan_of u f o c b d) lines).setters ≡ true
      → Found f o c b d k lines

  Sets-cons :
      (o c : ℕ) (k line : String) (lines : List String)
      → Sets u (o + occurrences "{" line) (c + occurrences "}" line) k lines
      → Sets u o c k (line ∷ lines)
  Sets-cons o c k line lines s = record {
    before = line ∷ s.before;
    body = s.body;
    after = s.after;
    parts = ap (λ rest. line ∷ rest) s.parts;
    outside = omega (arith, s.outside);
    begins = s.begins;
    ends = s.ends;
    mentions = s.mentions;
    other_name = s.other_name;
  }

  -- The line that is in a body does not end it.
  Ends-cons :
      (f : Option String) (o c : ℕ) (b : Bool) (k line : String) (lines : List String)
      → (o + occurrences "{" line == c + occurrences "}" line) ≡ false
      → Ends f
          (o + occurrences "{" line)
          (c + occurrences "}" line)
          (b || has_part "setproctitle" line)
          k
          lines
      → Ends f o c b k (line ∷ lines)
  Ends-cons f o c b k line lines unbalanced e = record {
    body = line ∷ e.body;
    after = e.after;
    parts = ap (λ rest. line ∷ rest) e.parts;
    inside = e.inside;
    ends = longer e.body e.ends;
    mentions = ground (arith, e.mentions);
    other_name = e.other_name;
  }
    where
      longer :
          (body : List String)
          → is_body (o + occurrences "{" line) (c + occurrences "}" line) body ≡ true
          → is_body o c (line ∷ body) ≡ true
      longer [] h = ground arith
      longer (next ∷ body) h = ground arith

  -- The line ends the body that it is in.
  Ends-last :
      (o c : ℕ) (b : Bool) (d : Dict String String) (j k line : String) (lines : List String)
      → (o + occurrences "{" line == c + occurrences "}" line) ≡ true
      → has_key k (noted u j (b || has_part "setproctitle" line) d) ≡ true
      → (has_key k d ≡ true) ⊎ Ends (some j) o c b k (line ∷ lines)
  Ends-last o c b d j k line lines balanced known = elim (Bool-cases (has_key k d)) [
    | inl old ↦ inl old
    | inr new ↦
        let same : j ≡ k = ground (arith, has_key-insert k j "setproctitle" d) in
        inr (record {
          body = line ∷ [];
          after = lines;
          parts = refl;
          inside = ap some same;
          ends = balanced;
          mentions = ground arith;
          other_name = ground (arith, same);
        })
  ]

  step-IsFound :
      (line : String) (lines : List String)
      → IsFound lines
      → (f : Option String) (o c : ℕ) (b : Bool) (d : Dict String String) (k : String)
      → has_key k (scan_lines u (step u line (scan_of u f o c b d)) lines).setters ≡ true
      → Found f o c b d k (line ∷ lines)
  step-IsFound line lines ih none o c b d k known =
      elim (ih none _ _ b d k (rw⁻¹ (step-outside u line o c b d) known)) [
        | inl old ↦ inl old
        | inr (inl e) ↦ absurd (none-ne-some k e.inside)
        | inr (inr s) ↦ inr (inr (Sets-cons o c k line lines s))
      ]
  step-IsFound line lines ih (some j) o c b d k known =
      let o' = o + occurrences "{" line in
      let c' = c + occurrences "}" line in
      let b' = b || has_part "setproctitle" line in
      let stepped = step-inside u line j o c b d in
      elim (Bool-cases (o' == c')) [
        | inl balanced ↦
            let after_body : step u line (scan_of u (some j) o c b d)
                ≡ scan_of u none o' c' false (noted u j b' d) =
              stepped ∙ rw balanced refl in
            elim (ih none o' c' false (noted u j b' d) k (rw⁻¹ after_body known)) [
              | inl noted_name ↦ elim (Ends-last o c b d j k line lines balanced noted_name) [
                | inl old ↦ inl old
                | inr e ↦ inr (inl e)
              ]
              | inr (inl e) ↦ absurd (none-ne-some k e.inside)
              | inr (inr s) ↦ inr (inr (Sets-cons o c k line lines s))
            ]
        | inr unbalanced ↦
            let in_body : step u line (scan_of u (some j) o c b d) ≡ scan_of u (some j) o' c' b' d =
              stepped ∙ rw unbalanced refl in
            elim (ih (some j) o' c' b' d k (rw⁻¹ in_body known)) [
              | inl old ↦ inl old
              | inr (inl e) ↦ inr (inl (Ends-cons (some j) o c b k line lines unbalanced e))
              | inr (inr s) ↦ inr (inr (Sets-cons o c k line lines s))
            ]
      ]

  -- The rest of a body that the line began outside of all braces is a whole body.
  Ends-Sets :
      (name k line : String) (lines : List String) (o c : ℕ)
      → defined_function u line ≡ some name
      → (o == c) ≡ true
      → Ends (some name) o c false k (line ∷ lines)
      → Sets u o c k (line ∷ lines)
  Ends-Sets name k line lines o c defined top e = record {
    before = [];
    body = e.body;
    after = e.after;
    parts = e.parts;
    outside = ground arith;
    begins = first e.body e.parts e.ends;
    ends = sym (is_body-balanced o c e.body (ground arith)) ∙ e.ends;
    mentions = e.mentions;
    other_name = e.other_name;
  }
    where
      first :
          (body : List String)
          → line ∷ lines ≡ body ++ e.after
          → is_body o c body ≡ true
          → starts u k body ≡ true
      first [] parts ends = absurd (false≢true ends)
      first (l ∷ body) parts ends = ground (arith, defined, e.inside, parts)

  enter-IsFound :
      (line : String) (lines : List String)
      → IsFound lines
      → (found : Option String) → defined_function u line ≡ found
      → (f : Option String) (o c : ℕ) (b : Bool) (d : Dict String String) (k : String)
      → has_key k
          (scan_lines u (step u line (enter_function u found (scan_of u f o c b d))) lines).setters
        ≡ true
      → Found f o c b d k (line ∷ lines)
  enter-IsFound line lines ih none defined f o c b d k known =
      step-IsFound line lines ih f o c b d k known
  enter-IsFound line lines ih (some name) defined f o c b d k known = elim (Bool-cases (o == c)) [
    | inl top ↦
        let entered : enter_function u (some name) (scan_of u f o c b d)
            ≡ scan_of u (some name) o c false d =
          rw top refl in
        elim (step-IsFound line lines ih (some name) o c false d k (sym (sets entered) ∙ known)) [
          | inl old ↦ inl old
          | inr (inl e) ↦ inr (inr (Ends-Sets name k line lines o c defined top e))
          | inr (inr s) ↦ inr (inr s)
        ]
    | inr within ↦
        let same : enter_function u (some name) (scan_of u f o c b d) ≡ scan_of u f o c b d =
          rw within refl in
        step-IsFound line lines ih f o c b d k (sym (sets same) ∙ known)
  ]
    where
      sets :
          {s t : Scan}
          → s ≡ t
          → has_key k (scan_lines u (step u line s) lines).setters
            ≡ has_key k (scan_lines u (step u line t) lines).setters
      sets e = ap (λ s. has_key k (scan_lines u (step u line s) lines).setters) e

  pub scan_lines-IsFound : (lines : List String) → IsFound lines
  unfolding scan_lines scan_line
  scan_lines-IsFound [] f o c b d k known = inl known
  scan_lines-IsFound (line ∷ lines) f o c b d k known =
      enter-IsFound line lines (scan_lines-IsFound lines) (defined_function u line) refl f o c b d k
        known
