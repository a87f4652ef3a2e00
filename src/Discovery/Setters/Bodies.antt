-- ===== src/Discovery/Setters/Bodies.antt =====
-- Bodies of functions by the braces of their lines, and what one line does to the scan.
use schedcore.Prelude.{
  ℕ, ◌+◌, ◌≡◌, refl, String, Option, none, some, Bool, true, false, ◌||◌, ◌&&◌, not, List, [], ◌∷◌,
  ◌++◌, arith, ◌==◌, string_eq, option_eq, nat_eq, Bool-cases, inl, inr, if◌then◌else◌,
}
use schedcore.Prelude.Split.{Unicode, has_part, occurrences}
use schedcore.Prelude.Sorting.{any}
use schedcore.Prelude.Dict.{Dict, insert}
use schedcore.Discovery.Setters.{Scan, defined_function, count_braces, note_call, leave_function}

abbrev pub opens : List String → ℕ
opens [] = 0
opens (line ∷ lines) = occurrences "{" line + opens lines

abbrev pub closes : List String → ℕ
closes [] = 0
closes (line ∷ lines) = occurrences "}" line + closes lines

-- After `o` opening and `c` closing braces, the last of the lines is the first one after which as
-- many braces are closed as opened.
abbrev pub is_body : ℕ → ℕ → List String → Bool
is_body o c [] = false
is_body o c (line ∷ []) = o + occurrences "{" line == c + occurrences "}" line
is_body o c (line ∷ (next ∷ lines)) =
    not (o + occurrences "{" line == c + occurrences "}" line)
    && is_body (o + occurrences "{" line) (c + occurrences "}" line) (next ∷ lines)

abbrev pub mentions_setproctitle : List String → Bool
mentions_setproctitle lines = any (has_part "setproctitle") lines

is_body-shift :
    (a o c : ℕ) (lines : List String) → is_body (a + o) (a + c) lines ≡ is_body o c lines
is_body-shift a o c [] = refl
is_body-shift a o c (line ∷ []) = ground arith
is_body-shift a o c (line ∷ (next ∷ lines)) =
    ground
      (arith, is_body-shift a (o + occurrences "{" line) (c + occurrences "}" line) (next ∷ lines))

pub is_body-balanced :
    (o c : ℕ) (lines : List String) → o ≡ c → is_body o c lines ≡ is_body 0 0 lines
is_body-balanced o c lines e = ground (arith, is_body-shift o 0 0 lines)

module _ (u : Unicode) where
  -- The first line starts the definition of the function.
  abbrev pub starts : String → List String → Bool
  starts k [] = false
  starts k (line ∷ lines) = defined_function u line == some k

  -- After `o` opening and `c` closing braces, a definition of the function begins outside of all
  -- braces, and before its body ends `setproctitle` is mentioned.
  pub record Sets (o c : ℕ) (k : String) (lines : List String) : Type 0 where
    pub before : List String
    pub body : List String
    pub after : List String
    pub parts : lines ≡ before ++ (body ++ after)
    pub outside : o + opens before ≡ c + closes before
    pub begins : starts k body ≡ true
    pub ends : is_body 0 0 body ≡ true
    pub mentions : mentions_setproctitle body ≡ true
    pub other_name : not (k == "setproctitle") ≡ true

  abbrev pub scan_of : Option String → ℕ → ℕ → Bool → Dict String String → Scan
  scan_of f o c b d = record {
    in_function = f;
    opened = o;
    closed = c;
    has_setproctitle = b;
    setters = d;
  }

  -- What a line does after it may have entered a function.
  abbrev pub step : String → Scan → Scan
  step line s = leave_function u (note_call u line (count_braces u line s))

  pub step-outside :
      (line : String) (o c : ℕ) (b : Bool) (d : Dict String String)
      → step line (scan_of none o c b d)
        ≡ scan_of none (o + occurrences "{" line) (c + occurrences "}" line) b d
  step-outside line o c b d = elim (Bool-cases (has_part "setproctitle" line)) [
    | inl h ↦ rw h refl
    | inr h ↦ rw h refl
  ]

  abbrev pub noted : String → Bool → Dict String String → Dict String String
  noted k b d = if b && not (k == "setproctitle") then insert k "setproctitle" d else d

  pub step-inside :
      (line k : String) (o c : ℕ) (b : Bool) (d : Dict String String)
      → step line (scan_of (some k) o c b d) ≡ (
          let o' = o + occurrences "{" line in
          let c' = c + occurrences "}" line in
          let b' = b || has_part "setproctitle" line in
          if o' == c' then scan_of none o' c' false (noted k b' d) else scan_of (some k) o' c' b' d)
  step-inside line k o c true d = elim (Bool-cases (has_part "setproctitle" line)) [
    | inl h ↦ rw h refl
    | inr h ↦ rw h refl
  ]
  step-inside line k o c false d = elim (Bool-cases (has_part "setproctitle" line)) [
    | inl h ↦ rw h refl
    | inr h ↦ rw h refl
  ]
