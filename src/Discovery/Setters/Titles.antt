-- ===== src/Discovery/Setters/Titles.antt =====
-- Which functions are found to set the title of a process.
use mathlib.Core.Bool.{false≢true}
use mathlib.Core.Option.{none-ne-some}
use schedcore.Prelude.{
  ℕ, ◌+◌, ◌≡◌, refl, ap, ◌∙◌, String, Option, none, some, Bool, true, false, ◌||◌, not, List, [],
  ◌∷◌, ◌++◌, arith, ◌==◌, string_eq, option_eq, nat_eq, Bool-cases, inl, inr, ◌↔◌,
}
use schedcore.Prelude.Split.{Unicode, has_part, occurrences}
use schedcore.Prelude.Dict.{Dict, has_key, keys, has_key-insert}
use schedcore.Discovery.Setters.{
  Scan, start, defined_function, enter_function, at_top, scan_line, scan_lines,
  find_proc_title_setters,
}
use schedcore.Discovery.Setters.Bodies.{
  opens, closes, is_body, mentions_setproctitle, is_body-balanced, starts, Sets, scan_of, step,
  step-outside, step-inside,
}
use schedcore.Discovery.Setters.Sound.{scan_lines-IsFound}

module _ (u : Unicode) where
  scan_lines-append :
      (s : Scan) (xs ys : List String)
      → scan_lines u s (xs ++ ys) ≡ scan_lines u (scan_lines u s xs) ys
  unfolding scan_lines
  scan_lines-append s [] ys = refl
  scan_lines-append s (x ∷ xs) ys = scan_lines-append (scan_line u s x) xs ys

  scan_line-counts :
      (s : Scan) (line : String)
      → ((scan_line u s line).opened ≡ s.opened + occurrences "{" line)
        × ((scan_line u s line).closed ≡ s.closed + occurrences "}" line)
        × ((k : String)
            → has_key k s.setters ≡ true
            → has_key k (scan_line u s line).setters ≡ true)
  unfolding scan_line
  scan_line-counts s line = line_counts (defined_function u line)
    where
      step_counts :
          (f : Option String) (o c : ℕ) (b : Bool) (d : Dict String String)
          → let t = step u line (scan_of u f o c b d) in
            (t.opened ≡ o + occurrences "{" line)
            × (t.closed ≡ c + occurrences "}" line)
            × ((k : String) → has_key k d ≡ true → has_key k t.setters ≡ true)
      step_counts none o c b d = rw (step-outside u line o c b d) (refl, refl, λ k h. h)
      step_counts (some j) o c b d =
          let stepped = step-inside u line j o c b d in
          elim (Bool-cases (o + occurrences "{" line == c + occurrences "}" line)) [
            | inl top ↦
                rw (stepped, top)
                  (refl, refl, λ k h. ground (arith, h, has_key-insert k j "setproctitle" d))
            | inr within ↦ rw (stepped, within) (refl, refl, λ k h. h)
          ]

      line_counts :
          (found : Option String)
          → let t = step u line (enter_function u found s) in
            (t.opened ≡ s.opened + occurrences "{" line)
            × (t.closed ≡ s.closed + occurrences "}" line)
            × ((k : String) → has_key k s.setters ≡ true → has_key k t.setters ≡ true)
      line_counts none = step_counts s.in_function s.opened s.closed s.has_setproctitle s.setters
      line_counts (some name) = elim (Bool-cases (at_top u s)) [
        | inl top ↦ rw top (step_counts (some name) s.opened s.closed false s.setters)
        | inr within ↦
            rw within (step_counts s.in_function s.opened s.closed s.has_setproctitle s.setters)
      ]

  scan_lines-counts :
      (lines : List String) (s : Scan)
      → ((scan_lines u s lines).opened ≡ s.opened + opens lines)
        × ((scan_lines u s lines).closed ≡ s.closed + closes lines)
        × ((k : String)
            → has_key k s.setters ≡ true
            → has_key k (scan_lines u s lines).setters ≡ true)
  unfolding scan_lines
  scan_lines-counts [] s = (omega arith, omega arith, λ k h. h)
  scan_lines-counts (line ∷ lines) s =
      let (opened, closed, kept) = scan_line-counts s line in
      let (opened', closed', kept') = scan_lines-counts lines (scan_line u s line) in
      (omega (arith, opened, opened'), omega (arith, closed, closed'), λ k h. kept' k (kept k h))

  enter_function-within :
      (found : Option String) (s : Scan) → at_top u s ≡ false → enter_function u found s ≡ s
  enter_function-within none s within = refl
  enter_function-within (some name) s within = rw within refl

  scan_lines-body :
      (more : List String) (line k : String) (o c : ℕ) (b : Bool) (d : Dict String String)
      → is_body o c (line ∷ more) ≡ true
      → (b || mentions_setproctitle (line ∷ more)) ≡ true
      → not (k == "setproctitle") ≡ true
      → has_key k (scan_lines u (step u line (scan_of u (some k) o c b d)) more).setters ≡ true
  unfolding scan_lines scan_line
  scan_lines-body [] line k o c b d ends mentioned other =
      let b' = b || has_part "setproctitle" line in
      rw (step-inside u line k o c b d, ends)
        (ground (arith, mentioned, other, has_key-insert k k "setproctitle" d))
  scan_lines-body (next ∷ more) line k o c b d ends mentioned other =
      let o' = o + occurrences "{" line in
      let c' = c + occurrences "}" line in
      let b' = b || has_part "setproctitle" line in
      let within : (o' == c') ≡ false = ground (arith, ends) in
      let stepped : step u line (scan_of u (some k) o c b d) ≡ scan_of u (some k) o' c' b' d =
        step-inside u line k o c b d ∙ rw within refl in
      let entered =
        enter_function-within (defined_function u next) (scan_of u (some k) o' c' b' d) within in
      ap (λ s. has_key k (scan_lines u (scan_line u s next) more).setters) stepped
      ∙ ap (λ s. has_key k (scan_lines u (step u next s) more).setters) entered
      ∙ scan_lines-body more next k o' c' b' d (ground (arith, ends)) (ground (arith, mentioned))
          other

  scan_lines-begins :
      (body : List String) (k : String) (s : Scan)
      → s.opened ≡ s.closed
      → starts u k body ≡ true
      → is_body 0 0 body ≡ true
      → mentions_setproctitle body ≡ true
      → not (k == "setproctitle") ≡ true
      → has_key k (scan_lines u s body).setters ≡ true
  unfolding scan_lines scan_line
  scan_lines-begins [] k s top begins ends mentioned other = absurd (false≢true ends)
  scan_lines-begins (line ∷ more) k s top begins ends mentioned other =
      let defined : defined_function u line ≡ some k = ground arith in
      let at_the_top : at_top u s ≡ true = ground arith in
      let entered : enter_function u (defined_function u line) s
          ≡ scan_of u (some k) s.opened s.closed false s.setters =
        rw (defined, at_the_top) refl in
      ap (λ t. has_key k (scan_lines u (step u line t) more).setters) entered
      ∙ scan_lines-body more line k s.opened s.closed false s.setters
          (is_body-balanced s.opened s.closed (line ∷ more) top ∙ ends) mentioned other

  Sets-known :
      (k : String) (lines : List String)
      → Sets u 0 0 k lines
      → has_key k (scan_lines u (start u) lines).setters ≡ true
  Sets-known k lines s =
      let (opened, closed, kept) = scan_lines-counts s.before (start u) in
      let reached = scan_lines u (start u) s.before in
      let found =
        scan_lines-begins s.body k reached (omega (arith, opened, closed, s.outside)) s.begins
          s.ends s.mentions s.other_name in
      let (opened', closed', kept') = scan_lines-counts s.after (scan_lines u reached s.body) in
      ap (λ l. has_key k (scan_lines u (start u) l).setters) s.parts
      ∙ ap (λ t. has_key k t.setters)
          (scan_lines-append (start u) s.before (s.body ++ s.after)
            ∙ scan_lines-append reached s.body s.after)
      ∙ kept' k found

  -- The functions that are found to set the title of a process are exactly those (but `setproctitle` itself) for which the file has a stretch of lines that starts where as many braces are closed as opened, that begins with the definition of the function, that ends with its first line after which its own braces are balanced, and in which `setproctitle` is mentioned.
  pub find_proc_title_setters_iff :
      (lines : List String) (k : String)
      → (has_key k (find_proc_title_setters u lines) ≡ true) ↔ Sets u 0 0 k lines
  unfolding find_proc_title_setters has_key keys
  find_proc_title_setters_iff lines k = (
    (λ known. elim (scan_lines-IsFound u lines none 0 0 false [] k known) [
      | inl absent ↦ absurd (false≢true absent)
      | inr (inl e) ↦ absurd (none-ne-some k e.inside)
      | inr (inr s) ↦ s
    ]),
    (λ s. Sets-known k lines s),
  )
