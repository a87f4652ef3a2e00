-- ===== src/Generator/Reading/RoundTrip.antt =====
-- The condition that the generator writes reads back as its comparisons.
use Prim.Native.String.{[], ◌∷◌}
use Prim.Native.String.append
use text.Mathlib.TextLemmas.{append_assoc, append-nil}
use mathlib.Core.List.{List}
use schedcore.Prelude.{
  ℕ, zero, suc, ◌≤◌, String, Char, ◌<>◌, Bool, true, false, ◌&&◌, Option, some, map, ◌≡◌, refl, sym,
  ap, ◌∙◌, arith, char_eq,
}
use schedcore.Prelude.Text.{join, count, show}
use schedcore.Prelude.Text.Decimal.{read_decimal-show, ends_number}
use schedcore.Generator.{Prefix, checked, comm_tests, test_text, generate_comm_check}
use schedcore.Generator.Reading.{
  behind, is_blank, is_literal, skip_blanks, read_test, read_tests, more, joined, operand,
}

behind-append : (t s : String) → behind t (t <> s) ≡ some s
unfolding behind
behind-append [] s = ap some (append.nil s)
behind-append (c ∷ t) s = rw (append.cons c t s) (ground (arith, behind-append t s))

abbrev pub all_blank : String → Bool
all_blank [] = true
all_blank (c ∷ s) = is_blank c && all_blank s

bracket_ends : (s : String) → ends_number ("] == '" <> s) ≡ true
bracket_ends s = rw (append.cons "]" " == '" s) refl

read_test-test_text :
    (i : ℕ) (c : Char) (rest : String)
    → is_literal c ≡ true
    → read_test (test_text (i, c) <> rest) ≡ some ((i, c), rest)
unfolding read_test
read_test-test_text i c rest h =
    rw
      (
        append_assoc "comm[" (show i <> ("] == '" <> (c ∷ "'"))) rest,
        append_assoc (show i) ("] == '" <> (c ∷ "'")) rest,
        append_assoc "] == '" (c ∷ "'") rest,
        behind-append "comm[" (show i <> ("] == '" <> ((c ∷ "'") <> rest))),
        read_decimal-show i ("] == '" <> ((c ∷ "'") <> rest)) (bracket_ends ((c ∷ "'") <> rest)),
        behind-append "] == '" ((c ∷ "'") <> rest),
        append.cons c "'" rest,
      )
      (ground (arith, behind-append "'" rest))

skip_blanks-append :
    (blanks s : String) → all_blank blanks ≡ true → skip_blanks (blanks <> s) ≡ skip_blanks s
unfolding skip_blanks
skip_blanks-append [] s h = ap skip_blanks (append.nil s)
skip_blanks-append (c ∷ t) s h = rw (append.cons c t s) (ground (arith, skip_blanks-append t s))

abbrev separator : String → String
separator indent = " &&\n" <> (indent <> "    ")

skip_blanks-blank :
    (c : Char) (s : String) → is_blank c ≡ true → skip_blanks (c ∷ s) ≡ skip_blanks s
unfolding skip_blanks
skip_blanks-blank c s h = ground arith

skip_blanks-word : (c : Char) (s : String) → is_blank c ≡ false → skip_blanks (c ∷ s) ≡ c ∷ s
unfolding skip_blanks
skip_blanks-word c s h = ground arith

behind_and : (s : String) → behind "&&" (skip_blanks (" &&\n" <> s)) ≡ some ("\n" <> s)
unfolding char_eq
behind_and s =
    rw
      (
        append.cons " " "&&\n" s,
        skip_blanks-blank " " ("&&\n" <> s) refl,
        append.cons "&" "&\n" s,
        skip_blanks-word "&" ("&\n" <> s) refl,
        ← append.cons "&" "&\n" s,
        append_assoc "&&" "\n" s,
        behind-append "&&" ("\n" <> s),
      )
      refl

more_word :
    (next : String → Option (List (ℕ × Char))) (test : ℕ × Char) (c : Char) (s t : String)
    → t ≡ c ∷ s
    → more next (some (test, t)) ≡ joined test (operand next (behind "&&" (skip_blanks t)))
more_word next test c s t h = rw h refl

more_and :
    (next : String → Option (List (ℕ × Char))) (test : ℕ × Char) (s : String)
    → more next (some (test, " &&\n" <> s)) ≡ joined test (next (skip_blanks ("\n" <> s)))
more_and next test s =
    more_word next test " " ("&&\n" <> s) (" &&\n" <> s) (append.cons " " "&&\n" s)
    ∙ ap (λ rest. joined test (operand next rest)) (behind_and s)

-- Behind one comparison the next ones are read.
more-separator :
    (fuel : ℕ) (test : ℕ × Char) (indent s : String)
    → all_blank indent ≡ true
    → more (read_tests fuel) (some (test, separator indent <> s))
      ≡ joined test (read_tests fuel (skip_blanks s))
unfolding char_eq
more-separator fuel test indent s h =
    rw
      (
        append_assoc " &&\n" (indent <> "    ") s,
        append_assoc indent "    " s,
        more_and (read_tests fuel) test (indent <> ("    " <> s)),
        skip_blanks-append "\n" (indent <> ("    " <> s)) refl,
        skip_blanks-append indent ("    " <> s) h,
        skip_blanks-append "    " s refl,
      )
      refl

abbrev pub all_literal : String → Bool
all_literal [] = true
all_literal (c ∷ s) = is_literal c && all_literal s

skip_blanks-test_text :
    (test : ℕ × Char) (rest : String)
    → skip_blanks (test_text test <> rest) ≡ test_text test <> rest
unfolding char_eq
skip_blanks-test_text (i, c) rest =
    rw
      (
        append.cons "c" "omm[" (show i <> ("] == '" <> (c ∷ "'"))),
        append.cons "c" ("omm[" <> (show i <> ("] == '" <> (c ∷ "'")))) rest,
      )
      (skip_blanks-word "c" (("omm[" <> (show i <> ("] == '" <> (c ∷ "'")))) <> rest) refl)

skip_blanks-tests :
    (sep : String) (i : ℕ) (c : Char) (s : String)
    → skip_blanks (join sep (map test_text (comm_tests i (c ∷ s))))
      ≡ join sep (map test_text (comm_tests i (c ∷ s)))
unfolding join comm_tests
skip_blanks-tests sep i c [] =
    ap skip_blanks (sym (append-nil (test_text (i, c))))
    ∙ skip_blanks-test_text (i, c) []
    ∙ append-nil (test_text (i, c))
skip_blanks-tests sep i c (d ∷ s) =
    skip_blanks-test_text (i, c) (sep <> join sep (map test_text (comm_tests (suc i) (d ∷ s))))

read_tests-last :
    (fuel i : ℕ) (c : Char)
    → is_literal c ≡ true
    → read_tests (suc fuel) (test_text (i, c)) ≡ some (List.◌∷◌ (i, c) List.[])
unfolding read_tests
read_tests-last fuel i c literal =
    ap (λ s. more (read_tests fuel) (read_test s)) (sym (append-nil (test_text (i, c))))
    ∙ ap (more (read_tests fuel)) (read_test-test_text i c [] literal)

read_tests-first :
    (fuel i : ℕ) (c : Char) (indent rest : String)
    → all_blank indent ≡ true
    → is_literal c ≡ true
    → read_tests (suc fuel) (test_text (i, c) <> (separator indent <> rest))
      ≡ joined (i, c) (read_tests fuel (skip_blanks rest))
unfolding read_tests
read_tests-first fuel i c indent rest blank literal =
    rw (read_test-test_text i c (separator indent <> rest) literal)
      (more-separator fuel (i, c) indent rest blank)

literal_head : (c : Char) (s : String) → all_literal (c ∷ s) ≡ true → is_literal c ≡ true
literal_head c s h = ground arith

literal_tail : (c : Char) (s : String) → all_literal (c ∷ s) ≡ true → all_literal s ≡ true
literal_tail c s h = ground arith

read_tests-tests :
    (indent : String) (i : ℕ) (c : Char) (s : String) (fuel : ℕ)
    → all_blank indent ≡ true
    → all_literal (c ∷ s) ≡ true
    → count s ≤ fuel
    → read_tests (suc fuel) (join (separator indent) (map test_text (comm_tests i (c ∷ s))))
      ≡ some (comm_tests i (c ∷ s))
unfolding join comm_tests
read_tests-tests indent i c [] fuel blank literal enough =
    read_tests-last fuel i c (literal_head c [] literal)
read_tests-tests indent i c (d ∷ s) zero blank literal enough = absurd (omega arith)
read_tests-tests indent i c (d ∷ s) (suc fuel) blank literal enough =
    let rest = join (separator indent) (map test_text (comm_tests (suc i) (d ∷ s))) in
    read_tests-first (suc fuel) i c indent rest blank (literal_head c (d ∷ s) literal)
    ∙ ap (λ t. joined (i, c) (read_tests (suc fuel) t))
        (skip_blanks-tests (separator indent) (suc i) d s)
    ∙ ap (joined (i, c)) (
        read_tests-tests indent (suc i) d s fuel blank (literal_tail c (d ∷ s) literal)
          (omega arith))

read_tests-chars :
    (s indent : String) (fuel : ℕ)
    → all_blank indent ≡ true
    → all_literal s ≡ true
    → 1 ≤ count s
    → count s ≤ fuel
    → read_tests fuel (join (separator indent) (map test_text (comm_tests 0 s)))
      ≡ some (comm_tests 0 s)
read_tests-chars [] indent fuel blank literal some_char enough = absurd (omega arith)
read_tests-chars (c ∷ s) indent zero blank literal some_char enough = absurd (omega arith)
read_tests-chars (c ∷ s) indent (suc fuel) blank literal some_char enough =
    read_tests-tests indent 0 c s fuel blank literal (omega arith)

-- A condition that the generator writes for a prefix with at least one checked character reads back as the comparisons of the prefix, if the indent is blank, no checked character is a quote, a backslash or a line break, and the fuel is at least the number of checked characters.
pub read_tests-generate_comm_check :
    (p : Prefix) (indent : String) (fuel : ℕ)
    → all_blank indent ≡ true
    → all_literal (checked p) ≡ true
    → 1 ≤ count (checked p)
    → count (checked p) ≤ fuel
    → read_tests fuel (generate_comm_check p indent) ≡ some (comm_tests 0 (checked p))
unfolding generate_comm_check
read_tests-generate_comm_check p indent fuel = read_tests-chars (checked p) indent fuel
