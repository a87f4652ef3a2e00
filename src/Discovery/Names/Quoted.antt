-- ===== src/Discovery/Names/Quoted.antt =====
-- String literals, as the regular expressions and as the syntax tree give them.
use Prim.Native.String.{[], ◌∷◌}
use Prim.Native.String.append
use schedcore.Prelude.{
  ℕ, String, ◌<>◌, some, Bool, true, not, ◌&&◌, ◌≡◌, refl, sym, ap, ◌∙◌, arith, ◌==◌, char_eq,
  string_eq,
}
use mathlib.Core.List
use text.Mathlib.TextLemmas.{append_assoc, append-nil}
use schedcore.Prelude.Text.{starts_with}
use schedcore.Prelude.Split.{ends_with}
use schedcore.Prelude.Split.Lines.{char_append}
use schedcore.Prelude.Regex.{greedy, one, at_end, match_at, runs, captured}
use schedcore.Discovery.Entry.{but_last, extract_string_literal}
use schedcore.Discovery.Names.{first_group, quoted, constant_of}

-- The text has no quotation mark.
abbrev pub is_plain : String → Bool
is_plain [] = true
is_plain (c ∷ s) = not (c == "\"") && is_plain s

abbrev pub in_quotes : String → String
in_quotes name = "\"" <> (name <> "\"")

runs-plain :
    (taken name : String)
    → is_plain name ≡ true
    → runs greedy
        (λ c. not (c == "\""))
        (λ part rest.
          captured true part
            (match_at (List.◌∷◌ (one (λ c. c == "\"")) (List.◌∷◌ at_end List.[])) rest))
        taken
        (name <> "\"")
      ≡ some (List.◌∷◌ (taken <> name) List.[], "")
unfolding runs match_at char_eq string_eq
runs-plain taken [] plain = rw (append-nil taken)
runs-plain taken (c ∷ s) plain = rw (append.cons c s "\"") (
    ground
      (arith, runs-plain (taken <> (c ∷ [])) s, append_assoc taken (c ∷ []) s, char_append c s))

constant_of-in_quotes :
    (name : String) → is_plain name ≡ true → constant_of (in_quotes name) ≡ some name
unfolding constant_of quoted match_at char_eq string_eq
constant_of-in_quotes name plain =
    rw (char_append "\"" (name <> "\""))
      (ap first_group (runs-plain "" name plain) ∙ ap some (append.nil name))

ends_with-append : (name : String) → ends_with (name <> "\"") "\"" ≡ true
unfolding ends_with string_eq
ends_with-append [] = refl
ends_with-append (c ∷ s) = rw (append.cons c s "\"") (ground (arith, ends_with-append s))

inner-in_quotes : (name : String) → but_last (name <> "\"") ≡ name
inner-in_quotes [] = refl
inner-in_quotes (c ∷ []) = rw (append.cons c [] "\"") refl
inner-in_quotes (c ∷ (d ∷ s)) =
    rw (append.cons c (d ∷ s) "\"", append.cons d s "\"")
      (ap (λ t. c ∷ t) (ap but_last (sym (append.cons d s "\"")) ∙ inner-in_quotes (d ∷ s)))

-- The regular expression reads a name without quotation marks back from the literal that has it,
-- and so does the reading of a node of the syntax tree.
pub in_quotes-read :
    (name type : String) (row : ℕ)
    → is_plain name ≡ true
    → (constant_of (in_quotes name) ≡ some name)
      × (extract_string_literal (record { type = type; text = in_quotes name; row = row }) ≡ name)
unfolding extract_string_literal starts_with ends_with
in_quotes-read name type row plain = (
  constant_of-in_quotes name plain,
  rw (char_append "\"" (name <> "\""))
      (ground (arith, ends_with-append name, inner-in_quotes name)),
)
