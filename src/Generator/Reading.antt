-- ===== src/Generator/Reading.antt =====
-- A reader of the C conditions that pipeline/stage3_generate_scheduler.py writes: comparisons of
-- characters of `comm`, joined by `&&`. It is a part of C's grammar, not of the program.
pub mod RoundTrip
use Prim.Native.String.{[], ◌∷◌}
use mathlib.Core.List.{List}
use schedcore.Prelude.{
  ℕ, zero, suc, String, Char, Bool, not, true, false, ◌||◌, Option, none, some, ◌==◌, char_eq,
  if◌then◌else◌,
}
use schedcore.Prelude.Text.Decimal.{read_decimal}

-- What follows a fixed text.
unfoldable pub behind : String → String → Option String
behind [] s = some s
behind (c ∷ t) [] = none
behind (c ∷ t) (d ∷ s) = if c == d then behind t s else none

abbrev pub is_blank : Char → Bool
is_blank c = c == " " || c == "\t" || c == "\n"

unfoldable pub skip_blanks : String → String
skip_blanks [] = []
skip_blanks (c ∷ s) = let rest = skip_blanks s in if is_blank c then rest else c ∷ s

-- A character that stands for itself between single quotes.
abbrev pub is_literal : Char → Bool
is_literal c = not (c == "'" || c == "\\" || c == "\n")

abbrev closed : ℕ → Char → Option String → Option ((ℕ × Char) × String)
closed i c none = none
closed i c (some rest) = some ((i, c), rest)

abbrev character : ℕ → Option String → Option ((ℕ × Char) × String)
character i none = none
character i (some []) = none
character i (some (c ∷ s)) = if is_literal c then closed i c (behind "'" s) else none

abbrev indexed : ℕ × String → Option ((ℕ × Char) × String)
indexed (i, s) = character i (behind "] == '" s)

abbrev numbered : Option String → Option ((ℕ × Char) × String)
numbered none = none
numbered (some s) = indexed (read_decimal 0 s)

-- `comm[i] == 'c'`
unfoldable pub read_test : String → Option ((ℕ × Char) × String)
unfolding behind read_decimal
read_test s = numbered (behind "comm[" s)

-- The conditions behind `&&`, if there are any.
abbrev joined : (ℕ × Char) → Option (List (ℕ × Char)) → Option (List (ℕ × Char))
joined test none = none
joined test (some tests) = some (List.◌∷◌ test tests)

abbrev operand : (String → Option (List (ℕ × Char))) → Option String → Option (List (ℕ × Char))
operand next none = none
operand next (some s) = next (skip_blanks s)

abbrev more :
    (String → Option (List (ℕ × Char))) → Option ((ℕ × Char) × String) → Option (List (ℕ × Char))
more next none = none
more next (some (test, [])) = some (List.◌∷◌ test List.[])
more next (some (test, c ∷ s)) = joined test (operand next (behind "&&" (skip_blanks (c ∷ s))))

-- A condition: at least one comparison, and at most as many as the fuel says.
unfoldable pub read_tests : ℕ → String → Option (List (ℕ × Char))
unfolding read_test skip_blanks behind
read_tests zero s = none
read_tests (suc fuel) s = more (read_tests fuel) (read_test s)
