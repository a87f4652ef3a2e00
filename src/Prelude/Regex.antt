-- ===== src/Prelude/Regex.antt =====
-- The part of Python's `re` that the programs use: a pattern is a row of items, each one character
-- or a run of characters, greedy or lazy. The matcher backtracks, as `re` does.
use schedcore.Prelude.{
  ℕ, zero, suc, ◌-◌, String, Char, ◌<>◌, Option, none, some, Bool, true, false, List, [], ◌∷◌, ◌==◌,
  ◌||◌, char_eq, string_eq, if◌then◌else◌,
}
use schedcore.Prelude.Text.{count, take}

pub data Greed : Type 0 where
  greedy lazy : Greed

pub data Item : Type 0 where
  -- one character that passes the test
  one : (Char → Bool) → Item
  -- a run of such characters, of one or more if the first Boolean is true, captured as a group if
  -- the second is
  many : Greed → Bool → Bool → (Char → Bool) → Item
  -- `$`: the end, or a line break at the end
  at_end : Item
  -- whole lines, as few as possible: `(?:.*\n)*?`
  lines : Item

abbrev pub Pattern : Type 0
Pattern = List Item

-- The groups, and what follows the match.
abbrev pub Found : Type 0
Found = List String × String

abbrev or_else : Option Found → Option Found → Option Found
or_else none b = b
or_else (some a) b = some a

abbrev pub Next : Type 0
Next = String → String → Option Found

-- The runs of a character class from here on: `next` gets the run so far and what follows it.
unfoldable pub runs : Greed → (Char → Bool) → Next → String → String → Option Found
runs g test next taken String.[] = next taken String.[]
runs greedy test next taken (String.◌∷◌ c s) =
    let onward = runs greedy test next (taken <> (String.◌∷◌ c String.[])) s in
    let stop = next taken (String.◌∷◌ c s) in if test c then or_else onward stop else stop
runs lazy test next taken (String.◌∷◌ c s) =
    let onward = runs lazy test next (taken <> (String.◌∷◌ c String.[])) s in
    let stop = next taken (String.◌∷◌ c s) in if test c then or_else stop onward else stop

unfoldable pub first_char : (Char → Bool) → (Char → String → Option Found) → String → Option Found
first_char test next String.[] = none
first_char test next (String.◌∷◌ c s) = if test c then next c s else none

-- From the start of each later line.
unfoldable pub later_lines : (String → Option Found) → String → Option Found
later_lines next String.[] = none
later_lines next (String.◌∷◌ c s) =
    let later = later_lines next s in if c == "\n" then or_else (next s) later else later

abbrev pub captured : Bool → String → Option Found → Option Found
captured true taken (some (groups, rest)) = some (taken ∷ groups, rest)
captured true taken none = none
captured false taken found = found

unfoldable pub match_at : Pattern → String → Option Found
unfolding runs first_char later_lines
match_at [] s = some ([], s)
match_at (one test ∷ items) s = first_char test (λ c rest. match_at items rest) s
match_at (many g false capture test ∷ items) s =
    runs g test (λ taken rest. captured capture taken (match_at items rest)) "" s
match_at (many g true capture test ∷ items) s =
    first_char test
      (λ c rest.
        runs g test (λ taken rest'. captured capture taken (match_at items rest'))
          (String.◌∷◌ c String.[]) rest)
      s
match_at (at_end ∷ items) s = if s == "" || s == "\n" then match_at items s else none
match_at (lines ∷ items) s =
    or_else (match_at items s) (later_lines (λ rest. match_at items rest) s)

-- The first match of several patterns, in their order: `(?:a|b)`.
unfoldable pub match_first : List Pattern → String → Option Found
match_first [] s = none
match_first (p ∷ ps) s = or_else (match_at p s) (match_first ps s)

-- `re.search(p, s)`
unfoldable pub search_for : Pattern → String → Option Found
unfolding match_at
search_for p String.[] = match_at p String.[]
search_for p (String.◌∷◌ c s) = or_else (match_at p (String.◌∷◌ c s)) (search_for p s)

-- The text of a match, from where it starts.
abbrev matched_text : String → Option Found → Option String → Option String
matched_text s none later = later
matched_text s (some (groups, rest)) later = some (take (count s - count rest) s)

-- `re.search(p, s).group(0)`
unfoldable pub search_text : Pattern → String → Option String
unfolding match_at
search_text p String.[] = matched_text String.[] (match_at p String.[]) none
search_text p (String.◌∷◌ c s) =
    matched_text (String.◌∷◌ c s) (match_at p (String.◌∷◌ c s)) (search_text p s)

-- A match of `re.finditer`: the text before it and its groups.
pub record Hit : Type 0 where
  pub before : String
  pub groups : List String

abbrev hits_here : Option Found → String → (ℕ → List Hit) → ℕ → List Hit
hits_here none before onward length = onward 0
hits_here (some (groups, rest)) before onward length =
    record { before = before; groups = groups } ∷ onward (length - count rest - 1)

-- `re.finditer(p, s)` for a pattern that matches no empty text: `skip` characters belong to the last
-- match.
unfoldable pub find_from : Pattern → String → ℕ → String → List Hit
unfolding match_at
find_from p before skip String.[] = []
find_from p before (suc skip) (String.◌∷◌ c s) =
    find_from p (before <> (String.◌∷◌ c String.[])) skip s
find_from p before zero (String.◌∷◌ c s) =
    hits_here (match_at p (String.◌∷◌ c s)) before
      (λ skip. find_from p (before <> (String.◌∷◌ c String.[])) skip s) (suc (count s))

unfoldable pub find_all : Pattern → String → List Hit
unfolding find_from
find_all p s = find_from p "" 0 s

-- The items of a fixed text.
unfoldable pub exactly : String → Pattern
exactly String.[] = []
exactly (String.◌∷◌ c s) = one (λ d. d == c) ∷ exactly s
