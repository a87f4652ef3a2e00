-- ===== src/Prelude/Split.antt =====
-- More operations on texts: cutting, stripping, counting and searching.
pub mod Lines
use Prim.Native.String.{[], ◌∷◌}
use mathlib.Core.List.{List}
use schedcore.Prelude.{
  ℕ, zero, suc, ◌+◌, ◌-◌, String, Char, ◌<>◌, Bool, not, ◌||◌, ◌==◌, char_eq, string_eq,
  if◌then◌else◌,
}
use schedcore.Prelude.{◌≡◌, refl}
use schedcore.Prelude.Text.{count, starts_with, rstrip}

-- What Python's Unicode tables say: white space, letters and digits, and the lower case.
pub record Unicode : Type 0 where
  pub is_space : Char → Bool
  pub is_word : Char → Bool
  pub is_digit : Char → Bool
  pub lower : Char → String

-- `part in s`
unfoldable pub has_part : String → String → Bool
has_part part [] = part == ""
has_part part (c ∷ s) = starts_with (c ∷ s) part || has_part part s

-- `s.endswith(suffix)`
unfoldable pub ends_with : String → String → Bool
ends_with [] suffix = suffix == ""
ends_with (c ∷ s) suffix = (c ∷ s) == suffix || ends_with s suffix

-- `s.replace(part, "")` for a part that is not empty: `skip` characters belong to a match.
unfoldable pub without : String → ℕ → String → String
without part skip [] = []
without part (suc skip) (c ∷ s) = without part skip s
without part zero (c ∷ s) =
    let matched = without part (count part - 1) s in
    let kept = without part 0 s in if starts_with (c ∷ s) part then matched else c ∷ kept

-- `s.split(sep)` for a separator that is not empty: `part` is the part so far.
unfoldable pub split_from : String → String → ℕ → String → List String
split_from sep part skip [] = List.◌∷◌ part List.[]
split_from sep part (suc skip) (c ∷ s) = split_from sep part skip s
split_from sep part zero (c ∷ s) =
    let cut = List.◌∷◌ part (split_from sep [] (count sep - 1) s) in
    let grown = split_from sep (part <> (c ∷ [])) 0 s in
    if starts_with (c ∷ s) sep then cut else grown

unfoldable pub split : String → String → List String
unfolding split_from
split sep s = split_from sep [] 0 s

-- `s.split(sep)[0]` for a separator of one character
unfoldable pub before : Char → String → String
before sep [] = []
before sep (c ∷ s) = let rest = before sep s in if c == sep then [] else c ∷ rest

-- the last part of a split, which is never empty
abbrev pub last_or : String → List String → String
last_or d List.[] = d
last_or d (List.◌∷◌ p ps) = last_or p ps

-- `s.count(c)` for one character
unfoldable pub occurrences : Char → String → ℕ
occurrences d [] = 0
occurrences d (c ∷ s) = (if c == d then 1 else 0) + occurrences d s

-- The characters before and after the first one that fails a test.
unfoldable pub leading : (Char → Bool) → String → String
leading test [] = []
leading test (c ∷ s) = let rest = leading test s in if test c then c ∷ rest else []

unfoldable pub after_leading : (Char → Bool) → String → String
after_leading test [] = []
after_leading test (c ∷ s) = let rest = after_leading test s in if test c then rest else c ∷ s

module _ (u : Unicode) where
  -- `s.strip()`
  unfoldable pub strip : String → String
  unfolding rstrip after_leading
  strip s = rstrip u.is_space (after_leading u.is_space s)

  -- `s.lower()`
  unfoldable pub lower : String → String
  lower [] = []
  lower (c ∷ s) = u.lower c <> lower s

  -- `parts[1]` of `parts = s.split(None, 2)`, empty where there is no second part
  unfoldable pub second_word : String → String
  unfolding leading after_leading
  second_word s =
      let start = after_leading u.is_space s in
      let behind = after_leading (λ c. not (u.is_space c)) start in
      leading (λ c. not (u.is_space c)) (after_leading u.is_space behind)

split_runs : split "::" "a:::b" ≡ List.◌∷◌ "a" (List.◌∷◌ ":b" List.[])
unfolding split starts_with char_eq
split_runs = refl
