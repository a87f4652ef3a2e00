-- ===== src/Prelude/Split/Lines.antt =====
-- Texts and their lines.
use Prim.Native.String.{[], ◌∷◌}
use Prim.Native.String.append
use text.Mathlib.TextLemmas.{append_assoc, append-nil}
use mathlib.Core.List.{List}
use schedcore.Prelude.{
  ℕ, zero, suc, ◌+◌, String, Char, ◌<>◌, false, ◌≡◌, refl, sym, ap, ◌∙◌, arith, char_eq, length,
  is_empty,
}
use schedcore.Prelude.Text.{join, starts_with}
use schedcore.Prelude.Split.{split, split_from, occurrences}

-- Splitting at a character leaves one part more than the text has such characters.
pub length-split : (sep : Char) (s : String) → length (split (sep ∷ []) s) ≡ occurrences sep s + 1
unfolding split split_from occurrences starts_with
length-split sep s = parts "" s
  where
    parts : (part s : String) → length (split_from (sep ∷ []) part 0 s) ≡ occurrences sep s + 1
    parts part [] = refl
    parts part (c ∷ s) = ground (arith, parts "" s, parts (part <> (c ∷ [])) s)

is_empty-split_from :
    (sep part : String) (skip : ℕ) (s : String) → is_empty (split_from sep part skip s) ≡ false
unfolding split_from
is_empty-split_from sep part skip [] = refl
is_empty-split_from sep part (suc skip) (c ∷ s) = is_empty-split_from sep part skip s
is_empty-split_from sep part zero (c ∷ s) =
    ground (arith, is_empty-split_from sep (part <> (c ∷ [])) 0 s)

join-cons :
    (sep p : String) (ps : List String)
    → is_empty ps ≡ false
    → join sep (List.◌∷◌ p ps) ≡ p <> (sep <> join sep ps)
unfolding join
join-cons sep p List.[] h = cc
join-cons sep p (List.◌∷◌ q ps) h = refl

pub char_append : (c : Char) (s : String) → (c ∷ []) <> s ≡ c ∷ s
char_append c s = rw (append.cons c [] s, append.nil s)

-- Joining the parts of a split gives the text back.
pub join-split : (sep : Char) (s : String) → join (sep ∷ []) (split (sep ∷ []) s) ≡ s
unfolding split split_from join starts_with
join-split sep s = parts "" s ∙ append.nil s
  where
    parts : (part s : String) → join (sep ∷ []) (split_from (sep ∷ []) part 0 s) ≡ part <> s
    parts part [] = sym (append-nil part)
    parts part (c ∷ s) = ground (
      arith,
      join-cons (sep ∷ []) part (split_from (sep ∷ []) "" 0 s)
            (is_empty-split_from (sep ∷ []) "" 0 s)
          ∙ ap (λ t. part <> ((sep ∷ []) <> t)) (parts "" s ∙ append.nil s)
          ∙ ap (λ t. part <> t) (char_append sep s),
      parts (part <> (c ∷ [])) s
          ∙ append_assoc part (c ∷ []) s
          ∙ ap (λ t. part <> t) (char_append c s),
    )
