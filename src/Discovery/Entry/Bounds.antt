-- ===== src/Discovery/Entry/Bounds.antt =====
-- How large a snippet and the text of an argument are.
use schedcore.Prelude.{
  ◌≡◌, refl, ap, ◌∙◌, ℕ, zero, suc, ◌+◌, ◌-◌, ◌≤◌, ◌<◌, String, List, [], ◌∷◌, arith, length, take,
  drop, get_elem?, ltb, if◌then◌else◌,
}
use schedcore.Prelude.Text.{count, count-append, join}
use schedcore.Prelude.Split.{split, occurrences}
use schedcore.Prelude.Split.Lines.{join-split, length-split}
use schedcore.Prelude.Text
use schedcore.Discovery.Entry.{Node, lines_around, get_context_snippet, extract_arg_text}

module _ {ℓ} {A : Type ℓ} where
  length-drop : (n : ℕ) (xs : List A) → length (drop n xs) ≡ length xs - n
  length-drop zero xs = omega arith
  length-drop (suc n) [] = omega arith
  length-drop (suc n) (x ∷ xs) = omega (arith, length-drop n xs)

  length-take : (n : ℕ) (xs : List A) → length (take n xs) ≤ n
  length-take zero xs = omega arith
  length-take (suc n) [] = omega arith
  length-take (suc n) (x ∷ xs) = omega (arith, length-take n xs)

  get_elem?-drop : (n i j : ℕ) (xs : List A) → j ≡ n + i → get_elem? (drop n xs) i ≡ get_elem? xs j
  get_elem?-drop zero i j xs h = ap (get_elem? xs) (omega arith)
  get_elem?-drop (suc n) i j [] h = refl
  get_elem?-drop (suc n) i zero (x ∷ xs) h = absurd (omega arith)
  get_elem?-drop (suc n) i (suc j) (x ∷ xs) h = get_elem?-drop n i j xs (omega arith)

  get_elem?-take : (n i : ℕ) (xs : List A) → i < n → get_elem? (take n xs) i ≡ get_elem? xs i
  get_elem?-take zero i xs h = absurd (omega arith)
  get_elem?-take (suc n) i [] h = refl
  get_elem?-take (suc n) zero (x ∷ xs) h = refl
  get_elem?-take (suc n) (suc i) (x ∷ xs) h = get_elem?-take n i xs (omega arith)

-- A snippet has at most eleven lines, and the line of the finding is one of them: the sixth, or
-- nearer to the start where fewer than five lines stand before it.
pub lines_around-bounds :
    (source_lines : List String) (line_num : ℕ)
    → 1 ≤ line_num
    → line_num ≤ length source_lines
    → (length (lines_around source_lines line_num) ≤ 11)
      × (get_elem? (lines_around source_lines line_num) (if ltb line_num 6 then line_num - 1 else 5)
          ≡ get_elem? source_lines (line_num - 1))
unfolding lines_around
lines_around-bounds source_lines line_num low high = (
  ground (
    arith,
    length-drop (line_num - 1 - 5) (take (line_num + 5) source_lines),
    length-drop (line_num - 1 - 5) (take (length source_lines) source_lines),
    length-take (line_num + 5) source_lines,
    length-take (length source_lines) source_lines,
  ),
  get_elem?-drop (line_num - 1 - 5) (if ltb line_num 6 then line_num - 1 else 5) (line_num - 1)
        (take
          (if ltb (line_num + 5) (length source_lines) then line_num + 5 else length source_lines)
          source_lines)
        (ground arith)
      ∙ get_elem?-take
          (if ltb (line_num + 5) (length source_lines) then line_num + 5 else length source_lines)
          (line_num - 1) source_lines (ground arith),
)

count-take : (n : ℕ) (s : String) → count (Text.take n s) ≤ n
unfolding Text.take
count-take zero s = omega arith
count-take (suc n) String.[] = omega arith
count-take (suc n) (String.◌∷◌ c s) = omega (arith, count-take n s)

-- The text of an argument has at most 120 characters.
pub extract_arg_text-bounds : (node : Node) → count (extract_arg_text node) ≤ 120
unfolding extract_arg_text
extract_arg_text-bounds node =
    ground (arith, count-append (Text.take 117 node.text) "...", count-take 117 node.text)

take-all : (n : ℕ) (xs : List String) → length xs ≤ n → take n xs ≡ xs
take-all zero [] h = refl
take-all zero (x ∷ xs) h = absurd (omega arith)
take-all (suc n) [] h = refl
take-all (suc n) (x ∷ xs) h = ap (λ ys. x ∷ ys) (take-all n xs (omega arith))

-- The snippet of a finding in the first six lines of a text that ends within five more lines is the
-- text itself.
pub get_context_snippet-whole :
    (text : String) (line_num : ℕ)
    → line_num ≤ 6
    → occurrences "\n" text < line_num + 5
    → get_context_snippet (split "\n" text) line_num ≡ text
unfolding get_context_snippet lines_around
get_context_snippet-whole text line_num early short =
    let lines = split "\n" text in
    let few : length lines ≤ line_num + 5 = omega (arith, length-split "\n" text, short) in
    let top : line_num - 1 - 5 ≡ 0 = omega arith in
    ap
      (λ n. join "\n" (
        drop n
          (take (if ltb (line_num + 5) (length lines) then line_num + 5 else length lines) lines)))
      top
    ∙ ap (join "\n") (
        take-all (if ltb (line_num + 5) (length lines) then line_num + 5 else length lines) lines
          (ground arith))
    ∙ join-split "\n" text
