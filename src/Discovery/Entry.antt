-- ===== src/Discovery/Entry.antt =====
-- pipeline/stage1a_static_analysis.py: the entries of the report, the lines around a finding, and the
-- texts of an argument. A node of tree-sitter's syntax tree has its type, its decoded text, and the
-- row of its start.
pub mod Bounds
use schedcore.Prelude.{
  ℕ, suc, ◌+◌, ◌-◌, String, ◌<>◌, Option, none, some, Bool, true, false, List, [], ◌∷◌, ltb, not,
  ◌==◌, ◌&&◌, string_eq, contains, take, drop, length, if◌then◌else◌,
}
use schedcore.Prelude.Text.{count, starts_with, join}
use schedcore.Prelude.Text
use schedcore.Prelude.Split.{ends_with}

pub record Node : Type 0 where
  pub type : String
  pub text : String
  pub row : ℕ

pub record ThreadName : Type 0 where
  pub file : String
  pub line : ℕ
  pub function : String
  pub name_arg : String
  pub is_constant : Bool
  pub constant_value : Option String
  pub context_snippet : String

pub record ThreadCreate : Type 0 where
  pub file : String
  pub line : ℕ
  pub method : String
  pub start_routine : String
  pub context_snippet : String

-- `(entry["file"], entry["line"])`
abbrev pub Place : Type 0
Place = String × ℕ

abbrev pub place_of_name : ThreadName → Place
place_of_name entry = (entry.file, entry.line)

abbrev pub place_of_create : ThreadCreate → Place
place_of_create entry = (entry.file, entry.line)

unfoldable pub places {ℓ} : {A : Type ℓ} → (A → Place) → List A → List Place
places place [] = []
places place (entry ∷ entries) = place entry ∷ places place entries

abbrev pub context_lines : ℕ
context_lines = 5

-- `source_lines[start:end]`; a difference below 0 is 0, as in `max(0, …)`.
unfoldable pub lines_around : List String → ℕ → List String
lines_around source_lines line_num =
    let start = line_num - 1 - context_lines in
    let whole = length source_lines in
    let end = if ltb (line_num + context_lines) whole then line_num + context_lines else whole in
    drop start (take end source_lines)

unfoldable pub get_context_snippet : List String → ℕ → String
unfolding lines_around join
get_context_snippet source_lines line_num = join "\n" (lines_around source_lines line_num)

abbrev pub but_last : String → String
but_last String.[] = String.[]
but_last (String.◌∷◌ c String.[]) = String.[]
but_last (String.◌∷◌ c (String.◌∷◌ d s)) = String.◌∷◌ c (but_last (String.◌∷◌ d s))

-- `text[1:-1]`
abbrev pub inner : String → String
inner String.[] = String.[]
inner (String.◌∷◌ c s) = but_last s

unfoldable pub extract_string_literal : Node → String
unfolding ends_with starts_with
extract_string_literal node =
    if starts_with node.text "\"" && ends_with node.text "\"" then inner node.text else node.text

unfoldable pub analyze_args : List Node → List Node
analyze_args [] = []
analyze_args (child ∷ children) =
    let args = analyze_args children in
    if contains ("(" ∷ ")" ∷ "," ∷ []) child.type then args else child ∷ args

unfoldable pub is_string_literal : Node → Bool
is_string_literal node =
    contains ("string_literal" ∷ "string_content" ∷ "concatenated_string" ∷ []) node.type

unfoldable pub extract_arg_text : Node → String
unfolding Text.take
extract_arg_text node =
    if ltb 120 (count node.text) then Text.take 117 node.text <> "..." else node.text
