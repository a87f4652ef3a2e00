-- ===== src/Discovery/Setters.antt =====
-- pipeline/stage1a_static_analysis.py: `find_proc_title_setters`. `brace_depth`, which a file may
-- make negative, is the difference of the braces opened and closed so far.
pub mod Bodies
pub mod Sound
pub mod Titles
use schedcore.Prelude.{
  ℕ, ◌+◌, String, Option, none, some, Bool, true, false, not, ◌&&◌, List, [], ◌∷◌, ◌++◌, ◌==◌,
  string_eq, char_eq, nat_eq, if◌then◌else◌,
}
use schedcore.Prelude.Split.{Unicode, has_part, occurrences}
use schedcore.Prelude.Dict.{Dict, insert}
use schedcore.Prelude.Regex.{Pattern, one, many, greedy, match_first, exactly, Found}

pub record Scan : Type 0 where
  pub in_function : Option String
  pub opened : ℕ
  pub closed : ℕ
  pub has_setproctitle : Bool
  pub setters : Dict String String

module _ (u : Unicode) where
  -- `\s+(\w+)\s*\(`
  name_and_bracket : Pattern
  name_and_bracket =
      many greedy true false u.is_space
      ∷ many greedy true true u.is_word
      ∷ many greedy false false u.is_space
      ∷ one (λ c. c == "(")
      ∷ []

  -- `(?:int|void|static\s+(?:int|void))` and what follows, one pattern for each way
  function_patterns : List Pattern
  function_patterns =
      (exactly "int" ++ name_and_bracket)
      ∷ (exactly "void" ++ name_and_bracket)
      ∷ (exactly "static" ++ many greedy true false u.is_space ∷ exactly "int" ++ name_and_bracket)
      ∷ (exactly "static" ++ many greedy true false u.is_space ∷ exactly "void" ++ name_and_bracket)
      ∷ []

  abbrev first_group : Option Found → Option String
  first_group (some (name ∷ groups, rest)) = some name
  first_group (some ([], rest)) = none
  first_group none = none

  -- `func_match.group(1)`, if the line starts the definition of a function
  unfoldable pub defined_function : String → Option String
  unfolding function_patterns name_and_bracket match_first exactly
  defined_function line = first_group (match_first function_patterns line)

  -- `brace_depth == 0`
  abbrev pub at_top : Scan → Bool
  at_top s = s.opened == s.closed

  abbrev pub enter_function : Option String → Scan → Scan
  enter_function none s = s
  enter_function (some name) s =
      if at_top s then record s { in_function = some name; has_setproctitle = false } else s

  abbrev pub count_braces : String → Scan → Scan
  count_braces line s = record s {
    opened = s.opened + occurrences "{" line;
    closed = s.closed + occurrences "}" line;
  }

  abbrev pub is_inside : Scan → Bool
  is_inside s = elim s.in_function [ some name ↦ true | none ↦ false ]

  abbrev pub note_call : String → Scan → Scan
  note_call line s =
      if has_part "setproctitle" line && is_inside s
      then record s { has_setproctitle = true }
      else s

  abbrev pub leave : Option String → Scan → Scan
  leave none s = s
  leave (some name) s =
      if at_top s
      then record s {
        in_function = none;
        has_setproctitle = false;
        setters =
            if s.has_setproctitle && not (name == "setproctitle")
            then insert name "setproctitle" s.setters
            else s.setters;
      }
      else s

  abbrev pub leave_function : Scan → Scan
  leave_function s = leave s.in_function s

  unfoldable pub scan_line : Scan → String → Scan
  unfolding defined_function has_part occurrences insert
  scan_line s line =
      leave_function (note_call line (count_braces line (enter_function (defined_function line) s)))

  unfoldable pub scan_lines : Scan → List String → Scan
  unfolding scan_line
  scan_lines s [] = s
  scan_lines s (line ∷ lines) = scan_lines (scan_line s line) lines

  abbrev pub start : Scan
  start = record {
    in_function = none;
    opened = 0;
    closed = 0;
    has_setproctitle = false;
    setters = [];
  }

  unfoldable pub find_proc_title_setters : List String → Dict String String
  unfolding scan_lines
  find_proc_title_setters source_lines = (scan_lines start source_lines).setters
