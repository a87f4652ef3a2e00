-- ===== src/Discovery/Names.antt =====
-- pipeline/stage1a_static_analysis.py: `regex_find_thread_names`, with its patterns.
pub mod Quoted
use schedcore.Prelude.{
  ℕ, ◌+◌, String, Char, ◌<>◌, Option, none, some, Bool, true, false, not, List, [], ◌∷◌, ◌++◌,
  get_elem?, is_some, ◌==◌, char_eq, string_eq,
}
use schedcore.Prelude.Split.{Unicode, occurrences, strip}
use schedcore.Prelude.Dict.{Dict}
use schedcore.Prelude.Regex.{
  Pattern, Item, one, many, at_end, greedy, lazy, match_at, exactly, find_all, Found, Hit,
}
use schedcore.Discovery.Entry.{ThreadName, get_context_snippet}

-- `m.group(n)`
abbrev pub group : ℕ → Hit → String
group n m = group_or "" (get_elem? m.groups n)
  where
    group_or : String → Option String → String
    group_or d none = d
    group_or d (some g) = g

-- `re.match(r'^"([^"]*)"$', text)`
unfoldable pub quoted : Pattern
unfolding exactly
quoted =
    one (λ c. c == "\"")
    ∷ many greedy false true (λ c. not (c == "\""))
    ∷ one (λ c. c == "\"")
    ∷ at_end
    ∷ []

abbrev pub first_group : Option Found → Option String
first_group (some (g ∷ groups, rest)) = some g
first_group (some ([], rest)) = none
first_group none = none

unfoldable pub constant_of : String → Option String
unfolding quoted match_at
constant_of text = first_group (match_at quoted text)

-- `.`
abbrev any_char : Char → Bool
any_char c = not (c == "\n")

module _ (u : Unicode) where
  -- `\s*` and `(.+?)\s*\)\s*;`
  abbrev spaces : Item
  spaces = many greedy false false u.is_space

  abbrev name_argument : Pattern
  name_argument =
      many lazy true true any_char
      ∷ spaces
      ∷ one (λ c. c == ")")
      ∷ spaces
      ∷ one (λ c. c == ";")
      ∷ []

  unfoldable pub setname_pattern : Pattern
  unfolding exactly
  setname_pattern =
      exactly "pthread_setname_np"
      ++ spaces
        ∷ one (λ c. c == "(")
        ∷ spaces
        ∷ many greedy true true (λ c. not (c == ","))
        ∷ spaces
        ∷ one (λ c. c == ",")
        ∷ spaces
        ∷ name_argument

  unfoldable pub prctl_pattern : Pattern
  unfolding exactly
  prctl_pattern =
      exactly "prctl"
      ++ spaces
        ∷ one (λ c. c == "(")
        ∷ spaces
        ∷ (exactly "PR_SET_NAME" ++ spaces ∷ one (λ c. c == ",") ∷ spaces ∷ name_argument)

  -- `re.escape` lets the name stand for itself.
  unfoldable pub macro_pattern : String → Pattern
  unfolding exactly
  macro_pattern macro_name =
      exactly macro_name ++ spaces ∷ one (λ c. c == "(") ∷ spaces ∷ name_argument

  -- The entry of a match whose group `n` is the argument.
  unfoldable pub found_name : List String → String → String → ℕ → Hit → ThreadName
  unfolding constant_of get_context_snippet occurrences strip
  found_name source_lines rel_path function n m =
      let line = occurrences "\n" m.before + 1 in
      let text = strip u (group n m) in
      record {
        file = rel_path;
        line = line;
        function = function;
        name_arg = text;
        constant_value = constant_of text;
        is_constant = is_some (constant_of text);
        context_snippet = get_context_snippet source_lines line;
      }

  unfoldable pub found_names : List String → String → String → ℕ → List Hit → List ThreadName
  unfolding found_name
  found_names source_lines rel_path function n [] = []
  found_names source_lines rel_path function n (m ∷ ms) =
      found_name source_lines rel_path function n m
      ∷ found_names source_lines rel_path function n ms

  unfoldable pub macro_names : String → List String → String → Dict String String → List ThreadName
  unfolding found_names macro_pattern find_all
  macro_names source_text source_lines rel_path [] = []
  macro_names source_text source_lines rel_path ((macro_name, underlying) ∷ macros) =
      found_names source_lines rel_path (macro_name <> (" (macro for " <> (underlying <> ")"))) 0
        (find_all (macro_pattern macro_name) source_text)
      ++ macro_names source_text source_lines rel_path macros

  unfoldable pub regex_find_thread_names :
      String → List String → String → Dict String String → List ThreadName
  unfolding found_names setname_pattern prctl_pattern macro_names find_all
  regex_find_thread_names source_text source_lines rel_path macro_wrappers =
      found_names source_lines rel_path "pthread_setname_np" 1
        (find_all setname_pattern source_text)
      ++ (found_names source_lines rel_path "prctl(PR_SET_NAME)" 0
            (find_all prctl_pattern source_text)
          ++ macro_names source_text source_lines rel_path macro_wrappers)
