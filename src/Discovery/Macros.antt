-- ===== src/Discovery/Macros.antt =====
-- pipeline/stage1a_static_analysis.py: `find_macro_wrappers`.
pub mod Wrapped
use schedcore.Prelude.{String, not, ◌||◌, List, [], ◌∷◌, ◌==◌, string_eq, if◌then◌else◌}
use schedcore.Prelude.Text.{starts_with}
use schedcore.Prelude.Split.{Unicode, has_part, split, before, strip, second_word}
use schedcore.Prelude.Dict.{Dict, insert}

module _ (u : Unicode) where
  -- `parts[1].split("(")[0]`, empty where the directive has no second part
  unfoldable pub macro_name : String → String
  unfolding second_word before
  macro_name stripped = before "(" (second_word u stripped)

  -- The body of the loop for a line that is stripped.
  unfoldable pub add_macro : Dict String String → String → Dict String String
  unfolding macro_name has_part starts_with insert
  add_macro macros stripped =
      let name = macro_name stripped in
      if not (starts_with stripped "#define")
      then macros
      else if not (has_part "pthread_setname_np" stripped || has_part "prctl" stripped)
      then macros
      else if name == "" || name == "pthread_setname_np"
      then macros
      else if has_part "pthread_setname_np" stripped
      then insert name "pthread_setname_np" macros
      else if has_part "PR_SET_NAME" stripped
      then insert name "prctl" macros
      else macros

  unfoldable pub add_macros : Dict String String → List String → Dict String String
  unfolding add_macro strip
  add_macros macros [] = macros
  add_macros macros (line ∷ lines) = add_macros (add_macro macros (strip u line)) lines

  unfoldable pub find_macro_wrappers : String → Dict String String
  unfolding add_macros split
  find_macro_wrappers source_text = add_macros [] (split "\n" source_text)
