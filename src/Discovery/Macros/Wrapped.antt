-- ===== src/Discovery/Macros/Wrapped.antt =====
-- Which macros are found.
use schedcore.Prelude.{
  ◌≡◌, refl, String, Option, none, some, ◌||◌, ◌&&◌, not, List, [], ◌∷◌, arith, ◌==◌, string_eq,
  if◌then◌else◌,
}
use schedcore.Prelude.Split.{Unicode, has_part, split, strip}
use schedcore.Prelude.Text.{starts_with}
use schedcore.Prelude.Dict.{Dict, lookup, lookup-insert}
use schedcore.Discovery.Macros.{macro_name, add_macro, add_macros, find_macro_wrappers}

module _ (u : Unicode) where
  -- What a stripped line says of a macro: the function that it stands for.
  abbrev pub wrapped : String → String → Option String
  wrapped k stripped =
      if starts_with stripped "#define"
        && (macro_name u stripped == k && not (k == "" || k == "pthread_setname_np"))
      then (if has_part "pthread_setname_np" stripped
          then some "pthread_setname_np"
          else if has_part "prctl" stripped && has_part "PR_SET_NAME" stripped
          then some "prctl"
          else none)
      else none

  abbrev or_earlier : Option String → Option String → Option String
  or_earlier (some f) earlier = some f
  or_earlier none earlier = earlier

  -- What the last line says that says something of it.
  abbrev pub last_wrapped : String → Option String → List String → Option String
  last_wrapped k earlier [] = earlier
  last_wrapped k earlier (line ∷ lines) =
      last_wrapped k (or_earlier (wrapped k (strip u line)) earlier) lines

  lookup-add_macro :
      (k : String) (macros : Dict String String) (stripped : String)
      → lookup k (add_macro u macros stripped) ≡ or_earlier (wrapped k stripped) (lookup k macros)
  unfolding add_macro
  lookup-add_macro k macros stripped = ground (
    arith,
    lookup-insert k (macro_name u stripped) "pthread_setname_np" macros,
    lookup-insert k (macro_name u stripped) "prctl" macros,
  )

  lookup-add_macros :
      (k : String) (macros : Dict String String) (lines : List String)
      → lookup k (add_macros u macros lines) ≡ last_wrapped k (lookup k macros) lines
  unfolding add_macros
  lookup-add_macros k macros [] = refl
  lookup-add_macros k macros (line ∷ lines) = ground (
    arith,
    lookup-add_macros k (add_macro u macros (strip u line)) lines,
    lookup-add_macro k macros (strip u line),
  )

  -- A macro is found exactly if some line of the text is a `#define` of its name that mentions
  -- `pthread_setname_np`, or both `prctl` and `PR_SET_NAME`, the name being neither empty nor
  -- `pthread_setname_np`; it stands for what the last such line mentions, the former before the
  -- latter.
  pub lookup-find_macro_wrappers :
      (text k : String)
      → lookup k (find_macro_wrappers u text) ≡ last_wrapped k none (split "\n" text)
  unfolding find_macro_wrappers lookup
  lookup-find_macro_wrappers text k = lookup-add_macros k [] (split "\n" text)
