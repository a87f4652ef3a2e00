-- ===== src/Discovery/Report/Errors.antt =====
-- When `analyze` fails.
use schedcore.Prelude.{
  ◌≡◌, refl, String, Option, none, some, Bool, true, false, ◌||◌, not, List, [], ◌∷◌, arith, ◌==◌,
  string_eq, if◌then◌else◌,
}
use schedcore.Prelude.Split.{Unicode}
use schedcore.Prelude.Result.{Result, raise, ok, value_error, Exception, ◌>>=◌}
use schedcore.Prelude.Sorting.{any, any-sorted, str_lt}
use schedcore.Discovery.Files.{Folder, collect_source_files, walk, extensions}
use schedcore.Discovery.Calls.{Wrappers}
use schedcore.Discovery.Report.{
  Loaded, get_parser, learn, learn_strict, first_read, first_pass, analyze,
}

abbrev is_missing : Option String → Bool
is_missing none = true
is_missing (some text) = false

-- The file can be opened, and its bytes are not UTF-8.
abbrev pub undecodable : Option Loaded → Bool
undecodable none = false
undecodable (some file) = is_missing file.strict

abbrev pub raised {ℓ} : {A : Type ℓ} → Result A → Option Exception
raised (raise e) = some e
raised (ok a) = none

module _ (u : Unicode) (load : String → Option Loaded) where
  raised-learn_strict :
      (known : Wrappers) (strict : Option String) (next : Wrappers → Result Wrappers)
      (r : Option Exception)
      → ((learnt : Wrappers) → raised (next learnt) ≡ r)
      → raised (learn_strict u known strict >>= next)
        ≡ (if is_missing strict then some value_error else r)
  raised-learn_strict known none next r same = refl
  raised-learn_strict known (some text) next r same = same (learn u known text)

  raised-first_read :
      (known : Wrappers) (read : Option Loaded) (next : Wrappers → Result Wrappers)
      (r : Option Exception)
      → ((learnt : Wrappers) → raised (next learnt) ≡ r)
      → raised (first_read u known read >>= next)
        ≡ (if undecodable read then some value_error else r)
  raised-first_read known none next r same = same known
  raised-first_read known (some file) next r same =
      raised-learn_strict known file.strict next r same

  raised-first_pass :
      (known : Wrappers) (files : List String)
      → raised (first_pass u load known files)
        ≡ (if any (λ p. undecodable (load p)) files then some value_error else none)
  unfolding first_pass
  raised-first_pass known [] = refl
  raised-first_pass known (p ∷ files) = ground (
    arith,
    raised-first_read known (load p) (λ learnt. first_pass u load learnt files)
        (if any (λ q. undecodable (load q)) files then some value_error else none)
        (λ learnt. raised-first_pass learnt files),
  )

  -- `analyze` returns a report unless the language is neither `c` nor `cpp`, or some file that it
  -- collects can be opened and is not UTF-8; then it raises `ValueError`.
  pub raised-analyze :
      (relpath : String → String) (language source : String) (dir : Folder)
      → raised (analyze u load relpath language source dir) ≡ (
          if not (language == "c" || language == "cpp")
            || any (λ p. undecodable (load p)) (walk (extensions language) source dir)
          then some value_error
          else none)
  unfolding analyze get_parser collect_source_files
  raised-analyze relpath language source dir = ground (
    arith,
    raised-first_pass (record { macro_wrappers = []; proc_title_setters = [] })
        (collect_source_files source dir language),
    any-sorted (λ p. undecodable (load p)) str_lt (walk (extensions language) source dir),
  )
