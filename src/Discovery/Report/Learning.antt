-- ===== src/Discovery/Report/Learning.antt =====
-- The macros that the first pass learns.
use schedcore.Prelude.{
  ◌≡◌, sym, String, Option, none, some, Bool, true, ◌||◌, List, [], ◌∷◌, arith, string_eq, nat_eq,
  pair_eq,
}
use schedcore.Prelude.Split.{Unicode}
use schedcore.Prelude.Result.{ok, >>=-eq-ok, ok-injective}
use schedcore.Prelude.Sorting.{any}
use schedcore.Prelude.Dict.{Dict, insert, has_key, has_key-insert, keys}
use schedcore.Discovery.Macros.{find_macro_wrappers}
use schedcore.Discovery.Calls.{Wrappers}
use schedcore.Discovery.Report.{Loaded, updated, learn, learn_strict, first_read, first_pass}

has_key-updated :
    (k : String) (d e : Dict String String) → has_key k (updated d e) ≡ (has_key k d || has_key k e)
unfolding updated has_key keys
has_key-updated k d [] = ground arith
has_key-updated k d ((j, v) ∷ e) =
    ground (arith, has_key-updated k (insert j v d) e, has_key-insert k j v d)

module _ (u : Unicode) where
  -- The file can be opened, is UTF-8, and defines the macro.
  abbrev strict_macros : Option String → Dict String String
  strict_macros none = []
  strict_macros (some text) = find_macro_wrappers u text

  abbrev macros_of : Option Loaded → Dict String String
  macros_of none = []
  macros_of (some file) = strict_macros file.strict

  abbrev pub defines : String → Option Loaded → Bool
  defines name read = has_key name (macros_of read)

  learn_strict-macros :
      (known learnt : Wrappers) (strict : Option String) (k : String)
      → learn_strict u known strict ≡ ok learnt
      → has_key k learnt.macro_wrappers
        ≡ (has_key k known.macro_wrappers || has_key k (strict_macros strict))
  unfolding learn
  learn_strict-macros known learnt none k h = cc
  learn_strict-macros known learnt (some text) k h =
      rw (sym (ok-injective (learn u known text) learnt h))
        (has_key-updated k known.macro_wrappers (find_macro_wrappers u text))

  first_read-macros :
      (known learnt : Wrappers) (read : Option Loaded) (k : String)
      → first_read u known read ≡ ok learnt
      → has_key k learnt.macro_wrappers ≡ (has_key k known.macro_wrappers || defines k read)
  unfolding has_key keys
  first_read-macros known learnt none k h = rw (sym (ok-injective known learnt h)) (ground arith)
  first_read-macros known learnt (some file) k h = learn_strict-macros known learnt file.strict k h

  pub first_pass-macros :
      (load : String → Option Loaded) (known learnt : Wrappers) (files : List String) (k : String)
      → first_pass u load known files ≡ ok learnt
      → has_key k learnt.macro_wrappers
        ≡ (has_key k known.macro_wrappers || any (λ q. defines k (load q)) files)
  unfolding first_pass
  first_pass-macros load known learnt [] k h = rw (sym (ok-injective known learnt h)) (ground arith)
  first_pass-macros load known learnt (q ∷ files) k h =
      let (mid, first, others) =
        >>=-eq-ok (first_read u known (load q)) (λ l. first_pass u load l files) h in
      ground (
        arith,
        first_pass-macros load mid learnt files k others,
        first_read-macros known mid (load q) k first,
      )

  -- A dict that is updated keeps its keys.
  pub learn-keeps :
      (known : Wrappers) (text k : String)
      → has_key k known.macro_wrappers ≡ true
      → has_key k (learn u known text).macro_wrappers ≡ true
  unfolding learn
  learn-keeps known text k h =
      ground (arith, has_key-updated k known.macro_wrappers (find_macro_wrappers u text))
