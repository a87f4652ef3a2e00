-- ===== src/Discovery/Calls/Naming.antt =====
-- Which calls give an entry.
use schedcore.Prelude.{
  ◌≡◌, ℕ, zero, suc, ◌+◌, String, ◌<>◌, Option, none, some, some, Bool, true, false, ◌&&◌, not,
  List, [], ◌∷◌, arith, ◌==◌, string_eq, nat_eq, pair_eq, contains, is_empty, get_elem?, is_some,
  some-injective, if◌then◌else◌,
}
use mathlib.Core.Path.{subst}
use schedcore.Prelude.Split.{Unicode, has_part}
use schedcore.Prelude.Dict.{lookup, has_key, has_key-is_some}
use schedcore.Discovery.Entry.{Node, ThreadName, analyze_args, place_of_name, places}
use schedcore.Discovery.Calls.{
  Call, CallType, Findings, Wrappers, add_name, is_setname, name_entry, analyze_named, analyze_call,
  analyze_calls,
}
use schedcore.Discovery.Calls.Growing.{contains-places-append, analyze_calls-Grows}

-- `prctl(PR_SET_NAME, …)`
abbrev pub sets_name : List Node → Bool
sets_name [] = false
sets_name (a ∷ []) = false
sets_name (a ∷ (b ∷ rest)) = has_part "PR_SET_NAME" a.text

-- A call of the function with these arguments names a thread, if `is_macro` says of the other
-- functions whether they stand for one of the two.
abbrev pub names_thread : Bool → String → List Node → Bool
names_thread is_macro name args =
    if is_setname name
    then not (is_empty args)
    else if name == "prctl"
    then sets_name args
    else is_macro && not (is_empty args)

-- If the call names a thread, then its place has an entry in the findings.
abbrev pub Named : String → Wrappers → Findings → Call → Type 0
Named rel_path known found c =
    names_thread (has_key c.func.text known.macro_wrappers) c.func.text (analyze_args c.children)
      ≡ true
    → contains (places place_of_name found.names) (rel_path, c.func.row + 1) ≡ true

module _ (u : Unicode) (rel_path : String) (source_lines : List String) where
  abbrev names_after :
      CallType → String → Option String → Option String → ℕ → List Node → Findings → List ThreadName
  names_after kind name macro setter line args f =
      (analyze_named u rel_path source_lines kind name macro setter line args f).names

  add_name-place :
      (function : String) (line : ℕ) (a : Node) (f : Findings)
      → contains
          (places place_of_name
            (add_name (name_entry u rel_path source_lines function line a) f).names)
          (rel_path, line)
        ≡ true
  unfolding places name_entry
  add_name-place function line a f = ground (
    arith,
    contains-places-append place_of_name f.names
        (name_entry u rel_path source_lines function line a ∷ []) (rel_path, line),
  )

  analyze_named-names :
      (kind : CallType) (name : String) (macro setter : Option String) (line : ℕ) (args : List Node)
      (f : Findings)
      → names_thread (is_some macro) name args ≡ true
      → contains
          (places place_of_name (names_after kind name macro setter line args f))
          (rel_path, line)
        ≡ true
  analyze_named-names kind name macro setter line [] f h = ground arith
  analyze_named-names kind name none setter line (a ∷ []) f h =
      ground (arith, add_name-place "pthread_setname_np" line a f)
  analyze_named-names kind name (some m) setter line (a ∷ []) f h = ground (
    arith,
    add_name-place "pthread_setname_np" line a f,
    add_name-place (name <> (" (macro for " <> (m <> ")"))) line a f,
  )
  analyze_named-names kind name none setter line (a ∷ (b ∷ rest)) f h = ground (
    arith,
    add_name-place "pthread_setname_np" line b f,
    add_name-place "prctl(PR_SET_NAME)" line b f,
  )
  analyze_named-names kind name (some m) setter line (a ∷ (b ∷ rest)) f h = ground (
    arith,
    add_name-place "pthread_setname_np" line b f,
    add_name-place "prctl(PR_SET_NAME)" line b f,
    add_name-place (name <> (" (macro for " <> (m <> ")"))) line a f,
  )

  analyze_call-Named :
      (known : Wrappers) (f : Findings) (c : Call)
      → Named rel_path known (analyze_call u rel_path source_lines known f c) c
  unfolding analyze_call
  analyze_call-Named known f c h =
      analyze_named-names c.call_type c.func.text (lookup c.func.text known.macro_wrappers)
        (lookup c.func.text known.proc_title_setters) (c.func.row + 1) (analyze_args c.children) f
        (rw (has_key-is_some c.func.text known.macro_wrappers, h))

  -- A call that names a thread has an entry, whatever comes before and after it.
  pub analyze_calls-Named :
      (known : Wrappers) (f : Findings) (cs : List Call) (i : ℕ) (c : Call)
      → get_elem? cs i ≡ some c
      → Named rel_path known (analyze_calls u rel_path source_lines known f cs) c
  unfolding analyze_calls
  analyze_calls-Named known f [] i c at = cc
  analyze_calls-Named known f (c ∷ cs) zero d at =
      let g = analyze_call u rel_path source_lines known f c in
      subst (Named rel_path known (analyze_calls u rel_path source_lines known g cs))
        (some-injective c d at)
        (λ h.
          (analyze_calls-Grows u rel_path source_lines known g cs).names (rel_path, c.func.row + 1)
            (analyze_call-Named known f c h))
  analyze_calls-Named known f (c ∷ cs) (suc i) d at =
      analyze_calls-Named known (analyze_call u rel_path source_lines known f c) cs i d at
