-- ===== src/Discovery/Calls/Growing.antt =====
-- The findings of a file only grow.
use schedcore.Prelude.{
  ◌≡◌, refl, ℕ, ◌+◌, String, Option, none, some, Bool, true, false, ◌||◌, List, [], ◌∷◌, ◌++◌,
  arith, string_eq, nat_eq, pair_eq, contains, if◌then◌else◌,
}
use schedcore.Prelude.Split.{Unicode}
use schedcore.Prelude.Dict.{lookup}
use schedcore.Discovery.Entry.{
  Node, ThreadName, ThreadCreate, analyze_args, Place, place_of_name, place_of_create, places,
}
use schedcore.Discovery.Calls.{
  Call, CallType, call, qualified_call, method_call, Captured, Findings, Wrappers, add_name,
  add_create, analyze_setname, analyze_prctl, analyze_macro, analyze_setter, analyze_create,
  analyze_kind, analyze_named, analyze_call, analyze_calls, analyze_declaration,
  analyze_declarations,
}

module _ {ℓ} {A : Type ℓ} (place : A → Place) where
  pub contains-places-append :
      (entries others : List A) (p : Place)
      → contains (places place (entries ++ others)) p
        ≡ (contains (places place entries) p || contains (places place others) p)
  unfolding places
  contains-places-append [] others p = refl
  contains-places-append (entry ∷ entries) others p =
      ground (arith, contains-places-append entries others p)

-- All places of the first findings are places of the second ones.
pub record Grows (f g : Findings) : Type 0 where
  pub names :
      (p : Place)
      → contains (places place_of_name f.names) p ≡ true
      → contains (places place_of_name g.names) p ≡ true
  pub creates :
      (p : Place)
      → contains (places place_of_create f.creates) p ≡ true
      → contains (places place_of_create g.creates) p ≡ true

pub Grows-refl : (f : Findings) → Grows f f
Grows-refl f = record { names = λ p h. h; creates = λ p h. h }

pub Grows-trans : (f g h : Findings) → Grows f g → Grows g h → Grows f h
Grows-trans f g h a b = record {
  names = λ p known. b.names p (a.names p known);
  creates = λ p known. b.creates p (a.creates p known);
}

pub Grows-if : (b : Bool) (f g h : Findings) → Grows f g → Grows f h → Grows f (if b then g else h)
Grows-if true f g h x y = x
Grows-if false f g h x y = y

pub add_name-Grows : (entry : ThreadName) (f : Findings) → Grows f (add_name entry f)
add_name-Grows entry f = record {
  names = λ p h. ground (arith, contains-places-append place_of_name f.names (entry ∷ []) p);
  creates = λ p h. h;
}

pub add_create-Grows : (entry : ThreadCreate) (f : Findings) → Grows f (add_create entry f)
add_create-Grows entry f = record {
  names = λ p h. h;
  creates = λ p h. ground (arith, contains-places-append place_of_create f.creates (entry ∷ []) p);
}

pub ruleset growing = (Grows-refl, Grows-if, add_name-Grows, add_create-Grows)

module _ (u : Unicode) (rel_path : String) (source_lines : List String) where
  analyze_setname-Grows :
      (line : ℕ) (arg : Option Node) (f : Findings)
      → Grows f (analyze_setname u rel_path source_lines line arg f)
  analyze_setname-Grows line none f = search growing
  analyze_setname-Grows line (some a) f = search growing

  analyze_prctl-Grows :
      (line : ℕ) (args : List Node) (f : Findings)
      → Grows f (analyze_prctl u rel_path source_lines line args f)
  analyze_prctl-Grows line [] f = search growing
  analyze_prctl-Grows line (a ∷ []) f = search growing
  analyze_prctl-Grows line (a ∷ (b ∷ rest)) f = search growing

  analyze_macro-Grows :
      (name underlying : String) (line : ℕ) (args : List Node) (f : Findings)
      → Grows f (analyze_macro u rel_path source_lines name underlying line args f)
  analyze_macro-Grows name underlying line [] f = search growing
  analyze_macro-Grows name underlying line (a ∷ rest) f = search growing

  analyze_setter-Grows :
      (name : String) (line : ℕ) (args : List Node) (f : Findings)
      → Grows f (analyze_setter u rel_path source_lines name line args f)
  analyze_setter-Grows name line [] f = search growing
  analyze_setter-Grows name line (a ∷ rest) f = search growing

  analyze_create-Grows :
      (line : ℕ) (args : List Node) (f : Findings)
      → Grows f (analyze_create u rel_path source_lines line args f)
  analyze_create-Grows line [] f = search growing
  analyze_create-Grows line (a ∷ []) f = search growing
  analyze_create-Grows line (a ∷ (b ∷ [])) f = search growing
  analyze_create-Grows line (a ∷ (b ∷ (c ∷ rest))) f = search growing

  analyze_kind-Grows :
      (kind : CallType) (name : String) (line : ℕ) (args : List Node) (f : Findings)
      → Grows f (analyze_kind u rel_path source_lines kind name line args f)
  analyze_kind-Grows call name line args f = search growing
  analyze_kind-Grows qualified_call name line args f = search growing
  analyze_kind-Grows method_call name line [] f = search growing
  analyze_kind-Grows method_call name line (a ∷ rest) f = search growing

  ruleset branches = (
    growing, analyze_setname-Grows, analyze_prctl-Grows, analyze_macro-Grows, analyze_setter-Grows,
    analyze_create-Grows, analyze_kind-Grows,
  )

  pub analyze_named-Grows :
      (kind : CallType) (name : String) (macro setter : Option String) (line : ℕ) (args : List Node)
      (f : Findings)
      → Grows f (analyze_named u rel_path source_lines kind name macro setter line args f)
  analyze_named-Grows kind name (some m) setter line args f = search branches
  analyze_named-Grows kind name none (some s) line args f = search branches
  analyze_named-Grows kind name none none line args f = search branches

  pub analyze_calls-Grows :
      (known : Wrappers) (f : Findings) (cs : List Call)
      → Grows f (analyze_calls u rel_path source_lines known f cs)
  unfolding analyze_calls analyze_call
  analyze_calls-Grows known f [] = Grows-refl f
  analyze_calls-Grows known f (c ∷ cs) =
      Grows-trans f (analyze_call u rel_path source_lines known f c)
        (analyze_calls u rel_path source_lines known
          (analyze_call u rel_path source_lines known f c) cs)
        (analyze_named-Grows c.call_type c.func.text (lookup c.func.text known.macro_wrappers)
          (lookup c.func.text known.proc_title_setters) (c.func.row + 1) (analyze_args c.children)
          f)
        (analyze_calls-Grows known (analyze_call u rel_path source_lines known f c) cs)

  pub analyze_declarations-Grows :
      (f : Findings) (cs : List Captured)
      → Grows f (analyze_declarations u rel_path source_lines f cs)
  unfolding analyze_declarations analyze_declaration
  analyze_declarations-Grows f [] = Grows-refl f
  analyze_declarations-Grows f (c ∷ cs) =
      Grows-trans f (analyze_declaration u rel_path source_lines f c)
        (analyze_declarations u rel_path source_lines
          (analyze_declaration u rel_path source_lines f c) cs)
        (search growing)
        (analyze_declarations-Grows (analyze_declaration u rel_path source_lines f c) cs)
