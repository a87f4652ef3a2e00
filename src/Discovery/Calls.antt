-- ===== src/Discovery/Calls.antt =====
-- pipeline/stage1a_static_analysis.py: `find_call_expressions`, and what `analyze_file` does with a
-- call and a declaration. The matches of a query are those of tree-sitter, with the first node of
-- each capture.
pub mod Growing
pub mod Naming
use schedcore.Prelude.{
  ℕ, suc, ◌+◌, String, ◌<>◌, Option, none, some, Bool, true, false, not, ◌&&◌, ◌||◌, List, [], ◌∷◌,
  ◌++◌, ◌==◌, string_eq, contains, if◌then◌else◌, Option-cases,
}
use schedcore.Prelude.Split.{Unicode, has_part, ends_with, split, last_or, lower}
use schedcore.Prelude.Dict.{Dict, lookup}
use schedcore.Prelude.Sorting.{any}
use schedcore.Discovery.Entry.{
  Node, ThreadName, ThreadCreate, get_context_snippet, extract_string_literal, analyze_args,
  is_string_literal, extract_arg_text,
}

pub data CallType : Type 0 where
  call qualified_call method_call : CallType

-- `func_node`, and the children of `args_node`
pub record Captured : Type 0 where
  pub func : Node
  pub children : List Node

-- The query for declarations captures the type and the parameters.
pub record Tree : Type 0 where
  pub matches : CallType → List Captured
  pub declarations : List Captured

pub record Call : Type 0 where
  pub call_type : CallType
  pub func : Node
  pub children : List Node

unfoldable pub calls_of : CallType → List Captured → List Call
calls_of kind [] = []
calls_of kind (c ∷ cs) =
    record { call_type = kind; func = c.func; children = c.children } ∷ calls_of kind cs

unfoldable pub find_call_expressions : Tree → String → List Call
unfolding calls_of
find_call_expressions tree language =
    calls_of call (tree.matches call)
    ++ (if language == "cpp"
        then calls_of qualified_call (tree.matches qualified_call)
          ++ calls_of method_call (tree.matches method_call)
        else [])

-- `thread_names` and `thread_creates`
pub record Findings : Type 0 where
  pub names : List ThreadName
  pub creates : List ThreadCreate

abbrev pub add_name : ThreadName → Findings → Findings
add_name entry f = record f { names = f.names ++ entry ∷ [] }

abbrev pub add_create : ThreadCreate → Findings → Findings
add_create entry f = record f { creates = f.creates ++ entry ∷ [] }

-- What the two dicts know about a function.
pub record Wrappers : Type 0 where
  pub macro_wrappers : Dict String String
  pub proc_title_setters : Dict String String

-- `args[1] if len(args) >= 2 else (args[0] if args else None)`
abbrev pub setname_argument : List Node → Option Node
setname_argument [] = none
setname_argument (a ∷ []) = some a
setname_argument (a ∷ (b ∷ rest)) = some b

abbrev pub start_routine_of : List Node → String
start_routine_of [] = "unknown"
start_routine_of (a ∷ rest) = extract_arg_text a

abbrev pub method_of : String → String
method_of func_name = if has_part "." func_name then last_or "" (split "." func_name) else func_name

abbrev pub is_setname : String → Bool
is_setname func_name =
    func_name == "pthread_setname_np" || ends_with func_name "::pthread_setname_np"

module _ (u : Unicode) where
  -- `parts[-1].lower()` is one of the two class names
  abbrev pub is_thread_class : String → Bool
  is_thread_class name =
      contains ("thread" ∷ "jthread" ∷ []) (lower u (last_or "" (split "::" name)))

  abbrev pub suggests_thread : String → Bool
  suggests_thread start_routine =
      any (λ kw. has_part kw (lower u start_routine))
        ("thread" ∷ "worker" ∷ "bg" ∷ "background" ∷ "handler" ∷ "routine" ∷ "task" ∷ "run" ∷ [])

module _ (u : Unicode) (rel_path : String) (source_lines : List String) where
  unfoldable pub name_entry : String → ℕ → Node → ThreadName
  unfolding extract_arg_text is_string_literal extract_string_literal get_context_snippet
  name_entry function line name_arg = record {
    file = rel_path;
    line = line;
    function = function;
    name_arg = extract_arg_text name_arg;
    constant_value =
        if is_string_literal name_arg then some (extract_string_literal name_arg) else none;
    is_constant = is_string_literal name_arg;
    context_snippet = get_context_snippet source_lines line;
  }

  unfoldable pub create_entry : String → ℕ → String → ThreadCreate
  unfolding get_context_snippet
  create_entry method line start_routine = record {
    file = rel_path;
    line = line;
    method = method;
    start_routine = start_routine;
    context_snippet = get_context_snippet source_lines line;
  }

  abbrev pub analyze_setname : ℕ → Option Node → Findings → Findings
  analyze_setname line none f = f
  analyze_setname line (some name_arg) f =
      add_name (name_entry "pthread_setname_np" line name_arg) f

  abbrev pub analyze_prctl : ℕ → List Node → Findings → Findings
  analyze_prctl line (first_arg ∷ (name_arg ∷ rest)) f =
      if has_part "PR_SET_NAME" first_arg.text
      then add_name (name_entry "prctl(PR_SET_NAME)" line name_arg) f
      else f
  analyze_prctl line (first_arg ∷ []) f = f
  analyze_prctl line [] f = f

  abbrev pub analyze_macro : String → String → ℕ → List Node → Findings → Findings
  analyze_macro func_name underlying line [] f = f
  analyze_macro func_name underlying line (name_arg ∷ rest) f =
      add_name (name_entry (func_name <> (" (macro for " <> (underlying <> ")"))) line name_arg) f

  abbrev pub analyze_setter : String → ℕ → List Node → Findings → Findings
  analyze_setter func_name line [] f = f
  analyze_setter func_name line (name_arg ∷ rest) f =
      let text = extract_arg_text name_arg in
      if text == "NULL" || text == "0"
      then f
      else add_name (name_entry (func_name <> " (sets process title)") line name_arg) f

  abbrev pub analyze_create : ℕ → List Node → Findings → Findings
  analyze_create line (thread ∷ (attr ∷ (start_routine ∷ rest))) f =
      add_create (create_entry "pthread_create" line (extract_arg_text start_routine)) f
  analyze_create line (thread ∷ (attr ∷ [])) f = f
  analyze_create line (thread ∷ []) f = f
  analyze_create line [] f = f

  abbrev pub analyze_qualified : String → ℕ → List Node → Findings → Findings
  analyze_qualified func_name line args f =
      if is_thread_class u func_name
      then add_create (create_entry func_name line (start_routine_of args)) f
      else f

  abbrev pub analyze_method : String → ℕ → List Node → Findings → Findings
  analyze_method func_name line [] f = f
  analyze_method func_name line (a ∷ rest) f =
      if contains ("emplace_back" ∷ "push_back" ∷ []) (method_of func_name)
      then if a.type == "identifier" && suggests_thread u (extract_arg_text a)
        then add_create (create_entry func_name line (extract_arg_text a)) f
        else f
      else f

  -- The last two tests, on the kind of the call.
  abbrev pub analyze_kind : CallType → String → ℕ → List Node → Findings → Findings
  analyze_kind qualified_call = analyze_qualified
  analyze_kind method_call = analyze_method
  analyze_kind call = λ func_name line args f. f

  -- The chain of tests; a dict that has the function gives its value.
  abbrev pub analyze_named :
      CallType → String → Option String → Option String → ℕ → List Node → Findings → Findings
  analyze_named kind func_name macro setter line args f =
      if is_setname func_name
      then analyze_setname line (setname_argument args) f
      else if func_name == "prctl"
      then analyze_prctl line args f
      else elim macro [
        | some underlying ↦ analyze_macro func_name underlying line args f
        | none ↦ elim setter [
          | some title ↦ analyze_setter func_name line args f
          | none ↦
              if func_name == "pthread_create"
              then analyze_create line args f
              else analyze_kind kind func_name line args f
        ]
      ]

  unfoldable pub analyze_call : Wrappers → Findings → Call → Findings
  unfolding name_entry create_entry analyze_args lookup has_part ends_with split extract_arg_text
  analyze_call known f c =
      analyze_named c.call_type c.func.text (lookup c.func.text known.macro_wrappers)
        (lookup c.func.text known.proc_title_setters) (c.func.row + 1) (analyze_args c.children) f

  unfoldable pub analyze_calls : Wrappers → Findings → List Call → Findings
  unfolding analyze_call
  analyze_calls known f [] = f
  analyze_calls known f (c ∷ cs) = analyze_calls known (analyze_call known f c) cs

  unfoldable pub analyze_declaration : Findings → Captured → Findings
  unfolding create_entry analyze_args extract_arg_text split lower
  analyze_declaration f c =
      if is_thread_class u c.func.text
      then add_create
          (create_entry (c.func.text <> " (declaration)") (c.func.row + 1)
            (start_routine_of (analyze_args c.children)))
          f
      else f

  unfoldable pub analyze_declarations : Findings → List Captured → Findings
  unfolding analyze_declaration
  analyze_declarations f [] = f
  analyze_declarations f (c ∷ cs) = analyze_declarations (analyze_declaration f c) cs
