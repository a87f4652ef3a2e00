-- ===== src/Discovery/Report.antt =====
-- pipeline/stage1a_static_analysis.py: `analyze_file` and `analyze`. The parameters are what
-- `open` and tree-sitter give for a path, and `os.path.relpath` from the source path.
pub mod Places
pub mod Errors
pub mod Learning
pub mod Complete
use schedcore.Prelude.{
  ℕ, suc, ◌+◌, String, Option, none, some, Bool, true, false, not, ◌&&◌, List, [], ◌∷◌, ◌++◌, ◌==◌,
  string_eq, nat_eq, pair_eq, contains, is_empty, if◌then◌else◌,
}
use schedcore.Prelude.Split.{Unicode, split}
use schedcore.Prelude.Result.{Result, raise, ok, value_error, exit_one, ◌>>=◌}
use schedcore.Prelude.Dict.{Dict, insert}
use schedcore.Discovery.Files.{Folder, collect_source_files}
use schedcore.Discovery.Entry.{
  ThreadName, ThreadCreate, Place, place_of_name, place_of_create, places,
}
use schedcore.Discovery.Macros.{find_macro_wrappers}
use schedcore.Discovery.Setters.{find_proc_title_setters}
use schedcore.Discovery.Names.{regex_find_thread_names}
use schedcore.Discovery.Calls.{
  Tree, find_call_expressions, Findings, Wrappers, analyze_calls, analyze_declarations,
}

-- A file that can be opened: the text of the strict reading, `none` if its bytes are not UTF-8;
-- the text with replacement characters; and the syntax tree.
pub record Loaded : Type 0 where
  pub strict : Option String
  pub source_text : String
  pub tree : Tree

-- `d.update(e)`
unfoldable pub updated : Dict String String → Dict String String → Dict String String
unfolding insert
updated d [] = d
updated d ((k, v) ∷ e) = updated (insert k v d) e

module _ {ℓ} {A : Type ℓ} (place : A → Place) where
  -- The loop that keeps the first entry of a place; `seen` has the places so far.
  unfoldable pub deduped : List Place → List A → List A
  deduped seen [] = []
  deduped seen (entry ∷ entries) =
      let skipped = deduped seen entries in
      let kept = entry ∷ deduped (place entry ∷ seen) entries in
      if contains seen (place entry) then skipped else kept

-- The entries of the fallback whose place has no entry of tree-sitter.
unfoldable pub missed : List Place → List ThreadName → List ThreadName
missed ts_lines [] = []
missed ts_lines (entry ∷ entries) =
    let rest = missed ts_lines entries in
    if contains ts_lines (place_of_name entry) then rest else entry ∷ rest

abbrev pub no_findings : Findings
no_findings = record { names = []; creates = [] }

-- What `analyze_file` returns, and the two dicts that it updates.
pub record Analyzed : Type 0 where
  pub findings : Findings
  pub known : Wrappers

-- The source path and the language, which the report also names, are the arguments of `analyze`.
pub record Report : Type 0 where
  pub files_analyzed : ℕ
  pub files_with_findings : ℕ
  pub known : Wrappers
  pub thread_names : List ThreadName
  pub thread_creates : List ThreadCreate

-- The second pass keeps all entries; the lists of the report are those of all files so far.
abbrev pub add_file : Report → Analyzed → Report
add_file r a = record {
  files_analyzed = suc r.files_analyzed;
  files_with_findings =
      if is_empty a.findings.names && is_empty a.findings.creates
      then r.files_with_findings
      else suc r.files_with_findings;
  known = a.known;
  thread_names = r.thread_names ++ a.findings.names;
  thread_creates = r.thread_creates ++ a.findings.creates;
}

abbrev pub no_report : Wrappers → Report
no_report known = record {
  files_analyzed = 0;
  files_with_findings = 0;
  known = known;
  thread_names = [];
  thread_creates = [];
}

unfoldable pub deduplicate : Report → Report
unfolding deduped
deduplicate r = record r {
  thread_names = deduped place_of_name [] r.thread_names;
  thread_creates = deduped place_of_create [] r.thread_creates;
}

-- `get_parser`
unfoldable pub get_parser : String → Result {0} Unit
get_parser language =
    if language == "c" then ok tt else if language == "cpp" then ok tt else raise value_error

module _ (u : Unicode) where
  unfoldable pub learn : Wrappers → String → Wrappers
  unfolding updated find_macro_wrappers find_proc_title_setters split
  learn known text = record {
    macro_wrappers = updated known.macro_wrappers (find_macro_wrappers u text);
    proc_title_setters =
        updated known.proc_title_setters (find_proc_title_setters u (split "\n" text));
  }

  -- The findings of tree-sitter: the calls, and the declarations of a C++ file.
  unfoldable pub tree_findings : String → String → Wrappers → Loaded → Findings
  unfolding analyze_calls analyze_declarations find_call_expressions split
  tree_findings language rel_path known file =
      let source_lines = split "\n" file.source_text in
      let calls =
        analyze_calls u rel_path source_lines known no_findings
          (find_call_expressions file.tree language) in
      if language == "cpp"
      then analyze_declarations u rel_path source_lines calls file.tree.declarations
      else calls

  unfoldable pub with_missed : String → Wrappers → Loaded → Findings → Findings
  unfolding missed places regex_find_thread_names split
  with_missed rel_path known file f = record f {
    names =
        f.names
        ++ missed (places place_of_name f.names) (
            regex_find_thread_names u file.source_text (split "\n" file.source_text) rel_path
              known.macro_wrappers);
  }

  abbrev pub learn_strict : Wrappers → Option String → Result Wrappers
  learn_strict known none = raise value_error
  learn_strict known (some text) = ok (learn known text)

  -- One file of the first pass: the error of a file that is not UTF-8 is no `OSError`.
  abbrev pub first_read : Wrappers → Option Loaded → Result Wrappers
  first_read known none = ok known
  first_read known (some file) = learn_strict known file.strict

  module _ (load : String → Option Loaded) where
    unfoldable pub first_pass : Wrappers → List String → Result Wrappers
    unfolding learn
    first_pass known [] = ok known
    first_pass known (filepath ∷ files) =
        first_read known (load filepath) >>= λ learnt. first_pass learnt files

  module _ (load : String → Option Loaded) (relpath : String → String) (language : String) where
    abbrev analyze_loaded : String → Wrappers → Option Loaded → Analyzed
    analyze_loaded rel_path known none = record { findings = no_findings; known = known }
    analyze_loaded rel_path known (some file) =
        let known = learn known file.source_text in
        record {
          findings = with_missed rel_path known file (tree_findings language rel_path known file);
          known = known;
        }

    unfoldable pub analyze_file : String → Wrappers → Analyzed
    unfolding learn with_missed tree_findings
    analyze_file filepath known = analyze_loaded (relpath filepath) known (load filepath)

    unfoldable pub second_pass : Report → List String → Report
    unfolding analyze_file
    second_pass r [] = r
    second_pass r (filepath ∷ files) =
        second_pass (add_file r (analyze_file filepath r.known)) files

    unfoldable pub analyze : String → Folder → Result Report
    unfolding collect_source_files first_pass second_pass deduplicate get_parser
    analyze source dir = get_parser language >>= λ parser.
        let files = collect_source_files source dir language in
        first_pass load (record { macro_wrappers = []; proc_title_setters = [] }) files >>= λ known.
        ok (deduplicate (second_pass (no_report known) files))

    -- `main`: `is_dir` says whether the source path is a directory.
    unfoldable pub main : Bool → String → Folder → Result Report
    unfolding analyze
    main is_dir source dir = if is_dir then analyze source dir else raise exit_one
