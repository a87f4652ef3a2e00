-- ===== src/Tests/Discovering.antt =====
-- stage1a_static_analysis.py at concrete inputs.
use schedcore.Prelude.{
  ◌↔◌, contains, nat_eq, pair_eq, ℕ, String, Option, none, some, true, List, [], ◌∷◌, ◌≡◌, refl,
  ◌==◌, char_eq, string_eq, if◌then◌else◌,
}
use schedcore.Prelude.Split.{split}
use schedcore.Prelude.Result.{Result, ok, raise, value_error}
use schedcore.Prelude.Sorting.{sorted}
use schedcore.Tests.Data.{ascii}
use schedcore.Discovery.Files.{
  source_paths, Folder, folder, no_folders, and_folder, extensions, walk, collect_source_files,
}
use schedcore.Discovery.Entry.{
  Node, ThreadName, ThreadCreate, places, place_of_name, extract_string_literal,
}
use schedcore.Discovery.Macros.{find_macro_wrappers}
use schedcore.Discovery.Macros.Wrapped.{last_wrapped, lookup-find_macro_wrappers}
use schedcore.Discovery.Setters.Bodies.{Sets}
use schedcore.Discovery.Setters.Titles.{find_proc_title_setters_iff}
use schedcore.Discovery.Names.Quoted.{in_quotes-read}
use schedcore.Prelude.Dict.{lookup}
use schedcore.Discovery.Setters.{find_proc_title_setters}
use schedcore.Discovery.Names.{constant_of, regex_find_thread_names}
use schedcore.Discovery.Calls.{call, qualified_call, method_call, Call, Tree}
use schedcore.Discovery.Report.{Loaded, Report, no_report, analyze}
use schedcore.Discovery.Report.Complete.{analyze_complete}
use schedcore.Discovery.Report.Errors.{raised, raised-analyze}
use schedcore.Prelude.Text.{starts_with}
use schedcore.Prelude.Regex.{match_at}
use schedcore.Prelude.Dict.{has_key}

abbrev tree : Folder
tree = folder ("bio.c" ∷ "README" ∷ []) (
    and_folder "docs" (folder ("x.c" ∷ []) no_folders)
      (and_folder "src" (folder ("a.h" ∷ ".c" ∷ []) no_folders) no_folders))

abbrev leaf : String → String → ℕ → Node
leaf type text row = record { type = type; text = text; row = row }

abbrev source : String
source =
    "#define set_title(n) pthread_setname_np(pthread_self(), n)\nvoid f() { setproctitle(1); }\nint g() {\n  pthread_setname_np(self, \"bio\");\n  set_title(\"aof\") ;\n}"

collect_source_files_runs : collect_source_files "/s" tree "c" ≡ "/s/bio.c" ∷ "/s/src/a.h" ∷ []
unfolding collect_source_files sorted source_paths string_eq char_eq
collect_source_files_runs = refl

find_macro_wrappers_runs :
    find_macro_wrappers ascii source ≡ ("set_title", "pthread_setname_np") ∷ []
unfolding find_macro_wrappers char_eq string_eq
find_macro_wrappers_runs = refl

find_proc_title_setters_runs :
    find_proc_title_setters ascii (split "\n" source) ≡ ("f", "setproctitle") ∷ []
unfolding find_proc_title_setters split starts_with char_eq string_eq match_at nat_eq
find_proc_title_setters_runs = refl

-- A body that opens on the next line is not seen.
find_proc_title_setters_next_line :
    find_proc_title_setters ascii ("void f(void)" ∷ "{" ∷ "  setproctitle(1);" ∷ "}" ∷ []) ≡ []
unfolding find_proc_title_setters starts_with char_eq string_eq match_at nat_eq
find_proc_title_setters_next_line = refl

abbrev place_and_value : List ThreadName → List (ℕ × (String × Option String))
place_and_value [] = []
place_and_value (e ∷ es) = (e.line, (e.function, e.constant_value)) ∷ place_and_value es

regex_find_thread_names_runs :
    place_and_value (
      regex_find_thread_names ascii source
        (split "\n" source)
        "s.c"
        (("set_title", "pthread_setname_np") ∷ []))
    ≡ (4, ("pthread_setname_np", some "bio"))
      ∷ (5, ("set_title (macro for pthread_setname_np)", some "aof"))
      ∷ []
unfolding regex_find_thread_names split char_eq string_eq
regex_find_thread_names_runs = refl

-- bio.c calls the macro that a.h defines.
abbrev macro_call : Call
macro_call = record {
  call_type = call;
  func = leaf "identifier" "set_title" 6;
  children = leaf "(" "(" 6 ∷ leaf "string_literal" "\"bio\"" 6 ∷ leaf ")" ")" 6 ∷ [];
}

abbrev calls_in : List Call → Tree
calls_in [] = record { matches = λ kind. []; declarations = [] }
calls_in (c ∷ cs) = record {
  matches = λ kind. elim kind [
    | call ↦ record { func = c.func; children = c.children } ∷ []
    | qualified_call ↦ []
    | method_call ↦ []
  ];
  declarations = [];
}

abbrev bio : Loaded
bio = record {
  strict = some "set_title(\"bio\")";
  source_text = "set_title(\"bio\")";
  tree = calls_in (macro_call ∷ []);
}

abbrev header : Loaded
header = record {
  strict = some "#define set_title(n) pthread_setname_np(self, n)";
  source_text = "#define set_title(n) pthread_setname_np(self, n)";
  tree = calls_in [];
}

-- the header is not UTF-8
abbrev latin : Loaded
latin = record header { strict = none }

abbrev load : String → Option Loaded
load path =
    if path == "/s/bio.c" then some bio else if path == "/s/src/a.h" then some header else none

abbrev load_latin : String → Option Loaded
load_latin path = if path == "/s/src/a.h" then some latin else none

abbrev report : Result Report
unfolding analyze
report = analyze ascii load (λ path. path) "c" "/s" tree

abbrev report_of : Result Report → Report
report_of (ok r) = r
report_of (raise e) = no_report (record { macro_wrappers = []; proc_title_setters = [] })

analyze_complete_example :
    contains (places place_of_name (report_of report).thread_names) ("/s/bio.c", 7) ≡ true
unfolding analyze report string_eq sorted source_paths char_eq has_key
analyze_complete_example =
    analyze_complete ascii load (λ path. path) "c" "/s" tree (report_of report) "/s/bio.c" bio 0
      macro_call refl refl refl refl refl

raised-analyze_example :
    raised (analyze ascii load_latin (λ path. path) "c" "/s" tree) ≡ some value_error
unfolding walk string_eq source_paths extensions char_eq
raised-analyze_example = raised-analyze ascii load_latin (λ path. path) "c" "/s" tree

abbrev create_at : ℕ → ThreadCreate
create_at line = record {
  file = "a.c";
  line = line;
  method = "pthread_create";
  start_routine = "run";
  context_snippet = "";
}

abbrev doubled : Report
doubled = record {
  files_analyzed = 1;
  files_with_findings = 1;
  known = record { macro_wrappers = []; proc_title_setters = [] };
  thread_names = [];
  thread_creates = create_at 3 ∷ create_at 4 ∷ create_at 3 ∷ [];
}

in_quotes-read_example :
    (constant_of "\"bio_aof\"" ≡ some "bio_aof")
    × (extract_string_literal (leaf "string_literal" "\"bio_aof\"" 7) ≡ "bio_aof")
unfolding char_eq
in_quotes-read_example = in_quotes-read "bio_aof" "string_literal" 7 refl

abbrev setter : String
setter = "f"

find_proc_title_setters_iff_example :
    (has_key setter (find_proc_title_setters ascii (split "\n" source)) ≡ true)
    ↔ Sets ascii 0 0 setter (split "\n" source)
find_proc_title_setters_iff_example = find_proc_title_setters_iff ascii (split "\n" source) setter

lookup-find_macro_wrappers_example :
    lookup "set_title" (find_macro_wrappers ascii source)
    ≡ last_wrapped ascii "set_title" none (split "\n" source)
lookup-find_macro_wrappers_example = lookup-find_macro_wrappers ascii source "set_title"
