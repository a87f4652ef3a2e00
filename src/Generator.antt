-- ===== src/Generator.antt =====
-- pipeline/stage3_generate_scheduler.py: what the generator reads from a manifest, and the C text
-- of the classification. The templates are in the modules below, by the meaning of their code.
pub mod Matching
pub mod Reading
pub mod Scx
pub mod DualDsq
pub mod Preemption
pub mod Asymmetric
use schedcore.Prelude.{
  ℕ, suc, String, Char, ◌<>◌, Option, none, some, Bool, true, false, List, [], ◌∷◌, ◌++◌, map,
  is_empty, ◌==◌, ◌||◌, contains, string_eq, char_eq, nat_eq, option_eq, pair_eq, if◌then◌else◌,
}
use schedcore.Prelude.Text.{count, take, join, show}
use schedcore.Prelude.Result.{Result, ok, raise, type_error, exit_one, ◌>>=◌}
use schedcore.Manifest.{Field, absent, null, value, Manifest, Thread, get_default, ident}

-- `(prefix, length, name_pattern)`; the length is `None` for a `null`.
pub record Prefix : Type 0 where
  pub prefix : String
  pub length : Option ℕ
  pub name_pattern : String

-- `ident.get("comm_prefix", "")`, which the next line hands to `len`
abbrev pub prefix_of : Field String → Result String
prefix_of absent = ok ""
prefix_of null = raise type_error
prefix_of (value p) = ok p

unfoldable pub read_prefix : Thread → Result Prefix
read_prefix t = do
  prefix ← prefix_of (ident t).comm_prefix
  ok (record {
    prefix = prefix;
    length = get_default (count prefix) (ident t).comm_length;
    name_pattern = t.name_pattern;
  })

abbrev PrefixKey : Type 0
PrefixKey = String × Option ℕ

abbrev keep_new :
    List PrefixKey → Prefix → (List PrefixKey → Result (List Prefix)) → Result (List Prefix)
keep_new seen p rest =
    if contains {A = PrefixKey} seen (p.prefix, p.length)
    then rest seen
    else (do ps ← rest ((p.prefix, p.length) ∷ seen); ok (p ∷ ps))

-- The loop of both extractions; `seen` holds the keys so far.
unfoldable pub extract_prefixes : String → List Thread → List PrefixKey → Result (List Prefix)
unfolding read_prefix
extract_prefixes role [] seen = ok []
extract_prefixes role (t ∷ ts) seen =
    if t.role == role
    then (do p ← read_prefix t; keep_new seen p (extract_prefixes role ts))
    else extract_prefixes role ts seen

unfoldable pub extract_bg_prefixes : Manifest → Result (List Prefix)
unfolding extract_prefixes
extract_bg_prefixes m = extract_prefixes "background" m.threads []

unfoldable pub extract_fg_prefixes : Manifest → Result (List Prefix)
unfolding extract_prefixes
extract_fg_prefixes m = extract_prefixes "foreground" m.threads []

-- `prefix[:length]`
abbrev pub slice : String → Option ℕ → String
slice s none = s
slice s (some n) = take n s

abbrev pub checked : Prefix → String
checked p = slice p.prefix p.length

-- The comparisons of `enumerate(chars)`: a position and the character that it must hold.
unfoldable pub comm_tests : ℕ → String → List (ℕ × Char)
comm_tests i String.[] = []
comm_tests i (String.◌∷◌ c s) = (i, c) ∷ comm_tests (suc i) s

abbrev pub test_text : ℕ × Char → String
test_text (i, c) = "comm[" <> (show i <> ("] == '" <> (String.◌∷◌ c "'")))

unfoldable pub generate_comm_check : Prefix → String → String
unfolding comm_tests join
generate_comm_check p indent =
    join (" &&\n" <> (indent <> "    ")) (map test_text (comm_tests 0 (checked p)))

abbrev background_lines : List Prefix → List String
background_lines [] = []
background_lines (p ∷ ps) =
    ""
    ∷ ("\t/* " <> (p.name_pattern <> (" — match \"" <> (p.prefix <> "\" prefix */"))))
    ∷ ("\tif (" <> (generate_comm_check p "\t" <> ")"))
    ∷ "\t\treturn true;"
    ∷ background_lines ps

unfoldable pub generate_classification_fn : String → List Prefix → String
unfolding generate_comm_check
generate_classification_fn name bg_prefixes = join "\n" (
    ("static bool is_" <> (name <> "_background(struct task_struct *p)"))
    ∷ "{"
    ∷ "\tchar comm[16];"
    ∷ ""
    ∷ "\tif (bpf_probe_read_kernel_str(comm, sizeof(comm), p->comm) < 0)"
    ∷ "\t\treturn false;"
    ∷ (background_lines bg_prefixes ++ ("" ∷ "\treturn false;" ∷ "}" ∷ [])))

abbrev keyword : Bool → String
keyword first = if first then "if" else "else if"

abbrev branch_lines : String → String → Bool → List Prefix → List String
branch_lines note result first [] = []
branch_lines note result first (p ∷ ps) =
    ("\t\t/* \"" <> (p.name_pattern <> note))
    ∷ ("\t\t" <> (keyword first <> (" (" <> (generate_comm_check p "\t\t" <> ")"))))
    ∷ ("\t\t\tresult = " <> (result <> ";"))
    ∷ branch_lines note result false ps

abbrev classify_task_start : List String
classify_task_start =
    "static u8 classify_task(struct task_struct *p)" ∷ "{" ∷ "\tstruct task_class *tc;" ∷ ""
    ∷ "\ttc = bpf_task_storage_get(&task_class_map, p, 0, 0);"
    ∷ "\tif (tc && tc->class != TASK_UNKNOWN)" ∷ "\t\treturn tc->class;" ∷ ""
    ∷ "\t/* First time seeing this task — read comm and classify */" ∷ "\tchar comm[16];"
    ∷ "\tu8 result = TASK_NORMAL;" ∷ ""
    ∷ "\tif (bpf_probe_read_kernel_str(comm, sizeof(comm), p->comm) >= 0) {" ∷ []

abbrev classify_task_end : List String
classify_task_end =
    "\t}" ∷ "" ∷ "\t/* Cache for future calls */"
    ∷ "\ttc = bpf_task_storage_get(&task_class_map, p, 0,"
    ∷ "\t\t\t\t  BPF_LOCAL_STORAGE_GET_F_CREATE);" ∷ "\tif (tc)" ∷ "\t\ttc->class = result;" ∷ ""
    ∷ "\treturn result;" ∷ "}" ∷ []

-- The source ignores `name` here too.
unfoldable pub generate_classify_task_fn : String → List Prefix → List Prefix → String
unfolding generate_comm_check
generate_classify_task_fn name bg_prefixes fg_prefixes = join "\n" (
    classify_task_start
    ++ (branch_lines "\" */" "TASK_FOREGROUND" true fg_prefixes
        ++ (branch_lines "\" — CPU hog */" "TASK_CPU_HOG" (is_empty fg_prefixes) bg_prefixes
            ++ classify_task_end)))

-- The template that was chosen, with what `template.format` puts into it.
pub record Source : Type 0 where
  pub pattern : String
  pub sched_name : String
  pub fn_name : String
  pub bg_thread_comments : String
  pub fg_thread_comments : String
  pub classify_fn : String

abbrev show_length : Option ℕ → String
show_length none = "None"
show_length (some n) = show n

abbrev comment_lines : List Prefix → List String
comment_lines [] = []
comment_lines (p ∷ ps) =
    (" *   "
      <> (p.name_pattern
          <> (" (prefix=\"" <> (p.prefix <> ("\", len=" <> (show_length p.length <> ")"))))))
    ∷ comment_lines ps

abbrev comments : List Prefix → String → String
comments [] default = default
comments (p ∷ ps) default = join "\n" (comment_lines (p ∷ ps))

-- `text.replace("-", "_")`
unfoldable pub sanitize : String → String
sanitize String.[] = String.[]
sanitize (String.◌∷◌ c s) = String.◌∷◌ (if c == "-" then "_" else c) (sanitize s)

abbrev source : String → String → List Prefix → List Prefix → String → Source
source pattern sched_name bg fg classify_fn = record {
  pattern = pattern;
  sched_name = sched_name;
  fn_name = sanitize sched_name;
  bg_thread_comments = comments bg " *   (none)";
  fg_thread_comments = comments fg " *   (default: all non-background)";
  classify_fn = classify_fn;
}

-- The choice of the template. An unknown pattern ends the program with status 1.
unfoldable pub assemble : String → String → List Prefix → List Prefix → Result Source
unfolding generate_classification_fn generate_classify_task_fn
assemble pattern sched_name bg fg =
    if pattern == "asymmetric_task_storage"
    then ok
        (source pattern sched_name bg fg (generate_classify_task_fn (sanitize sched_name) bg fg))
    else if pattern == "selective_preemption" || pattern == "simple_dual_dsq"
    then ok (source pattern sched_name bg fg (generate_classification_fn (sanitize sched_name) bg))
    else raise exit_one

unfoldable pub generate_scheduler : Manifest → String → String → Result Source
unfolding extract_bg_prefixes extract_fg_prefixes assemble sanitize
generate_scheduler m pattern sched_name = do
  bg ← extract_bg_prefixes m
  fg ← extract_fg_prefixes m
  assemble pattern sched_name bg fg
