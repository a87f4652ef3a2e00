-- ===== src/Discovery/Files.antt =====
-- pipeline/stage1a_static_analysis.py: `collect_source_files`. A folder is what `os.walk` sees of it:
-- a symbolic link to a folder is no folder, since `os.walk` does not follow it.
pub mod Reached
use schedcore.Prelude.{
  String, ◌<>◌, Option, none, some, Bool, true, false, List, [], ◌∷◌, ◌++◌, ◌==◌, char_eq,
  string_eq, contains, if◌then◌else◌,
}
use schedcore.Prelude.Split.{ends_with}
use schedcore.Prelude.Sorting.{str_lt, sorted}

mutual
  -- the names of the files, and the folders below
  pub data Folder : Type 0 where
    folder : List String → Folders → Folder

  pub data Folders : Type 0 where
    no_folders : Folders
    and_folder : String → Folder → Folders → Folders

-- `EXTENSIONS.get(language, EXTENSIONS["cpp"])`
unfoldable pub extensions : String → List String
extensions language =
    if language == "c"
    then ".c" ∷ ".h" ∷ []
    else ".c" ∷ ".cc" ∷ ".cpp" ∷ ".cxx" ∷ ".h" ∷ ".hh" ∷ ".hpp" ∷ ".hxx" ∷ []

abbrev pub skip_dirs : List String
skip_dirs =
    ".git" ∷ "build" ∷ "cmake-build" ∷ "third-party" ∷ "third_party" ∷ "doc" ∷ "docs"
    ∷ "documentation" ∷ "examples" ∷ "samples" ∷ "__pycache__" ∷ "node_modules" ∷ ".cache" ∷ []

-- The text from its last dot on.
unfoldable pub from_last_dot : String → Option String
from_last_dot String.[] = none
from_last_dot (String.◌∷◌ c s) = elim (from_last_dot s) [
  | some t ↦ some t
  | none ↦ if c == "." then some (String.◌∷◌ c s) else none
]

-- `Path(name).suffix`: the dot is neither the first character nor the last one.
unfoldable pub suffix : String → String
unfolding from_last_dot
suffix String.[] = ""
suffix (String.◌∷◌ c s) = elim (from_last_dot s) [ some t ↦ if t == "." then "" else t | none ↦ "" ]

-- `os.path.join(root, name)` for a name without a slash
unfoldable pub join_path : String → String → String
unfolding ends_with
join_path root name = if ends_with root "/" then root <> name else root <> ("/" <> name)

module _ (exts : List String) where
  -- The loop over `filenames`.
  unfoldable pub source_paths : String → List String → List String
  unfolding suffix join_path
  source_paths root [] = []
  source_paths root (name ∷ names) =
      let rest = source_paths root names in
      if contains exts (suffix name) then join_path root name ∷ rest else rest

  unfoldable mutual
    pub walk : String → Folder → List String
    walk root (folder names below) = source_paths root names ++ walk_below root below

    pub walk_below : String → Folders → List String
    walk_below root no_folders = []
    walk_below root (and_folder name inside others) =
        let found = walk (join_path root name) inside in
        let rest = walk_below root others in if contains skip_dirs name then rest else found ++ rest

unfoldable pub collect_source_files : String → Folder → String → List String
unfolding walk extensions
collect_source_files source dir language = sorted str_lt (walk (extensions language) source dir)
