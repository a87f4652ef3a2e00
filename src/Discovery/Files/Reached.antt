-- ===== src/Discovery/Files/Reached.antt =====
-- Which files are collected.
use schedcore.Prelude.{
  ◌≡◌, refl, sym, ◌∙◌, inl, inr, ||-cases, Bool-cases, String, Bool, true, false, not, ◌||◌, ◌&&◌,
  List, [], ◌∷◌, ◌++◌, arith, ◌==◌, string_eq, contains,
}
use schedcore.Discovery.Files.{
  Folder, folder, Folders, no_folders, and_folder, skip_dirs, suffix, join_path, source_paths, walk,
  walk_below,
}

unfoldable mutual
  -- The folder holds a file of this name, below the folders of these names.
  pub holds : Folder → List String → String → Bool
  holds (folder names below) [] name = contains names name
  holds (folder names below) (d ∷ ds) name = holds_below below d ds name

  pub holds_below : Folders → String → List String → String → Bool
  holds_below no_folders d ds name = false
  holds_below (and_folder n inside others) d ds name =
      (d == n && holds inside ds name) || holds_below others d ds name

-- `root/d1/…/dn/name`
abbrev pub path_of : String → List String → String → String
path_of root [] name = join_path root name
path_of root (d ∷ ds) name = path_of (join_path root d) ds name

abbrev pub none_skipped : List String → Bool
none_skipped [] = true
none_skipped (d ∷ ds) = not (contains skip_dirs d) && none_skipped ds

-- The path is that of a source file of the folder that no skipped folder hides.
pub record IsSource (exts : List String) (root : String) (dir : Folder) (path : String)
    : Type 0 where
  pub dirs : List String
  pub name : String
  pub named : path ≡ path_of root dirs name
  pub held : holds dir dirs name ≡ true
  pub visible : none_skipped dirs ≡ true
  pub source : contains exts (suffix name) ≡ true

contains-append :
    (xs ys : List String) (a : String) → contains (xs ++ ys) a ≡ (contains xs a || contains ys a)
contains-append [] ys a = refl
contains-append (x ∷ xs) ys a = ground (arith, contains-append xs ys a)

module _ (exts : List String) where
  contains-source_paths :
      (root : String) (names : List String) (name : String)
      → contains names name ≡ true
      → contains exts (suffix name) ≡ true
      → contains (source_paths exts root names) (join_path root name) ≡ true
  unfolding source_paths
  contains-source_paths root [] name h k = h
  contains-source_paths root (n ∷ names) name h k =
      ground (arith, contains-source_paths root names name)

  mutual
    unfolding walk holds

    contains-walk :
        (root : String) (dir : Folder) (dirs : List String) (name : String)
        → holds dir dirs name ≡ true
        → none_skipped dirs ≡ true
        → contains exts (suffix name) ≡ true
        → contains (walk exts root dir) (path_of root dirs name) ≡ true
    contains-walk root (folder names below) [] name h v k = ground (
      arith,
      contains-append (source_paths exts root names) (walk_below exts root below)
          (join_path root name),
      contains-source_paths root names name,
    )
    contains-walk root (folder names below) (d ∷ ds) name h v k = ground (
      arith,
      contains-append (source_paths exts root names) (walk_below exts root below)
          (path_of root (d ∷ ds) name),
      contains-walk_below root below d ds name,
    )

    contains-walk_below :
        (root : String) (below : Folders) (d : String) (ds : List String) (name : String)
        → holds_below below d ds name ≡ true
        → none_skipped (d ∷ ds) ≡ true
        → contains exts (suffix name) ≡ true
        → contains (walk_below exts root below) (path_of root (d ∷ ds) name) ≡ true
    contains-walk_below root no_folders d ds name h v k = h
    contains-walk_below root (and_folder n inside others) d ds name h v k = ground (
      arith,
      contains-append (walk exts (join_path root n) inside) (walk_below exts root others)
          (path_of root (d ∷ ds) name),
      contains-walk (join_path root d) inside ds name,
      contains-walk_below root others d ds name,
    )

  source_paths-named :
      (root : String) (names : List String) (path : String)
      → contains (source_paths exts root names) path ≡ true
      → (name : String) × (path ≡ join_path root name)
        × (contains names name ≡ true)
        × (contains exts (suffix name) ≡ true)
  unfolding source_paths
  source_paths-named root [] path h = cc
  source_paths-named root (n ∷ names) path h = elim (Bool-cases (contains exts (suffix n))) [
    | inl kept ↦ elim (string_eq.dec path (join_path root n)) [
      | yes e ↦ (n, e, ground arith, kept)
      | no differ ↦ later (source_paths-named root names path (ground arith))
    ]
    | inr left_out ↦ later (source_paths-named root names path (ground arith))
  ]
    where
      later :
          ((name : String) × (path ≡ join_path root name)
            × (contains names name ≡ true)
            × (contains exts (suffix name) ≡ true))
          → (name : String) × (path ≡ join_path root name)
            × (contains (n ∷ names) name ≡ true)
            × (contains exts (suffix name) ≡ true)
      later (name, e, listed, kept) = (name, e, ground arith, kept)

  enter :
      (root n path : String) (inside : Folder) (names : List String) (others : Folders)
      → contains skip_dirs n ≡ false
      → IsSource exts (join_path root n) inside path
      → IsSource exts root (folder names (and_folder n inside others)) path
  unfolding holds
  enter root n path inside names others seen s = record {
    dirs = n ∷ s.dirs;
    name = s.name;
    named = s.named;
    held = ground (arith, s.held);
    visible = ground (arith, s.visible);
    source = s.source;
  }

  skip_over :
      (n name : String) (inside : Folder) (names dirs : List String) (others : Folders)
      → holds (folder names others) dirs name ≡ true
      → holds (folder names (and_folder n inside others)) dirs name ≡ true
  unfolding holds
  skip_over n name inside names [] others h = h
  skip_over n name inside names (d ∷ ds) others h = ground arith

  pass_by :
      (root n path : String) (inside : Folder) (names : List String) (others : Folders)
      → IsSource exts root (folder names others) path
      → IsSource exts root (folder names (and_folder n inside others)) path
  pass_by root n path inside names others s = record {
    dirs = s.dirs;
    name = s.name;
    named = s.named;
    held = skip_over n s.name inside names s.dirs others s.held;
    visible = s.visible;
    source = s.source;
  }

  mutual
    unfolding walk holds

    walk-IsSource :
        (root : String) (dir : Folder) (path : String)
        → contains (walk exts root dir) path ≡ true
        → IsSource exts root dir path
    walk-IsSource root (folder names below) path h =
        elim (||-cases (contains (source_paths exts root names) path)
          (contains (walk_below exts root below) path)
          (sym (contains-append (source_paths exts root names) (walk_below exts root below) path)
            ∙ h)) [
              | inl here ↦
                  let (name, e, listed, kept) = source_paths-named root names path here in
                  record {
                    dirs = [];
                    name = name;
                    named = e;
                    held = listed;
                    visible = refl;
                    source = kept;
                  }
              | inr lower ↦ walk_below-IsSource root names below path lower
            ]

    walk_below-IsSource :
        (root : String) (names : List String) (below : Folders) (path : String)
        → contains (walk_below exts root below) path ≡ true
        → IsSource exts root (folder names below) path
    walk_below-IsSource root names no_folders path h = cc
    walk_below-IsSource root names (and_folder n inside others) path h =
        elim (Bool-cases (contains skip_dirs n)) [
          | inl skipped ↦
              pass_by root n path inside names others
                (walk_below-IsSource root names others path (ground arith))
          | inr seen ↦
              elim (||-cases (contains (walk exts (join_path root n) inside) path)
                (contains (walk_below exts root others) path)
                (sym (
                    contains-append (walk exts (join_path root n) inside)
                      (walk_below exts root others) path)
                  ∙ ground arith)) [
                    | inl here ↦
                        enter root n path inside names others seen
                          (walk-IsSource (join_path root n) inside path here)
                    | inr later ↦
                        pass_by root n path inside names others
                          (walk_below-IsSource root names others path later)
                  ]
        ]
