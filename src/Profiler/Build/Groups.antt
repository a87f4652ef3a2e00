-- ===== src/Profiler/Build/Groups.antt =====
-- Which thread entries a profiled manifest has.
use schedcore.Prelude.{
  ◌≡◌, refl, ◌∙◌, String, some, Bool, true, List, [], ◌∷◌, ◌&&◌, ◌||◌, arith, ◌==◌, string_eq,
  nat_eq, char_eq, option_eq, pair_eq, contains, if◌then◌else◌,
}
use schedcore.Prelude.Text.{
  rstrip, starts_with, starts_with_refl, starts_with-rstrip, starts_with_trans,
}
use schedcore.Prelude.Dict.{Dict, keys, has_key, has_key-insert}
use schedcore.Prelude.Sorting.{any, sorted, any-sorted}
use schedcore.Manifest.{Thread, get, ident}
use schedcore.Profiler.Build.{
  chars, ThreadData, Group, GroupKey, group_prefix, group_key, add_to_groups, group_threads,
  item_lt, describe_group, describe_groups, build_manifest,
}

-- A thread entry has the role and the prefix.
abbrev pub is_entry : String → String → Thread → Bool
is_entry role prefix t = t.role == role && get (ident t).comm_prefix == some prefix

-- A profiled thread has the role, and the prefix is that of its group.
abbrev pub is_profiled : String → String → ThreadData → Bool
is_profiled role prefix td = td.role == role && group_prefix td.comm == prefix

or_swap : (a b c : Bool) → ((a || b) || c) ≡ (b || (a || c))
or_swap a b c = ground arith

if_or : (a b : Bool) → (if a then true else b) ≡ (a || b)
if_or a b = ground arith

any-has_key : (k : GroupKey) (d : Dict GroupKey Group) → any (λ item. k == item.0) d ≡ has_key k d
unfolding has_key keys
any-has_key k [] = refl
any-has_key k ((j, g) ∷ d) = ground (arith, any-has_key k d)

pair_test : (a b c d : String) → ◌==◌ {A = GroupKey} (a, b) (c, d) ≡ (c == a && d == b)
pair_test a b c d = ground arith

has_key-add_to_groups :
    (k : GroupKey) (d : Dict GroupKey Group) (td : ThreadData)
    → has_key k (add_to_groups d td) ≡ (k == group_key td || has_key k d)
unfolding add_to_groups
has_key-add_to_groups k d td =
    has_key-insert k (group_key td) _ d ∙ if_or (k == group_key td) (has_key k d)

module _ (role prefix : String) where
  any-describe_groups :
      (items : List (GroupKey × Group))
      → any (is_entry role prefix) (describe_groups items)
        ≡ any (λ item. (role, prefix) == item.0) items
  unfolding describe_groups describe_group
  any-describe_groups [] = refl
  any-describe_groups (((r, p), group) ∷ items) =
      rw (pair_test role prefix r p, any-describe_groups items) (ground arith)

  has_key-group_threads :
      (d : Dict GroupKey Group) (tds : List ThreadData)
      → has_key (role, prefix) (group_threads d tds)
        ≡ (has_key (role, prefix) d || any (is_profiled role prefix) tds)
  unfolding group_threads
  has_key-group_threads d [] = ground arith
  has_key-group_threads d (td ∷ tds) =
      rw
        (
          has_key-group_threads (add_to_groups d td) tds,
          has_key-add_to_groups (role, prefix) d td,
          pair_test role prefix td.role (group_prefix td.comm),
        )
        (or_swap (td.role == role && group_prefix td.comm == prefix) (has_key (role, prefix) d)
          (any (is_profiled role prefix) tds))

  -- The manifest has an entry with a role and a prefix exactly when a profiled thread has that
  -- role and its name, stripped of trailing digits and underscores, is that prefix.
  pub build_manifest-entries :
      (tds : List ThreadData) (app_name source_path : String)
      → any (is_entry role prefix) (build_manifest tds app_name source_path).threads
        ≡ any (is_profiled role prefix) tds
  unfolding build_manifest
  build_manifest-entries tds app_name source_path =
      any-describe_groups (sorted item_lt (group_threads [] tds))
      ∙ any-sorted (λ item. (role, prefix) == item.0) item_lt (group_threads [] tds)
      ∙ any-has_key (role, prefix) (group_threads [] tds)
      ∙ (unfold has_key in has_key-group_threads [] tds)

-- The prefix of a group is a prefix of the names in it.
pub starts_with-group_prefix : (comm : String) → starts_with comm (group_prefix comm) ≡ true
unfolding group_prefix
starts_with-group_prefix comm = ground (
  arith,
  starts_with_refl comm,
  starts_with_trans comm _ _ (starts_with-rstrip (contains (chars "0123456789")) comm)
      (starts_with-rstrip (contains (chars "_")) (rstrip (contains (chars "0123456789")) comm)),
)
