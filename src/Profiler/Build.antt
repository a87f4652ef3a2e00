-- ===== src/Profiler/Build.antt =====
-- `build_manifest` of pipeline/stage1c_dynamic_profiler.py, and the loop of `main` that turns the
-- kernel's metrics into classified threads. The numbers that `main` only prints are left out.
pub mod Groups
use schedcore.Prelude.{
  ℕ, ◌+◌, String, Char, ◌<>◌, Option, none, some, Bool, true, false, List, [], ◌∷◌, ◌++◌, length,
  ◌==◌, ◌&&◌, ◌||◌, not, nat_eq, string_eq, char_eq, pair_eq, contains, if◌then◌else◌,
}
use schedcore.Prelude.Text.{count, starts_with, rstrip, show}
use schedcore.Prelude.Dict.{Dict, lookup, insert}
use schedcore.Prelude.Sorting.{str_lt, sorted, distinct}
use schedcore.Prelude.Float.{Float}
use schedcore.Manifest.{Manifest, Thread, value, is_background, is_foreground}
use schedcore.Profiler.Kernel.{ThreadMetrics, Metrics}
use schedcore.Profiler.Classify.{Class, classify_thread}

pub record ThreadData : Type 0 where
  pub tid : ℕ
  pub tgid : ℕ
  pub comm : String
  pub role : String
  pub pattern : String
  pub reason : String

pub record Group : Type 0 where
  pub comms : List String
  pub pattern : String
  pub reason : String
  pub role : String
  pub prefix : String

abbrev pub GroupKey : Type 0
GroupKey = String × String

abbrev chars : String → List Char
chars String.[] = []
chars (String.◌∷◌ c s) = c ∷ chars s

-- `comm.rstrip("0123456789").rstrip("_")`, or `comm` if nothing is left
unfoldable pub group_prefix : String → String
unfolding rstrip
group_prefix comm =
    let prefix = rstrip (contains (chars "_")) (rstrip (contains (chars "0123456789")) comm) in
    if prefix == "" then comm else prefix

abbrev pub group_key : ThreadData → GroupKey
group_key td = (td.role, group_prefix td.comm)

abbrev joined : ThreadData → Option Group → Group
joined td none = record {
  comms = td.comm ∷ [];
  pattern = td.pattern;
  reason = td.reason;
  role = td.role;
  prefix = group_prefix td.comm;
}
joined td (some g) = record g { comms = g.comms ++ (td.comm ∷ []) }

-- One round of the loop over `thread_data`.
unfoldable pub add_to_groups : Dict GroupKey Group → ThreadData → Dict GroupKey Group
add_to_groups groups td = insert (group_key td) (joined td (lookup (group_key td) groups)) groups

unfoldable pub group_threads : Dict GroupKey Group → List ThreadData → Dict GroupKey Group
unfolding add_to_groups
group_threads groups [] = groups
group_threads groups (td ∷ tds) = group_threads (add_to_groups groups td) tds

-- The order of the tuples `(key, group)`: the keys differ, so the groups are never compared.
abbrev pub item_lt : GroupKey × Group → GroupKey × Group → Bool
item_lt ((r, p), _) ((r', p'), _) = str_lt r r' || (r == r' && str_lt p p')

abbrev pattern_and_type : List String → String → String × String
pattern_and_type (comm ∷ []) prefix = (comm, "comm_exact")
pattern_and_type comms prefix = (prefix <> "*", "comm_prefix")

unfoldable pub describe_group : GroupKey × Group → Thread
describe_group ((role, prefix), group) =
    let shown = pattern_and_type (sorted str_lt (distinct group.comms)) prefix in
    record {
      name_pattern = shown.0;
      role = role;
      purpose =
          "Classified by runtime profiling as "
          <> (group.pattern <> (" (" <> (group.reason <> ")")));
      identification = some (record {
        type = value shown.1;
        comm_prefix = value prefix;
        comm_length = value (count prefix);
      });
    }

unfoldable pub describe_groups : List (GroupKey × Group) → List Thread
describe_groups [] = []
describe_groups (item ∷ items) = describe_group item ∷ describe_groups items

abbrev count_role : String → List Thread → ℕ
count_role role [] = 0
count_role role (t ∷ ts) = (if t.role == role then 1 else 0) + count_role role ts

-- `text or default`
abbrev or_default : String → String → String
or_default text default = if text == "" then default else text

unfoldable pub build_manifest : List ThreadData → String → String → Manifest
unfolding group_threads describe_groups describe_group sorted
build_manifest thread_data app_name source_path =
    let threads = describe_groups (sorted item_lt (group_threads [] thread_data)) in
    record {
      application = value (or_default app_name "unknown");
      source_path = value source_path;
      language = value "unknown";
      identification_method = value "comm";
      default_role = value "foreground";
      rationale = value (
          "Dynamic profiling identified "
          <> (show (count_role "background" threads)
              <> (" background thread type(s) and "
                  <> (show (count_role "foreground" threads)
                      <> " foreground thread type(s) based on CPU burst time, sleep ratio, and syscall patterns. Background threads exhibit long CPU bursts and/or disk-heavy syscall profiles. Foreground threads show short bursts with network-heavy syscall profiles (event loops, I/O workers)."))));
      threads = threads;
    }

module _ (float : Float) where
  -- One entry of the map: left out by the filter on `--comm`, or if it has neither run nor woken.
  unfoldable pub profile_thread : ℕ → String → ℕ → ThreadMetrics → Option ThreadData
  profile_thread pid comm_filter tid m =
      if not (comm_filter == "") && (not (starts_with m.comm comm_filter) && pid == 0)
      then none
      else if m.total_run_ns == 0 && m.num_wakeups == 0
      then none
      else (let c =
            classify_thread float m.comm m.total_run_ns m.total_sleep_ns m.num_wakeups m.max_run_ns
              m.network_syscalls m.disk_syscalls m.sync_syscalls in
          some (record {
            tid = tid;
            tgid = m.tgid;
            comm = m.comm;
            role = c.role;
            pattern = c.pattern;
            reason = c.reason;
          }))

  abbrev cons_some : Option ThreadData → List ThreadData → List ThreadData
  cons_some none tds = tds
  cons_some (some td) tds = td ∷ tds

  unfoldable pub profile_threads : ℕ → String → Metrics → List ThreadData
  unfolding profile_thread
  profile_threads pid comm_filter [] = []
  profile_threads pid comm_filter ((tid, m) ∷ metrics) =
      cons_some (profile_thread pid comm_filter tid m) (profile_threads pid comm_filter metrics)
