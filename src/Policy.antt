-- ===== src/Policy.antt =====
-- pipeline/stage2_policy_select.py: the choice of a scheduling pattern. A line of the reasoning is
-- a constructor, which stands for its text, with the values that it shows. Thread and CPU counts
-- are natural numbers; `os.cpu_count()` is a parameter.
pub mod Choice
use schedcore.Prelude.{
  ℕ, ◌+◌, String, Option, none, some, Bool, true, false, List, [], ◌∷◌, ◌++◌, ltb, ◌==◌, nat_eq,
  string_eq, if◌then◌else◌,
}
use schedcore.Prelude.Float.{Float}
use schedcore.Manifest.{Thread, Manifest, get_default, is_background}

pub record Types : Type 0 where
  pub bg_count : ℕ
  pub fg_count : ℕ
  pub bg_names : List String
  pub fg_names : List String

-- One round of the loop.
unfoldable pub count_type : Types → Thread → Types
count_type c t =
    if is_background t
    then record c { bg_count = c.bg_count + 1; bg_names = c.bg_names ++ (t.name_pattern ∷ []) }
    else record c { fg_count = c.fg_count + 1; fg_names = c.fg_names ++ (t.name_pattern ∷ []) }

unfoldable pub count_types : Types → List Thread → Types
count_types c [] = c
count_types c (t ∷ ts) = count_types (count_type c t) ts

unfoldable pub count_thread_types : Manifest → Types
unfolding count_types count_type
count_thread_types m =
    count_types (record { bg_count = 0; fg_count = 0; bg_names = []; fg_names = [] }) m.threads

pub data Reason : Type 0 where
  application : Option String → Reason
  background_types foreground_types : ℕ → List String → Reason
  thread_ratio : ℕ → ℕ → String → Reason
  external_hogs pattern_c only_hogs rest_global storage_caches : Reason
  high_contention : String → Reason
  pattern_b dual_dsq cpu_maps kicks : Reason
  low_contention : String → Reason
  pattern_a roles_to_dsqs drain_order no_preemption : Reason

pub record Config : Type 0 where
  pub pattern : String
  pub fg_dsq : Bool
  pub bg_dsq : Bool
  pub preemption : Bool
  pub task_storage : Bool

pub record Selection : Type 0 where
  pub name : String
  pub config : Config
  pub reasoning : List Reason

-- `os.cpu_count() or 16` where no number was given
unfoldable pub cpus_or_default : Option ℕ → Option ℕ → ℕ
cpus_or_default (some cpus) cpu_count = cpus
cpus_or_default none none = 16
cpus_or_default none (some n) = if n == 0 then 16 else n

unfoldable pub threads_or_types : Option ℕ → Types → ℕ
threads_or_types (some threads) c = threads
threads_or_types none c = c.bg_count + c.fg_count

unfoldable pub thread_cpu_ratio : (float : Float) → ℕ → ℕ → float.F
thread_cpu_ratio float threads cpus =
    if ltb 0 cpus then float.ratio threads cpus else float.ratio 1 1

module _ (float : Float) (cpu_count : Option ℕ) where
  open float use {ratio, lt}

  unfoldable pub select_policy : Manifest → Option ℕ → Option ℕ → Bool → Selection
  unfolding cpus_or_default threads_or_types thread_cpu_ratio
  select_policy m threads_arg cpus_arg external =
      let c = count_thread_types m in
      let cpus = cpus_or_default cpus_arg cpu_count in
      let threads = threads_or_types threads_arg c in
      let r = thread_cpu_ratio float threads cpus in
      let shown = float.format 1 r in
      let reasoning =
        application (get_default "unknown" m.application)
        ∷ background_types c.bg_count c.bg_names
        ∷ foreground_types c.fg_count c.fg_names
        ∷ thread_ratio threads cpus shown
        ∷ [] in
      if external
      then record {
        name = "asymmetric_task_storage";
        config = record {
          pattern = "asymmetric_task_storage";
          fg_dsq = false;
          bg_dsq = true;
          preemption = true;
          task_storage = true;
        };
        reasoning =
            reasoning
            ++ (external_hogs ∷ pattern_c ∷ only_hogs ∷ rest_global ∷ storage_caches ∷ []);
      }
      else if lt (ratio 3 2) r
      then record {
        name = "selective_preemption";
        config = record {
          pattern = "selective_preemption";
          fg_dsq = true;
          bg_dsq = true;
          preemption = true;
          task_storage = false;
        };
        reasoning =
            reasoning ++ (high_contention shown ∷ pattern_b ∷ dual_dsq ∷ cpu_maps ∷ kicks ∷ []);
      }
      else record {
        name = "simple_dual_dsq";
        config = record {
          pattern = "simple_dual_dsq";
          fg_dsq = true;
          bg_dsq = true;
          preemption = false;
          task_storage = false;
        };
        reasoning =
            reasoning
            ++ (low_contention shown
                ∷ pattern_a
                ∷ roles_to_dsqs
                ∷ drain_order
                ∷ no_preemption
                ∷ []);
      }
