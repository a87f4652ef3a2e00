-- ===== src/Policy/Choice.antt =====
-- Which pattern `select_policy` chooses, in whole numbers.
use schedcore.Prelude.{
  ℕ, zero, suc, ◌+◌, ◌*◌, ◌^◌, ◌<◌, ◌≡◌, String, Option, Bool, List, [], ◌∷◌, ◌&&◌, ltb, length,
  arith, if◌then◌else◌,
}
use schedcore.Prelude.Float.{Float, IsIeee}
use schedcore.Prelude.Float.Compare.{lt_ratio}
use schedcore.Manifest.{Thread, Manifest, is_background}
use schedcore.Policy.{
  Types, count_type, count_types, count_thread_types, cpus_or_default, threads_or_types,
  thread_cpu_ratio, select_policy,
}

-- The decision by integers: more than three threads for two CPUs is high contention.
abbrev pub pattern_for : ℕ → ℕ → Bool → String
pattern_for threads cpus external =
    if external
    then "asymmetric_task_storage"
    else if ltb 0 cpus && ltb (3 * cpus) (threads * 2)
    then "selective_preemption"
    else "simple_dual_dsq"

abbrev one_if : Bool → ℕ
one_if b = if b then 1 else 0

abbrev pub count_background : List Thread → ℕ
count_background [] = 0
count_background (t ∷ ts) = one_if (is_background t) + count_background ts

count_type-adds :
    (c : Types) (t : Thread)
    → ((count_type c t).bg_count ≡ c.bg_count + one_if (is_background t))
      × ((count_type c t).bg_count + (count_type c t).fg_count ≡ c.bg_count + c.fg_count + 1)
unfolding count_type
count_type-adds c t = ground arith

count_types-adds :
    (c : Types) (ts : List Thread)
    → ((count_types c ts).bg_count ≡ c.bg_count + count_background ts)
      × ((count_types c ts).bg_count + (count_types c ts).fg_count
          ≡ c.bg_count + c.fg_count + length ts)
unfolding count_types
count_types-adds c [] = omega arith
count_types-adds c (t ∷ ts) =
    omega (arith, count_type-adds c t, count_types-adds (count_type c t) ts)

-- The background count is the number of background threads, and the two counts together are the
-- number of threads: a thread with any other role counts as foreground.
pub count_thread_types-adds :
    (m : Manifest)
    → ((count_thread_types m).bg_count ≡ count_background m.threads)
      × ((count_thread_types m).bg_count + (count_thread_types m).fg_count ≡ length m.threads)
unfolding count_thread_types
count_thread_types-adds m = omega (
  arith,
  count_types-adds (record { bg_count = 0; fg_count = 0; bg_names = []; fg_names = [] }) m.threads,
)

module _ (float : Float) (laws : IsIeee float) where
  open float use {ratio, lt}

  is_high_lem :
      (threads cpus : ℕ)
      → threads * 2 < 2 ^ 52
      → cpus * 2 < 2 ^ 52
      → lt (ratio 3 2) (thread_cpu_ratio float threads cpus)
        ≡ (ltb 0 cpus && ltb (3 * cpus) (threads * 2))
  unfolding thread_cpu_ratio
  is_high_lem threads zero ht hc =
      rw (lt_ratio float laws 1 1 3 2 (omega arith) (omega arith) (omega arith) (omega arith))
        (ground arith)
  is_high_lem threads (suc cpus) ht hc =
      ground (arith, lt_ratio float laws threads (suc cpus) 3 2 (omega arith) (omega arith) ht hc)

  -- For thread and CPU numbers that a double holds exactly, the choice is asymmetric with
  -- external CPU hogs; without them it is preemption for more than three threads to two CPUs
  -- and the simple pattern otherwise, also for no CPU. The name returned is the configuration's.
  pub select_policy_exact :
      (cpu_count : Option ℕ) (m : Manifest) (threads_arg cpus_arg : Option ℕ) (external : Bool)
      → let threads = threads_or_types threads_arg (count_thread_types m) in
        let cpus = cpus_or_default cpus_arg cpu_count in
        threads * 2 < 2 ^ 52
        → cpus * 2 < 2 ^ 52
        → let s = select_policy float cpu_count m threads_arg cpus_arg external in
          (s.name ≡ pattern_for threads cpus external) × (s.config.pattern ≡ s.name)
  unfolding select_policy
  select_policy_exact cpu_count m threads_arg cpus_arg external ht hc = ground (
    arith,
    is_high_lem (threads_or_types threads_arg (count_thread_types m))
        (cpus_or_default cpus_arg cpu_count) ht hc,
  )
