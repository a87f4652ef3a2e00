-- ===== src/Generator/Preemption.antt =====
-- The scheduler of TEMPLATE_B in pipeline/stage3_generate_scheduler.py. `is_background` is the
-- generated classifier; a CPU, whether it is idle, and the clock come from the kernel. The two
-- array maps have 256 entries: an access behind them finds nothing and changes nothing.
pub mod Victim
pub mod Tracking
use schedcore.Prelude.{
  ℕ, zero, suc, ◌+◌, Bool, true, false, Option, none, some, ◌==◌, nat_eq, ltb, not, ◌&&◌,
  if◌then◌else◌,
}
use schedcore.Prelude.Word.{sub64}
use schedcore.Generator.Scx.{Scx, Dsq, local, user}

abbrev pub foreground_dsq : ℕ
foreground_dsq = 0x200

abbrev pub background_dsq : ℕ
background_dsq = 0x201

abbrev pub default_slice_ns : ℕ
default_slice_ns = 5000000

abbrev pub background_slice_ns : ℕ
background_slice_ns = 20000000

abbrev pub bg_min_run_ns : ℕ
bg_min_run_ns = 2000000

abbrev pub max_cpus : ℕ
max_cpus = 256

-- The values of an array map.
abbrev pub Array : Type 0
Array = ℕ → ℕ

unfoldable pub lookup_elem : ℕ → Array → Option ℕ
lookup_elem key m = if ltb key max_cpus then some (m key) else none

unfoldable pub update_elem : ℕ → ℕ → Array → Array
update_elem key v m k = if ltb key max_cpus && k == key then v else m k

abbrev pub holds : (ℕ → Bool) → Option ℕ → Bool
holds test none = false
holds test (some v) = test v

module _ (scx : Scx) where
  open scx use {State, insert, move_to_local, kick_cpu, create_dsq}

  pub record Machine : Type 0 where
    pub bg_running : Array
    pub bg_start_ns : Array
    pub kernel : State

  -- The tests of one round of the scan.
  unfoldable pub is_victim : ℕ → Machine → ℕ → Bool
  unfolding lookup_elem
  is_victim now s i =
      if holds (λ running. not (running == 0)) (lookup_elem i s.bg_running)
      then holds (λ start. not (ltb (sub64 now start) bg_min_run_ns)) (lookup_elem i s.bg_start_ns)
      else false

  abbrev pub with_kernel : State → Machine → Machine
  with_kernel k s = record s { kernel = k }

  -- The rounds of `bpf_for` that are left, from `i` on; the first victim ends them.
  unfoldable pub preempt : ℕ → ℕ → ℕ → Machine → Machine
  unfolding is_victim
  preempt now zero i s = s
  preempt now (suc n) i s =
      let rest = preempt now n (suc i) s in
      if is_victim now s i then with_kernel (kick_cpu i s.kernel) s else rest

  module _ (is_background : ℕ → Bool) where
    unfoldable pub select_cpu : ℕ → ℕ → Bool → ℕ → Machine → ℕ × Machine
    unfolding preempt
    select_cpu p cpu is_idle now s =
        if is_idle
        then (let slice = if is_background p then background_slice_ns else default_slice_ns in
            (cpu, with_kernel (insert (local cpu) p slice s.kernel) s))
        else if not (is_background p)
        then (cpu, preempt now max_cpus 0 s)
        else (cpu, s)

    unfoldable pub enqueue : ℕ → Machine → Machine
    enqueue p s =
        if is_background p
        then with_kernel (insert (user background_dsq) p background_slice_ns s.kernel) s
        else with_kernel (insert (user foreground_dsq) p default_slice_ns s.kernel) s

    unfoldable pub dispatch : ℕ → Machine → Machine
    dispatch cpu s =
        let (moved, k) = move_to_local cpu (user foreground_dsq) s.kernel in
        if moved
        then with_kernel k s
        else with_kernel (move_to_local cpu (user background_dsq) k).1 s

    unfoldable pub running : ℕ → ℕ → ℕ → Machine → Machine
    unfolding update_elem
    running p cpu now s =
        if is_background p
        then record s {
          bg_running = update_elem cpu 1 s.bg_running;
          bg_start_ns = update_elem cpu now s.bg_start_ns;
        }
        else s

    unfoldable pub stopping : ℕ → ℕ → Machine → Machine
    unfolding update_elem
    stopping p cpu s =
        if is_background p then record s { bg_running = update_elem cpu 0 s.bg_running } else s

  unfoldable pub init : Machine → ℕ × Machine
  init s =
      let (ret, k) = create_dsq foreground_dsq s.kernel in
      if not (ret == 0)
      then (ret, with_kernel k s)
      else (let (ret', k') = create_dsq background_dsq k in (ret', with_kernel k' s))
