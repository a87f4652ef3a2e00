-- ===== src/Generator/DualDsq.antt =====
-- The scheduler of TEMPLATE_A in pipeline/stage3_generate_scheduler.py. `is_background` is the
-- generated classifier; a CPU and whether it is idle come from `scx_bpf_select_cpu_dfl`.
pub mod Dispatch
pub mod Service
pub mod Refinement
pub mod Liveness
use schedcore.Prelude.{ℕ, Bool, true, false, ◌==◌, nat_eq, if◌then◌else◌, not}
use schedcore.Generator.Scx.{Scx, Dsq, local, user}

abbrev pub foreground_dsq : ℕ
foreground_dsq = 0x100

abbrev pub background_dsq : ℕ
background_dsq = 0x101

abbrev pub foreground_slice_ns : ℕ
foreground_slice_ns = 3000000

abbrev pub background_slice_ns : ℕ
background_slice_ns = 20000000

module _ (scx : Scx) (is_background : ℕ → Bool) where
  open scx use {State, insert, move_to_local, create_dsq}

  unfoldable pub select_cpu : ℕ → ℕ → Bool → State → ℕ × State
  select_cpu p cpu is_idle s =
      if is_idle
      then (let slice = if is_background p then background_slice_ns else foreground_slice_ns in
          (cpu, insert (local cpu) p slice s))
      else (cpu, s)

  unfoldable pub enqueue : ℕ → State → State
  enqueue p s =
      if is_background p
      then insert (user background_dsq) p background_slice_ns s
      else insert (user foreground_dsq) p foreground_slice_ns s

  unfoldable pub dispatch : ℕ → State → State
  dispatch cpu s =
      let (moved, s') = move_to_local cpu (user foreground_dsq) s in
      if not moved then (move_to_local cpu (user background_dsq) s').1 else s'

  unfoldable pub init : State → ℕ × State
  init s =
      let (ret, s') = create_dsq foreground_dsq s in
      if ret == 0 then create_dsq background_dsq s' else (ret, s')

  -- One dispatch after another on a CPU.
  unfoldable pub dispatch_rounds : ℕ → ℕ → State → State
  dispatch_rounds cpu ℕ.zero s = s
  dispatch_rounds cpu (ℕ.suc n) s = dispatch_rounds cpu n (dispatch cpu s)
