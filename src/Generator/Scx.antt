-- ===== src/Generator/Scx.antt =====
-- The part of the kernel that the generated schedulers call (sched-ext), as an interface: dispatch
-- queues of tasks with their slices, and requests to preempt a CPU.
pub mod Model
use native.Mathlib.Decide.{ℕ_discrete}
use schedcore.Prelude.{ℕ, Bool, true, false, List, [], ◌∷◌, ◌++◌, ◌≡◌, ◌≢◌, Eq, ◌==◌, if◌then◌else◌}

-- The local queue of a CPU, the global queue, and a queue that a scheduler made.
pub data Dsq : Type 0 where
  local : ℕ → Dsq
  global : Dsq
  user : ℕ → Dsq

unfoldable pub Dsq-discrete : Discrete Dsq
unfolding ℕ_discrete
Dsq-discrete = hlevel ℕ_discrete

instance unfoldable pub dsq_eq : Eq Dsq
unfolding Dsq-discrete
dsq_eq = record { dec = Dsq-discrete }

-- A task and its slice in nanoseconds.
abbrev pub Entry : Type 0
Entry = ℕ × ℕ

pub record Scx : Type 1 where
  pub State : Type 0
  -- What waits in a queue, the first to leave in front.
  pub queue : Dsq → State → List Entry
  -- The CPUs that were asked to reschedule, the last one in front.
  pub kicks : State → List ℕ
  -- `scx_bpf_dsq_insert(p, dsq, slice, flags)`
  pub insert : Dsq → ℕ → ℕ → State → State
  -- `scx_bpf_dsq_move_to_local(dsq)` on a CPU
  pub move_to_local : ℕ → Dsq → State → Bool × State
  -- `scx_bpf_kick_cpu(cpu, SCX_KICK_PREEMPT)`
  pub kick_cpu : ℕ → State → State
  -- `scx_bpf_create_dsq(dsq, -1)`, 0 or an error
  pub create_dsq : ℕ → State → ℕ × State

-- The documented behaviour: queues are first in, first out.
pub record IsFifo (scx : Scx) : Type 0 where
  pub queue-insert :
      (d e : Dsq) (task slice : ℕ) (s : scx.State)
      → scx.queue d (scx.insert e task slice s)
        ≡ (if d == e then scx.queue d s ++ ((task, slice) ∷ []) else scx.queue d s)
  pub move-empty :
      (cpu id : ℕ) (s : scx.State)
      → scx.queue (user id) s ≡ []
      → scx.move_to_local cpu (user id) s ≡ (false, s)
  pub move-taken :
      (cpu id : ℕ) (s : scx.State) (x : Entry) (xs : List Entry)
      → scx.queue (user id) s ≡ x ∷ xs
      → (scx.move_to_local cpu (user id) s).0 ≡ true
  pub queue-move :
      (cpu id : ℕ) (s : scx.State) (x : Entry) (xs : List Entry) (d : Dsq)
      → scx.queue (user id) s ≡ x ∷ xs
      → scx.queue d (scx.move_to_local cpu (user id) s).1 ≡ (
          if d == user id
          then xs
          else if d == local cpu
          then scx.queue d s ++ (x ∷ [])
          else scx.queue d s)
  pub queue-kick :
      (d : Dsq) (cpu : ℕ) (s : scx.State) → scx.queue d (scx.kick_cpu cpu s) ≡ scx.queue d s
  pub kicks-kick : (cpu : ℕ) (s : scx.State) → scx.kicks (scx.kick_cpu cpu s) ≡ cpu ∷ scx.kicks s
  pub kicks-insert :
      (d : Dsq) (task slice : ℕ) (s : scx.State)
      → scx.kicks (scx.insert d task slice s) ≡ scx.kicks s
