-- ===== src/Tests/Dispatching.antt =====
-- The generated schedulers at concrete inputs.
use schedcore.Prelude.{
  contains, nat_eq, pair_eq, true, ℕ, Bool, List, [], ◌∷◌, ◌≡◌, refl, arith, ltb,
}
use schedcore.Generator.Scx.{dsq_eq, Entry, local}
use schedcore.Generator.Scx.Model.{queues, idle_queues, queues-IsFifo}
use schedcore.Generator.DualDsq.{enqueue, dispatch_rounds}
use schedcore.Generator.DualDsq.Service.{enqueue_all, entries_of, local-dispatch_rounds-enqueue_all}
use schedcore.Generator.DualDsq.Refinement.{
  Callback, wake, wait, idle, Lines, Implements, called_all, promised_all, called_all-Implements,
}
use schedcore.Generator.DualDsq.Liveness.{foreground-OnCpu}

-- Tasks from number 100 on are background tasks.
abbrev from_100 : ℕ → Bool
from_100 p = ltb 99 p

local-dispatch_rounds-enqueue_all_example :
    queues.queue (local 0) (
      dispatch_rounds queues from_100 0 4
        (enqueue_all queues from_100 (101 ∷ 1 ∷ 102 ∷ 2 ∷ []) idle_queues))
    ≡ (1, 3000000) ∷ (2, 3000000) ∷ (101, 20000000) ∷ (102, 20000000) ∷ []
unfolding entries_of
local-dispatch_rounds-enqueue_all_example =
    local-dispatch_rounds-enqueue_all queues queues-IsFifo from_100 (101 ∷ 1 ∷ 102 ∷ 2 ∷ []) 0 4
      idle_queues refl refl refl (omega arith)

-- A task wakes on an idle CPU, three wait, and two CPUs become idle.
abbrev callbacks : List Callback
callbacks = wake 3 1 true ∷ wait 101 ∷ wait 1 ∷ wait 2 ∷ idle 0 ∷ idle 1 ∷ []

abbrev no_lines : Lines
no_lines = record { foreground = []; background = []; on_cpu = λ cpu. [] }

called_all-Implements_example :
    Implements queues
      (called_all queues from_100 callbacks idle_queues)
      (promised_all from_100 callbacks no_lines)
called_all-Implements_example =
    called_all-Implements queues queues-IsFifo from_100 callbacks idle_queues no_lines
      (record { foreground = refl; background = refl; on_cpu = λ cpu. refl })

abbrev lines_runs_on : ℕ → List Entry
unfolding promised_all
lines_runs_on = (promised_all from_100 callbacks no_lines).on_cpu

lines_runs : lines_runs_on 1 ≡ (3, 3000000) ∷ (2, 3000000) ∷ []
unfolding lines_runs_on nat_eq
lines_runs = refl

-- Task 2 waits behind task 1 while a background task comes.
foreground-OnCpu_example :
    (cpu : ℕ) × (contains
        (queues.queue (local cpu) (
          called_all queues from_100
            (idle 0 ∷ wait 101 ∷ idle 1 ∷ [])
            (enqueue_all queues from_100 (1 ∷ 2 ∷ []) idle_queues)))
        (2, 3000000)
      ≡ true)
unfolding enqueue_all enqueue dsq_eq
foreground-OnCpu_example =
    foreground-OnCpu queues queues-IsFifo from_100 (idle 0 ∷ wait 101 ∷ idle 1 ∷ [])
      (enqueue_all queues from_100 (1 ∷ 2 ∷ []) idle_queues) 1 (2, 3000000) refl (omega arith)
