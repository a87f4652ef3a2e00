-- ===== src/Generator/Asymmetric.antt =====
-- The scheduler of TEMPLATE_C in pipeline/stage3_generate_scheduler.py. Its maps and its scan are
-- those of TEMPLATE_B, word by word. Each call of `classify_task` reads what the kernel holds at
-- that moment: the task's name, the buffer, and whether a cell of task storage can be made.
pub mod Caching
use schedcore.Prelude.{ℕ, Bool, true, false, Option, List, String, ◌==◌, nat_eq, ltb, if◌then◌else◌}
use schedcore.Generator.{Prefix}
use schedcore.Generator.Matching.{
  Buffer, TaskClass, task_unknown, task_foreground, task_cpu_hog, task_normal, classify_task,
}
use schedcore.Generator.Scx.{Scx, Dsq, local, global, user}
use schedcore.Generator.Preemption.{Machine, with_kernel, update_elem, preempt, max_cpus}

abbrev background_dsq : ℕ
background_dsq = 0x201

abbrev default_slice_ns : ℕ
default_slice_ns = 5000000

abbrev background_slice_ns : ℕ
background_slice_ns = 20000000

pub record Reading : Type 0 where
  pub name : Option String
  pub buffer : Buffer
  pub can_create : Bool

abbrev pub is_cpu_hog : TaskClass → Bool
is_cpu_hog task_cpu_hog = true
is_cpu_hog task_unknown = false
is_cpu_hog task_foreground = false
is_cpu_hog task_normal = false

abbrev pub is_foreground_class : TaskClass → Bool
is_foreground_class task_foreground = true
is_foreground_class task_unknown = false
is_foreground_class task_cpu_hog = false
is_foreground_class task_normal = false

-- `if (limit > MAX_CPUS) limit = MAX_CPUS`
abbrev pub limit_of : ℕ → ℕ
limit_of nr_cpus = if ltb max_cpus nr_cpus then max_cpus else nr_cpus

module _ (scx : Scx) where
  open scx use {State, insert, move_to_local, create_dsq}

  pub record Host : Type 0 where
    pub machine : Machine scx
    -- `task_class_map`
    pub cells : ℕ → Option TaskClass
    pub nr_cpus : ℕ

  abbrev with_machine : Machine scx → Host → Host
  with_machine m h = record h { machine = m }

  abbrev on_kernel : (State → State) → Host → Host
  on_kernel f h = with_machine (with_kernel scx (f h.machine.kernel) h.machine) h

  module _ (bg fg : List Prefix) where
    -- `classify_task(p)`: the class, and the cell of the task afterwards.
    unfoldable pub classify : ℕ → Reading → Host → TaskClass × Host
    classify p r h =
        let (class, cell) = classify_task bg fg (h.cells p) r.can_create r.name r.buffer in
        (class, record h { cells = λ q. if q == p then cell else h.cells q })

    unfoldable pub select_cpu : ℕ → ℕ → Bool → ℕ → Reading → Host → ℕ × Host
    unfolding classify
    select_cpu p cpu is_idle now r h =
        let (class, h') = classify p r h in
        if is_idle
        then (let slice = if is_cpu_hog class then background_slice_ns else default_slice_ns in
            (cpu, on_kernel (insert (local cpu) p slice) h'))
        else if is_foreground_class class
        then (cpu, with_machine (preempt scx now (limit_of h'.nr_cpus) 0 h'.machine) h')
        else (cpu, h')

    unfoldable pub enqueue : ℕ → Reading → Host → Host
    unfolding classify
    enqueue p r h =
        let (class, h') = classify p r h in
        if is_cpu_hog class
        then on_kernel (insert (user background_dsq) p background_slice_ns) h'
        else on_kernel (insert global p default_slice_ns) h'

    unfoldable pub running : ℕ → ℕ → ℕ → Reading → Host → Host
    unfolding classify update_elem
    running p cpu now r h =
        let (class, h') = classify p r h in
        if is_cpu_hog class
        then with_machine
            (record h'.machine {
              bg_running = update_elem cpu 1 h'.machine.bg_running;
              bg_start_ns = update_elem cpu now h'.machine.bg_start_ns;
            })
            h'
        else h'

    unfoldable pub stopping : ℕ → ℕ → Reading → Host → Host
    unfolding classify update_elem
    stopping p cpu r h =
        let (class, h') = classify p r h in
        if is_cpu_hog class
        then with_machine
            (record h'.machine { bg_running = update_elem cpu 0 h'.machine.bg_running }) h'
        else h'

  unfoldable pub dispatch : ℕ → Host → Host
  dispatch cpu h = on_kernel (λ k. (move_to_local cpu (user background_dsq) k).1) h

  -- `nr_cpu_ids` is what `scx_bpf_nr_cpu_ids` returns.
  unfoldable pub init : ℕ → Host → ℕ × Host
  init nr_cpu_ids h =
      let (ret, k) = create_dsq background_dsq h.machine.kernel in
      (ret, on_kernel (λ _. k) (record h { nr_cpus = nr_cpu_ids }))
