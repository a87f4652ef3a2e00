-- ===== src/Generator/DualDsq/Refinement.antt =====
-- The simple pattern as two waiting lines and a line per CPU, whatever the order of the callbacks.
use schedcore.Prelude.{
  ℕ, Bool, true, false, List, [], ◌∷◌, ◌++◌, ◌≡◌, arith, List-cases, Bool-cases, ap, sym, ◌∙◌, inl,
  inr, ◌==◌, nat_eq, if◌then◌else◌,
}
use schedcore.Generator.Scx.{global, Scx, Dsq, local, user, dsq_eq, Entry, IsFifo}
use schedcore.Generator.DualDsq.{
  foreground_dsq, background_dsq, foreground_slice_ns, background_slice_ns, select_cpu, enqueue,
  dispatch,
}

-- A callback of the kernel: a task wakes up, with the CPU that the kernel proposes and whether that
-- is idle; a task has to wait; a CPU has nothing to run.
pub data Callback : Type 0 where
  wake : ℕ → ℕ → Bool → Callback
  wait : ℕ → Callback
  idle : ℕ → Callback

-- What the scheduler promises: two lines and a line per CPU, the first to leave in front.
pub record Lines : Type 0 where
  pub foreground : List Entry
  pub background : List Entry
  pub on_cpu : ℕ → List Entry

-- `entry` at the end of the line of one CPU
abbrev pub appended : ℕ → Entry → (ℕ → List Entry) → ℕ → List Entry
appended cpu entry lines c = if c == cpu then lines c ++ (entry ∷ []) else lines c

-- The next entry leaves the foreground line, or the background line if nothing waits there.
abbrev pub serve : ℕ → Lines → List Entry → List Entry → Lines
serve cpu l (x ∷ fg) bg = record l { foreground = fg; on_cpu = appended cpu x l.on_cpu }
serve cpu l [] (x ∷ bg) = record l { background = bg; on_cpu = appended cpu x l.on_cpu }
serve cpu l [] [] = l

module _ (is_background : ℕ → Bool) where
  abbrev pub entry_of : ℕ → Entry
  entry_of p = (p, if is_background p then background_slice_ns else foreground_slice_ns)

  unfoldable pub promised : Callback → Lines → Lines
  promised (wake p cpu true) l = record l { on_cpu = appended cpu (entry_of p) l.on_cpu }
  promised (wake p cpu false) l = l
  promised (wait p) l =
      if is_background p
      then record l { background = l.background ++ (entry_of p ∷ []) }
      else record l { foreground = l.foreground ++ (entry_of p ∷ []) }
  promised (idle cpu) l = serve cpu l l.foreground l.background

  unfoldable pub promised_all : List Callback → Lines → Lines
  unfolding promised
  promised_all [] l = l
  promised_all (c ∷ cs) l = promised_all cs (promised c l)

module _ (scx : Scx) (is_background : ℕ → Bool) where
  open scx use {State, queue}

  -- What the scheduler does at a callback.
  unfoldable pub called : Callback → State → State
  unfolding select_cpu enqueue dispatch
  called (wake p cpu is_idle) s = (select_cpu scx is_background p cpu is_idle s).1
  called (wait p) s = enqueue scx is_background p s
  called (idle cpu) s = dispatch scx is_background cpu s

  unfoldable pub called_all : List Callback → State → State
  unfolding called
  called_all [] s = s
  called_all (c ∷ cs) s = called_all cs (called c s)

-- The queues of the kernel hold the lines.
pub record Implements (scx : Scx) (s : scx.State) (l : Lines) : Type 0 where
  pub foreground : scx.queue (user foreground_dsq) s ≡ l.foreground
  pub background : scx.queue (user background_dsq) s ≡ l.background
  pub on_cpu : (cpu : ℕ) → scx.queue (local cpu) s ≡ l.on_cpu cpu

number : Dsq → ℕ
number (local c) = c
number global = 0
number (user id) = id

local-eq : (c d : ℕ) → (local c == local d) ≡ (c == d)
unfolding dsq_eq nat_eq
local-eq c d = ground (arith, λ (e : local c ≡ local d). ap number e, λ (e : c ≡ d). ap local e)

module _ (scx : Scx) (fifo : IsFifo scx) (is_background : ℕ → Bool) where
  open scx use {State, queue}

  called-Implements :
      (c : Callback) (s : State) (l : Lines)
      → Implements scx s l
      → Implements scx (called scx is_background c s) (promised is_background c l)
  unfolding called promised select_cpu enqueue dispatch dsq_eq
  called-Implements (wake p cpu true) s l h =
      let slice : ℕ = if is_background p then background_slice_ns else foreground_slice_ns in
      record {
        foreground = fifo.queue-insert (user foreground_dsq) (local cpu) p slice s ∙ h.foreground;
        background = fifo.queue-insert (user background_dsq) (local cpu) p slice s ∙ h.background;
        on_cpu = λ c.
            ground (
              arith,
              fifo.queue-insert (local c) (local cpu) p slice s,
              local-eq c cpu,
              h.on_cpu c,
            );
      }
  called-Implements (wake p cpu false) s l h = h
  called-Implements (wait p) s l h = elim (Bool-cases (is_background p)) [
    | inl holds ↦ rw holds (record {
      foreground =
          fifo.queue-insert (user foreground_dsq) (user background_dsq) p background_slice_ns s
          ∙ h.foreground;
      background =
          fifo.queue-insert (user background_dsq) (user background_dsq) p background_slice_ns s
          ∙ rw h.background;
      on_cpu = λ c.
          fifo.queue-insert (local c) (user background_dsq) p background_slice_ns s ∙ h.on_cpu c;
    })
    | inr fails ↦ rw fails (record {
      foreground =
          fifo.queue-insert (user foreground_dsq) (user foreground_dsq) p foreground_slice_ns s
          ∙ rw h.foreground;
      background =
          fifo.queue-insert (user background_dsq) (user foreground_dsq) p foreground_slice_ns s
          ∙ h.background;
      on_cpu = λ c.
          fifo.queue-insert (local c) (user foreground_dsq) p foreground_slice_ns s ∙ h.on_cpu c;
    })
  ]
  called-Implements (idle cpu) s l h = elim (List-cases (queue (user foreground_dsq) s)) [
    | inr (x, xs, e) ↦
        rw (fifo.move-taken cpu foreground_dsq s x xs e, sym h.foreground ∙ e)
          (record {
            foreground = fifo.queue-move cpu foreground_dsq s x xs (user foreground_dsq) e;
            background =
                fifo.queue-move cpu foreground_dsq s x xs (user background_dsq) e ∙ h.background;
            on_cpu = λ c. ground (
              arith,
              fifo.queue-move cpu foreground_dsq s x xs (local c) e,
              local-eq c cpu,
              h.on_cpu c,
            );
          })
    | inl e ↦
        rw (fifo.move-empty cpu foreground_dsq s e, sym h.foreground ∙ e)
          (elim (List-cases (queue (user background_dsq) s)) [
            | inr (x, xs, f) ↦ rw (sym h.background ∙ f) (record {
              foreground = fifo.queue-move cpu background_dsq s x xs (user foreground_dsq) f ∙ e;
              background = fifo.queue-move cpu background_dsq s x xs (user background_dsq) f;
              on_cpu = λ c. ground (
                arith,
                fifo.queue-move cpu background_dsq s x xs (local c) f,
                local-eq c cpu,
                h.on_cpu c,
              );
            })
            | inl f ↦
                rw (fifo.move-empty cpu background_dsq s f, sym h.background ∙ f)
                  (record { foreground = e; background = f; on_cpu = h.on_cpu })
          ])
  ]

  -- Whatever callbacks come in whatever order, the queues of the kernel hold the lines that the
  -- callbacks promise, if they hold the lines at the start.
  pub called_all-Implements :
      (cs : List Callback) (s : State) (l : Lines)
      → Implements scx s l
      → Implements scx (called_all scx is_background cs s) (promised_all is_background cs l)
  unfolding called_all promised_all
  called_all-Implements [] s l h = h
  called_all-Implements (c ∷ cs) s l h =
      called_all-Implements cs (called scx is_background c s) (promised is_background c l)
        (called-Implements c s l h)
