-- ===== src/Generator/DualDsq/Dispatch.antt =====
-- The order of service under the simple pattern.
use schedcore.Prelude.{ℕ, Bool, List, [], ◌∷◌, ◌++◌, ◌≡◌, arith, List-cases, inl, inr}
use schedcore.Generator.Scx.{Scx, local, user, dsq_eq, Entry, IsFifo}
use schedcore.Generator.DualDsq.{foreground_dsq, background_dsq, dispatch}

-- What one dispatch makes of the two queues and the local queue of its CPU.
abbrev pub served : List Entry → List Entry → List Entry → List Entry × (List Entry × List Entry)
served (x ∷ fg) bg here = (fg, (bg, here ++ (x ∷ [])))
served [] (x ∷ bg) here = ([], (bg, here ++ (x ∷ [])))
served [] [] here = ([], ([], here))

module _ (scx : Scx) where
  open scx use {State, queue}

  abbrev pub fg_queue : State → List Entry
  fg_queue s = queue (user foreground_dsq) s

  abbrev pub bg_queue : State → List Entry
  bg_queue s = queue (user background_dsq) s

module _ (scx : Scx) (fifo : IsFifo scx) (is_background : ℕ → Bool) where
  open scx use {State, queue}

  -- A dispatch serves the longest waiting foreground task, else the longest waiting background
  -- task, else none; that task goes to the end of the CPU's own queue.
  pub dispatch-served :
      (cpu : ℕ) (s : State)
      → let s' = dispatch scx is_background cpu s in
        ◌≡◌ {A = List Entry × (List Entry × List Entry)}
          (fg_queue scx s', (bg_queue scx s', queue (local cpu) s'))
          (served (fg_queue scx s) (bg_queue scx s) (queue (local cpu) s))
  unfolding dispatch dsq_eq
  dispatch-served cpu s = elim (List-cases (fg_queue scx s)) [
    | inr (x, xs, e) ↦
        rw
          (
            e,
            fifo.move-taken cpu foreground_dsq s x xs e,
            fifo.queue-move cpu foreground_dsq s x xs (user foreground_dsq) e,
            fifo.queue-move cpu foreground_dsq s x xs (user background_dsq) e,
            fifo.queue-move cpu foreground_dsq s x xs (local cpu) e,
          )
          (ground arith)
    | inl e ↦
        rw (e, fifo.move-empty cpu foreground_dsq s e)
          elim (List-cases (bg_queue scx s)) [
            | inr (x, xs, f) ↦
                rw
                  (
                    f,
                    fifo.queue-move cpu background_dsq s x xs (user foreground_dsq) f,
                    fifo.queue-move cpu background_dsq s x xs (user background_dsq) f,
                    fifo.queue-move cpu background_dsq s x xs (local cpu) f,
                    e,
                  )
                  (ground arith)
            | inl f ↦ rw (fifo.move-empty cpu background_dsq s f, e, f)
          ]
  ]
