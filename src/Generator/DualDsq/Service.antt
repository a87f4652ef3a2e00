-- ===== src/Generator/DualDsq/Service.antt =====
-- What a CPU runs, in order, under the simple pattern.
use mathlib.Core.List.{append_assoc, append-nil}
use schedcore.Prelude.{
  ℕ, Bool, List, [], ◌∷◌, ◌++◌, ◌≡◌, refl, sym, ap, not, Bool-cases, ◌∙◌, arith, length,
  length-append, take, inl, inr, if◌then◌else◌, ◌≤◌,
}
use schedcore.Generator.Scx.{Scx, local, user, dsq_eq, Entry, IsFifo}
use schedcore.Generator.DualDsq.{
  foreground_dsq, background_dsq, foreground_slice_ns, background_slice_ns, enqueue, dispatch,
  dispatch_rounds,
}
use schedcore.Generator.DualDsq.Dispatch.{served, dispatch-served, fg_queue, bg_queue}

-- The tasks enqueued one after another.
unfoldable pub enqueue_all : (scx : Scx) → (ℕ → Bool) → List ℕ → scx.State → scx.State
enqueue_all scx is_background [] s = s
enqueue_all scx is_background (p ∷ ps) s =
    enqueue_all scx is_background ps (enqueue scx is_background p s)

-- The entries of the tasks that pass a test, in their order.
unfoldable pub entries_of : (ℕ → Bool) → ℕ → List ℕ → List Entry
entries_of test slice [] = []
entries_of test slice (p ∷ ps) =
    let rest = entries_of test slice ps in if test p then (p, slice) ∷ rest else rest

module _ {ℓ} {A : Type ℓ} where
  take-nil : (n : ℕ) → take {A = A} n [] ≡ []
  take-nil ℕ.zero = refl
  take-nil (ℕ.suc n) = refl

  take-all : (n : ℕ) (xs : List A) → length xs ≤ n → take n xs ≡ xs
  take-all n [] h = take-nil n
  take-all ℕ.zero (x ∷ xs) h = ground arith
  take-all (ℕ.suc n) (x ∷ xs) h = ap (λ ys. x ∷ ys) (take-all n xs (omega arith))

-- What a dispatch takes is the first of both queues in a row.
served-take :
    (n : ℕ) (fg bg here : List Entry)
    → let (fg', (bg', here')) = served fg bg here in
      here' ++ take n (fg' ++ bg') ≡ here ++ take (ℕ.suc n) (fg ++ bg)
served-take n (x ∷ fg) bg here = append_assoc here (x ∷ []) (take n (fg ++ bg))
served-take n [] (x ∷ bg) here = append_assoc here (x ∷ []) (take n bg)
served-take n [] [] here = ap (λ xs. here ++ xs) (take-nil n)

append-entries_of :
    (test : ℕ → Bool) (slice p : ℕ) (ps : List ℕ) (xs ys zs : List Entry)
    → ys ≡ xs ++ entries_of test slice (p ∷ [])
    → zs ≡ ys ++ entries_of test slice ps
    → zs ≡ xs ++ entries_of test slice (p ∷ ps)
unfolding entries_of
append-entries_of test slice p ps xs ys zs first rest = elim (Bool-cases (test p)) [
  | inl holds ↦
      rw (rest, first, holds) (append_assoc xs ((p, slice) ∷ []) (entries_of test slice ps))
  | inr fails ↦ rw (rest, first, fails, append-nil xs)
]

-- Each task has one entry.
length-entries_of :
    (test : ℕ → Bool) (m n : ℕ) (ps : List ℕ)
    → length (entries_of (λ p. not (test p)) m ps ++ entries_of test n ps) ≡ length ps
unfolding entries_of
length-entries_of test m n [] = refl
length-entries_of test m n (p ∷ ps) = elim (Bool-cases (test p)) [
  | inl holds ↦ rw holds (
      omega (
        arith,
        length-entries_of test m n ps,
        length-append (entries_of (λ p. not (test p)) m ps) ((p, n) ∷ entries_of test n ps),
        length-append (entries_of (λ p. not (test p)) m ps) (entries_of test n ps),
      ))
  | inr fails ↦ rw fails (omega (arith, length-entries_of test m n ps))
]

module _ (scx : Scx) (fifo : IsFifo scx) (is_background : ℕ → Bool) where
  open scx use {State, queue}

  local-dispatch_rounds :
      (cpu n : ℕ) (s : State)
      → queue (local cpu) (dispatch_rounds scx is_background cpu n s)
        ≡ queue (local cpu) s ++ take n (fg_queue scx s ++ bg_queue scx s)
  unfolding dispatch_rounds
  local-dispatch_rounds cpu ℕ.zero s = sym (append-nil (queue (local cpu) s))
  local-dispatch_rounds cpu (ℕ.suc n) s =
      local-dispatch_rounds cpu n (dispatch scx is_background cpu s)
      ∙ ap (λ (fg, (bg, here)). here ++ take n (fg ++ bg))
          (dispatch-served scx fifo is_background cpu s)
      ∙ served-take n (fg_queue scx s) (bg_queue scx s) (queue (local cpu) s)

  queue-enqueue :
      (p : ℕ) (s : State)
      → let s' = enqueue scx is_background p s in
        (fg_queue scx s'
          ≡ fg_queue scx s ++ entries_of (λ p. not (is_background p)) foreground_slice_ns (p ∷ []))
        × ((bg_queue scx s'
              ≡ bg_queue scx s ++ entries_of is_background background_slice_ns (p ∷ []))
            × ((cpu : ℕ) → queue (local cpu) s' ≡ queue (local cpu) s))
  unfolding enqueue entries_of dsq_eq
  queue-enqueue p s = elim (Bool-cases (is_background p)) [
    | inl holds ↦ rw holds (
      fifo.queue-insert (user foreground_dsq) (user background_dsq) p background_slice_ns s
          ∙ sym (append-nil (fg_queue scx s)),
      (
        fifo.queue-insert (user background_dsq) (user background_dsq) p background_slice_ns s,
        λ cpu. fifo.queue-insert (local cpu) (user background_dsq) p background_slice_ns s,
      ),
    )
    | inr fails ↦ rw fails (
      fifo.queue-insert (user foreground_dsq) (user foreground_dsq) p foreground_slice_ns s,
      (
        fifo.queue-insert (user background_dsq) (user foreground_dsq) p foreground_slice_ns s
            ∙ sym (append-nil (bg_queue scx s)),
        λ cpu. fifo.queue-insert (local cpu) (user foreground_dsq) p foreground_slice_ns s,
      ),
    )
  ]

  queue-enqueue_all :
      (ps : List ℕ) (s : State)
      → (fg_queue scx (enqueue_all scx is_background ps s)
          ≡ fg_queue scx s ++ entries_of (λ p. not (is_background p)) foreground_slice_ns ps)
        × ((bg_queue scx (enqueue_all scx is_background ps s)
              ≡ bg_queue scx s ++ entries_of is_background background_slice_ns ps)
            × ((cpu : ℕ)
                → queue (local cpu) (enqueue_all scx is_background ps s) ≡ queue (local cpu) s))
  unfolding enqueue_all enqueue entries_of dsq_eq
  queue-enqueue_all [] s =
      (sym (append-nil (fg_queue scx s)), (sym (append-nil (bg_queue scx s)), λ cpu. refl))
  queue-enqueue_all (p ∷ ps) s =
      let (fg, (bg, here)) = queue-enqueue p s in
      let (fg', (bg', here')) = queue-enqueue_all ps (enqueue scx is_background p s) in
      (
        append-entries_of _ _ p ps _ _ _ fg fg',
        (append-entries_of _ _ p ps _ _ _ bg bg', λ cpu. here' cpu ∙ here cpu),
      )

  -- Tasks that are enqueued when both queues are empty, and then dispatched on a CPU with an empty
  -- queue, in at least as many rounds as there are tasks, run in this order: the foreground tasks as they came, each with the foreground slice, then the
  -- background tasks as they came, each with the background slice.
  pub local-dispatch_rounds-enqueue_all :
      (ps : List ℕ) (cpu n : ℕ) (s : State)
      → fg_queue scx s ≡ []
      → bg_queue scx s ≡ []
      → queue (local cpu) s ≡ []
      → length ps ≤ n
      → queue
          (local cpu)
          (dispatch_rounds scx is_background cpu n (enqueue_all scx is_background ps s))
        ≡ entries_of (λ p. not (is_background p)) foreground_slice_ns ps
          ++ entries_of is_background background_slice_ns ps
  local-dispatch_rounds-enqueue_all ps cpu n s no_fg no_bg idle h =
      let (fg, (bg, here)) = queue-enqueue_all ps s in
      local-dispatch_rounds cpu n (enqueue_all scx is_background ps s)
      ∙ rw (fg, bg, here cpu, no_fg, no_bg, idle)
          (take-all n _ (
            omega (
              arith,
              length-entries_of is_background foreground_slice_ns background_slice_ns ps,
              h,
            )))
