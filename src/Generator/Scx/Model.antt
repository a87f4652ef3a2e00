-- ===== src/Generator/Scx/Model.antt =====
-- A value of the interface: queues as lists. It shows that the laws can hold.
use schedcore.Prelude.{ℕ, Bool, true, false, List, [], ◌∷◌, ◌++◌, refl, arith, ◌==◌, if◌then◌else◌}
use schedcore.Generator.Scx.{Dsq, local, dsq_eq, Entry, Scx, IsFifo}

pub record Queues : Type 0 where
  pub queue : Dsq → List Entry
  pub kicks : List ℕ

abbrev put : Dsq → List Entry → (Dsq → List Entry) → Dsq → List Entry
put d xs q e = if e == d then xs else q e

abbrev move : ℕ → Dsq → List Entry → Queues → Bool × Queues
move cpu d [] s = (false, s)
move cpu d (x ∷ xs) s = (
  true,
  record s { queue = put d xs (put (local cpu) (s.queue (local cpu) ++ (x ∷ [])) s.queue) },
)

abbrev pub queues : Scx
queues = record {
  State = Queues;
  queue = λ d s. s.queue d;
  kicks = λ s. s.kicks;
  insert = λ d task slice s. record s { queue = put d (s.queue d ++ ((task, slice) ∷ [])) s.queue };
  move_to_local = λ cpu d s. move cpu d (s.queue d) s;
  kick_cpu = λ cpu s. record s { kicks = cpu ∷ s.kicks };
  create_dsq = λ d s. (0, s);
}

abbrev pub idle_queues : Queues
idle_queues = record { queue = λ d. []; kicks = [] }

pub queues-IsFifo : IsFifo queues
queues-IsFifo = record {
  queue-insert = λ d e task slice s. ground arith;
  move-empty = λ cpu id s h. rw h;
  move-taken = λ cpu id s x xs h. rw h;
  queue-move = λ cpu id s x xs d h. rw h (ground arith);
  queue-kick = λ d cpu s. refl;
  kicks-kick = λ cpu s. refl;
  kicks-insert = λ d task slice s. refl;
}
