-- ===== src/Generator/DualDsq/Liveness.antt =====
-- No foreground task waits forever, and background tasks wait for it.
use schedcore.Prelude.{
  ℕ, zero, suc, ◌≤◌, Bool, true, false, List, [], ◌∷◌, ◌++◌, ◌≡◌, refl, arith, get_elem?, some,
  some-injective, Bool-cases, inl, inr, contains, nat_eq, pair_eq, ◌||◌,
}
use schedcore.Generator.DualDsq.Refinement.{
  Callback, wake, wait, idle, Lines, entry_of, appended, serve, promised, promised_all, called_all,
  called_all-Implements,
}
use schedcore.Generator.DualDsq.{foreground_dsq, background_dsq, foreground_slice_ns}
use schedcore.Generator.Scx.{Scx, Entry, IsFifo, local, user}

-- How often a CPU had nothing to run.
abbrev pub idle_times : List Callback → ℕ
idle_times [] = 0
idle_times (wake p cpu is_idle ∷ cs) = idle_times cs
idle_times (wait p ∷ cs) = idle_times cs
idle_times (idle cpu ∷ cs) = suc (idle_times cs)

contains-append :
    (xs ys : List Entry) (a : Entry) → contains (xs ++ ys) a ≡ (contains xs a || contains ys a)
contains-append [] ys a = refl
contains-append (x ∷ xs) ys a = ground (arith, contains-append xs ys a)

-- The entry is in the line of some CPU.
pub record OnCpu (entry : Entry) (l : Lines) : Type 0 where
  pub cpu : ℕ
  pub listed : contains (l.on_cpu cpu) entry ≡ true

contains-appended :
    (cpu c : ℕ) (x entry : Entry) (lines : ℕ → List Entry)
    → contains (lines c) entry ≡ true
    → contains (appended cpu x lines c) entry ≡ true
contains-appended cpu c x entry lines h = ground (arith, contains-append (lines c) (x ∷ []) entry)

serve-OnCpu :
    (cpu : ℕ) (l : Lines) (fg bg : List Entry) (entry : Entry)
    → OnCpu entry l
    → OnCpu entry (serve cpu l fg bg)
serve-OnCpu cpu l (x ∷ fg) bg entry h = record {
  cpu = h.cpu;
  listed = contains-appended cpu h.cpu x entry l.on_cpu h.listed;
}
serve-OnCpu cpu l [] (x ∷ bg) entry h = record {
  cpu = h.cpu;
  listed = contains-appended cpu h.cpu x entry l.on_cpu h.listed;
}
serve-OnCpu cpu l [] [] entry h = h

get_elem?-append :
    (xs ys : List Entry) (n : ℕ) (x : Entry)
    → get_elem? xs n ≡ some x
    → get_elem? (xs ++ ys) n ≡ some x
get_elem?-append [] ys n x h = cc
get_elem?-append (y ∷ xs) ys zero x h = h
get_elem?-append (y ∷ xs) ys (suc n) x h = get_elem?-append xs ys n x h

module _ (is_background : ℕ → Bool) where
  promised-OnCpu :
      (c : Callback) (l : Lines) (entry : Entry)
      → OnCpu entry l
      → OnCpu entry (promised is_background c l)
  unfolding promised
  promised-OnCpu (wake p cpu true) l entry h = record {
    cpu = h.cpu;
    listed = contains-appended cpu h.cpu (entry_of is_background p) entry l.on_cpu h.listed;
  }
  promised-OnCpu (wake p cpu false) l entry h = h
  promised-OnCpu (wait p) l entry h = elim (Bool-cases (is_background p)) [
    | inl holds ↦ rw holds (record { cpu = h.cpu; listed = h.listed })
    | inr fails ↦ rw fails (record { cpu = h.cpu; listed = h.listed })
  ]
  promised-OnCpu (idle cpu) l entry h = serve-OnCpu cpu l l.foreground l.background entry h

  promised_all-OnCpu :
      (cs : List Callback) (l : Lines) (entry : Entry)
      → OnCpu entry l
      → OnCpu entry (promised_all is_background cs l)
  unfolding promised_all
  promised_all-OnCpu [] l entry h = h
  promised_all-OnCpu (c ∷ cs) l entry h =
      promised_all-OnCpu cs (promised is_background c l) entry (promised-OnCpu c l entry h)

  abbrev Waits : ℕ → Entry → List Callback → Lines → Type 0
  Waits n entry cs l =
      get_elem? l.foreground n ≡ some entry
      → suc n ≤ idle_times cs
      → OnCpu entry (promised_all is_background cs l)

  -- A dispatch takes the entry if it is the first one, else it moves up by one.
  serve-Waits :
      (cpu : ℕ) (cs : List Callback) (l : Lines) (fg bg : List Entry) (n : ℕ) (entry : Entry)
      → ((l' : Lines) (m : ℕ) → Waits m entry cs l')
      → get_elem? fg n ≡ some entry
      → suc n ≤ suc (idle_times cs)
      → OnCpu entry (promised_all is_background cs (serve cpu l fg bg))
  serve-Waits cpu cs l [] bg n entry later at enough = cc
  serve-Waits cpu cs l (x ∷ fg) bg zero entry later at enough =
      promised_all-OnCpu cs (serve cpu l (x ∷ fg) bg) entry (record {
        cpu = cpu;
        listed =
            ground
              (arith, some-injective x entry at, contains-append (l.on_cpu cpu) (x ∷ []) entry);
      })
  serve-Waits cpu cs l (x ∷ fg) bg (suc n) entry later at enough =
      later (serve cpu l (x ∷ fg) bg) n at (omega arith)

  promised_all-Waits : (cs : List Callback) (l : Lines) (n : ℕ) (entry : Entry) → Waits n entry cs l
  unfolding promised_all promised
  promised_all-Waits [] l n entry at enough = absurd (omega arith)
  promised_all-Waits (wake p cpu true ∷ cs) l n entry at enough =
      promised_all-Waits cs (promised is_background (wake p cpu true) l) n entry at enough
  promised_all-Waits (wake p cpu false ∷ cs) l n entry at enough =
      promised_all-Waits cs l n entry at enough
  promised_all-Waits (wait p ∷ cs) l n entry at enough =
      promised_all-Waits cs (promised is_background (wait p) l) n entry
        (elim (Bool-cases (is_background p)) [
          | inl holds ↦ rw (holds, at)
          | inr fails ↦
              rw fails (get_elem?-append l.foreground ((p, foreground_slice_ns) ∷ []) n entry at)
        ])
        enough
  promised_all-Waits (idle cpu ∷ cs) l n entry at enough =
      serve-Waits cpu cs l l.foreground l.background n entry
        (λ l' m. promised_all-Waits cs l' m entry) at enough

module _ (scx : Scx) (fifo : IsFifo scx) (is_background : ℕ → Bool) where
  -- A foreground task that waits behind `n` others is in the queue of some CPU once CPUs have had
  -- nothing to run `n + 1` times, whatever other callbacks come in between.
  pub foreground-OnCpu :
      (cs : List Callback) (s : scx.State) (n : ℕ) (entry : Entry)
      → get_elem? (scx.queue (user foreground_dsq) s) n ≡ some entry
      → suc n ≤ idle_times cs
      → (cpu : ℕ) × (contains (scx.queue (local cpu) (called_all scx is_background cs s)) entry
          ≡ true)
  foreground-OnCpu cs s n entry at enough =
      let l : Lines = record {
        foreground = scx.queue (user foreground_dsq) s;
        background = scx.queue (user background_dsq) s;
        on_cpu = λ cpu. scx.queue (local cpu) s;
      } in
      let held =
        called_all-Implements scx fifo is_background cs s l
          (record { foreground = refl; background = refl; on_cpu = λ cpu. refl }) in
      let served = promised_all-Waits is_background cs l n entry at enough in
      (served.cpu, rw (held.on_cpu served.cpu) served.listed)
