-- ===== src/Generator/Matching/Caching.antt =====
-- The cached classification of the asymmetric pattern.
use schedcore.Prelude.{
  Option, none, some, String, Bool, true, List, ◌≡◌, refl, inl, inr, Bool-cases,
}
use schedcore.Generator.{Prefix}
use schedcore.Generator.Matching.{
  Buffer, TaskClass, task_unknown, copied, any_matches, first_class, classify_task,
}

module _ (bg fg : List Prefix) where
  abbrev remembered : TaskClass → Bool → Option String → Buffer → TaskClass × Option TaskClass
  remembered c can_create name old = classify_task bg fg (some c) can_create name old

  remembered-first :
      (name name' : Option String) (old old' : Buffer) (can_create : Bool)
      → remembered (first_class bg fg name old) can_create name' old'
        ≡ (first_class bg fg name old, some (first_class bg fg name old))
  remembered-first none name' old old' b = unfold first_class classify_task in refl
  remembered-first (some name) name' old old' b =
      elim (Bool-cases (any_matches fg (copied name old))) [
        | inl f ↦ unfold first_class classify_task in rw f
        | inr f ↦ elim (Bool-cases (any_matches bg (copied name old))) [
          | inl h ↦ unfold first_class classify_task in rw (f, h)
          | inr h ↦ unfold first_class classify_task in rw (f, h)
        ]
      ]

  -- Once the kernel has made the cell of a task, every later call returns the class that was
  -- found first and leaves the cell alone, whatever the name of the task has become.
  pub classify_task-stable :
      (cell : Option TaskClass) (name name' : Option String) (old old' : Buffer) (can_create : Bool)
      → let r = classify_task bg fg cell true name old in
        classify_task bg fg r.1 can_create name' old' ≡ (r.0, r.1)
  classify_task-stable none name name' old old' b =
      unfold classify_task in remembered-first name name' old old' b
  classify_task-stable (some task_unknown) name name' old old' b =
      unfold classify_task in remembered-first name name' old old' b
  classify_task-stable (some c) name name' old old' b = unfold classify_task in refl
