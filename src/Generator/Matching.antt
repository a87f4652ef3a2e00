-- ===== src/Generator/Matching.antt =====
-- What the generated comparisons decide. `comm` is the buffer of 16 bytes into which the kernel
-- copies the name of a task with its NUL; the bytes behind the NUL are whatever was there.
pub mod Prefixes
pub mod Extraction
pub mod Caching
use Prim.Native.Char.{nul}
use schedcore.Prelude.{
  ℕ, zero, suc, ◌+◌, ◌<◌, ◌≤◌, String, Char, Bool, true, false, List, [], ◌∷◌, ◌&&◌, ◌||◌, ◌≡◌,
  refl, ◌∙◌, arith, ◌==◌, char_eq, if◌then◌else◌, length, Option, none, some, All, ltb, not, code,
}
use schedcore.Prelude.Text.{count, starts_with}
use schedcore.Prelude.Split.{has_part}
use schedcore.Generator.{Prefix, checked, comm_tests}

abbrev pub Buffer : Type 0
Buffer = ℕ → Char

-- The buffer after a name was copied over `old`.
unfoldable pub copied : String → Buffer → Buffer
copied String.[] old zero = nul
copied String.[] old (suc i) = old (suc i)
copied (String.◌∷◌ c s) old zero = c
copied (String.◌∷◌ c s) old (suc i) = copied s (λ j. old (suc j)) i

-- `comm[i] == 'c' && …`
unfoldable pub all_hold : List (ℕ × Char) → Buffer → Bool
all_hold [] comm = true
all_hold ((i, c) ∷ tests) comm = comm i == c && all_hold tests comm

-- `'{ch}'` is a character constant for the one byte of the character: it is printable ASCII, and
-- neither a quote nor a backslash.
abbrev is_plain : Char → Bool
is_plain c = (ltb 31 (code c) && ltb (code c) 127) && (not (c == "'") && not (c == "\\"))

unfoldable pub all_plain : String → Bool
all_plain String.[] = true
all_plain (String.◌∷◌ c s) = is_plain c && all_plain s

abbrev pub some_plain : String → Bool
some_plain s = ltb 0 (count s) && all_plain s

-- The lines of one prefix are valid C: the condition is not empty, every character is a constant of
-- one byte, no byte behind the 16 of `comm` is read, and nothing in the comment above the `if` closes
-- the comment.
unfoldable pub is_valid_c : Prefix → Bool
unfolding all_plain
is_valid_c p =
    (some_plain (checked p) && ltb (count (checked p)) 17)
    && (not (has_part "*/" p.name_pattern) && not (has_part "*/" p.prefix))

-- What the `if` of one prefix decides, if its lines are valid C. (For no checked character the text
-- is `if ()`, and no program comes of it.)
unfoldable pub matches : Prefix → Buffer → Bool
unfolding all_hold comm_tests
matches p comm = all_hold (comm_tests 0 (checked p)) comm

unfoldable pub any_matches : List Prefix → Buffer → Bool
unfolding matches
any_matches [] comm = false
any_matches (p ∷ ps) comm = if matches p comm then true else any_matches ps comm

-- `is_<name>_background`: the name, or `none` where the kernel could not read it.
unfoldable pub is_background_task : List Prefix → Option String → Buffer → Bool
unfolding any_matches
is_background_task bg none old = false
is_background_task bg (some name) old = any_matches bg (copied name old)

pub data TaskClass : Type 0 where
  task_unknown task_foreground task_cpu_hog task_normal : TaskClass

-- The first reading of `classify_task`: foreground patterns, then background patterns.
unfoldable pub first_class : List Prefix → List Prefix → Option String → Buffer → TaskClass
unfolding any_matches
first_class bg fg none old = task_normal
first_class bg fg (some name) old =
    if any_matches fg (copied name old)
    then task_foreground
    else if any_matches bg (copied name old)
    then task_cpu_hog
    else task_normal

-- `classify_task` with its cell of task storage: `none` if the task has none. `can_create` says
-- whether the kernel could make one. The result, and the cell afterwards.
unfoldable pub classify_task :
    List Prefix
    → List Prefix
    → Option TaskClass
    → Bool
    → Option String
    → Buffer
    → TaskClass × Option TaskClass
unfolding first_class
classify_task bg fg (some task_foreground) can_create name old =
    (task_foreground, some task_foreground)
classify_task bg fg (some task_cpu_hog) can_create name old = (task_cpu_hog, some task_cpu_hog)
classify_task bg fg (some task_normal) can_create name old = (task_normal, some task_normal)
classify_task bg fg (some task_unknown) can_create name old =
    (first_class bg fg name old, some (first_class bg fg name old))
classify_task bg fg none can_create name old =
    (first_class bg fg name old, if can_create then some (first_class bg fg name old) else none)
