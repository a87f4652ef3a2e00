-- ===== src/Generator/Matching/Prefixes.antt =====
-- The comparisons test for a prefix.
use Prim.Native.Char.{nul}
use schedcore.Prelude.{
  ℕ, suc, ◌+◌, ◌<◌, ◌≤◌, String, Bool, false, List, [], ◌∷◌, ◌&&◌, ◌||◌, ◌≡◌, refl, arith, ◌==◌,
  char_eq, none, some, All, ap, true,
}
use schedcore.Prelude.Sorting.{any}
use schedcore.Prelude.Text.{count, starts_with}
use schedcore.Generator.{Prefix, checked, comm_tests}
use schedcore.Generator.Matching.{
  Buffer, copied, all_hold, all_plain, is_valid_c, matches, any_matches, is_background_task,
}

abbrev pub has_nul : String → Bool
has_nul String.[] = false
has_nul (String.◌∷◌ c s) = nul == c || has_nul s

all_hold-shift :
    (i : ℕ) (s : String) (comm : Buffer)
    → all_hold (comm_tests (suc i) s) comm ≡ all_hold (comm_tests i s) (λ j. comm (suc j))
unfolding all_hold comm_tests
all_hold-shift i String.[] comm = refl
all_hold-shift i (String.◌∷◌ c s) comm =
    ap (λ b. comm (suc i) == c && b) (all_hold-shift (suc i) s comm)

all_hold-copied :
    (s name : String) (old : Buffer)
    → has_nul s ≡ false
    → all_hold (comm_tests 0 s) (copied name old) ≡ starts_with name s
unfolding all_hold comm_tests copied starts_with
all_hold-copied String.[] name old h = refl
all_hold-copied (String.◌∷◌ c s) String.[] old h = ground arith
all_hold-copied (String.◌∷◌ c s) (String.◌∷◌ d name) old h = ground (
  arith,
  all_hold-shift 0 s (copied (String.◌∷◌ d name) old),
  all_hold-copied s name (λ j. old (suc j)),
)

-- The check of one prefix holds for a name exactly when the name starts with the checked
-- characters, whatever lies in the buffer behind the name.
pub matches-copied :
    (p : Prefix) (name : String) (old : Buffer)
    → has_nul (checked p) ≡ false
    → matches p (copied name old) ≡ starts_with name (checked p)
unfolding matches
matches-copied p name old h = all_hold-copied (checked p) name old h

any_matches-copied :
    (ps : List Prefix) (name : String) (old : Buffer)
    → All (λ p. has_nul (checked p) ≡ false) ps
    → any_matches ps (copied name old) ≡ any (λ p. starts_with name (checked p)) ps
unfolding any_matches
any_matches-copied [] name old h = refl
any_matches-copied (p ∷ ps) name old (h, hs) =
    ground (arith, matches-copied p name old h, any_matches-copied ps name old hs)

has_nul-plain : (s : String) → all_plain s ≡ true → has_nul s ≡ false
unfolding all_plain char_eq
has_nul-plain String.[] h = refl
has_nul-plain (String.◌∷◌ c s) h = ground (arith, has_nul-plain s (ground arith))

has_nul-is_valid_c :
    (ps : List Prefix)
    → All (λ p. is_valid_c p ≡ true) ps
    → All (λ p. has_nul (checked p) ≡ false) ps
unfolding is_valid_c
has_nul-is_valid_c [] h = tt
has_nul-is_valid_c (p ∷ ps) (h, hs) =
    (has_nul-plain (checked p) (ground arith), has_nul-is_valid_c ps hs)

-- If the lines that are written for every prefix are valid C (the checked characters of a prefix are at least one and at most 16, all are printable ASCII and neither a quote nor a backslash, and the pattern and the prefix do not close the comment they are written in), the generated classifier says background for exactly the readable names that start with the checked characters of one of the prefixes, whatever lies in the buffer behind the name, and not for a name that cannot be read.
pub is_background_task-exact :
    (ps : List Prefix) (name : String) (old : Buffer)
    → All (λ p. is_valid_c p ≡ true) ps
    → (is_background_task ps (some name) old ≡ any (λ p. starts_with name (checked p)) ps)
      × (is_background_task ps none old ≡ false)
unfolding is_background_task
is_background_task-exact ps name old h =
    (any_matches-copied ps name old (has_nul-is_valid_c ps h), refl)

tests_below : (n i : ℕ) (s : String) → i + count s ≤ n → All (λ test. test.0 < n) (comm_tests i s)
unfolding comm_tests
tests_below n i String.[] h = tt
tests_below n i (String.◌∷◌ c s) h = (omega arith, tests_below n (suc i) s (omega arith))

-- A prefix of at most 16 characters reads inside the buffer, which has 16 bytes.
pub comm_tests_bounds :
    (p : Prefix) → count (checked p) ≤ 16 → All (λ test. test.0 < 16) (comm_tests 0 (checked p))
comm_tests_bounds p h = tests_below 16 0 (checked p) (omega arith)
