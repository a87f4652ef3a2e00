-- ===== src/Verify/Lookups.antt =====
-- What `normalize_threads` puts into its two dicts.
use schedcore.Prelude.{
  ◌≡◌, refl, Bool, false, Option, none, some, List, [], ◌∷◌, ◌&&◌, ◌||◌, not, arith, ◌==◌,
  string_eq, nat_eq, option_eq, pair_eq, if◌then◌else◌,
}
use schedcore.Prelude.Dict.{keys, has_key, has_key-insert, lookup, lookup-insert}
use schedcore.Manifest.{Thread, Manifest, is_background}
use schedcore.Verify.{Key, key_of, Lookup, add_thread, add_threads, normalize_threads}
use schedcore.Prelude.Sorting.{Distinct}
use schedcore.Verify.Sets.{insert-Distinct}

-- Some thread of the list has the key and the role.
abbrev pub named_background : Key → List Thread → Bool
named_background k [] = false
named_background k (t ∷ ts) = (is_background t && k == key_of t) || named_background k ts

abbrev pub named_foreground : Key → List Thread → Bool
named_foreground k [] = false
named_foreground k (t ∷ ts) = (not (is_background t) && k == key_of t) || named_foreground k ts

-- The last thread of the list with the key and the role `background`, else `found`.
abbrev pub last_background : Key → Option Thread → List Thread → Option Thread
last_background k found [] = found
last_background k found (t ∷ ts) =
    last_background k (if is_background t && k == key_of t then some t else found) ts

has_key-add_threads_bg :
    (k : Key) (l : Lookup) (ts : List Thread)
    → has_key k (add_threads l ts).bg ≡ (has_key k l.bg || named_background k ts)
unfolding add_threads add_thread
has_key-add_threads_bg k l [] = ground arith
has_key-add_threads_bg k l (t ∷ ts) =
    ground (arith, has_key-add_threads_bg k (add_thread l t) ts, has_key-insert k (key_of t) t l.bg)

has_key-add_threads_fg :
    (k : Key) (l : Lookup) (ts : List Thread)
    → has_key k (add_threads l ts).fg ≡ (has_key k l.fg || named_foreground k ts)
unfolding add_threads add_thread
has_key-add_threads_fg k l [] = ground arith
has_key-add_threads_fg k l (t ∷ ts) =
    ground (arith, has_key-add_threads_fg k (add_thread l t) ts, has_key-insert k (key_of t) t l.fg)

lookup-add_threads :
    (k : Key) (l : Lookup) (ts : List Thread)
    → lookup k (add_threads l ts).bg ≡ last_background k (lookup k l.bg) ts
unfolding add_threads add_thread
lookup-add_threads k l [] = refl
lookup-add_threads k l (t ∷ ts) =
    ground (arith, lookup-add_threads k (add_thread l t) ts, lookup-insert k (key_of t) t l.bg)

-- The background dict has a key exactly when some background thread of the manifest has it, and
-- its value is the last such thread; the other dict has the keys of all other threads.
pub normalize_threads-keys :
    (m : Manifest) (k : Key)
    → (has_key k (normalize_threads m).bg ≡ named_background k m.threads)
      × (lookup k (normalize_threads m).bg ≡ last_background k none m.threads)
      × (has_key k (normalize_threads m).fg ≡ named_foreground k m.threads)
unfolding normalize_threads has_key lookup
normalize_threads-keys m k = (
  has_key-add_threads_bg k (record { bg = []; fg = [] }) m.threads,
  lookup-add_threads k (record { bg = []; fg = [] }) m.threads,
  has_key-add_threads_fg k (record { bg = []; fg = [] }) m.threads,
)

pub record IsDistinct (l : Lookup) : Type 0 where
  pub bg : Distinct (keys l.bg)
  pub fg : Distinct (keys l.fg)

add_thread-IsDistinct : (l : Lookup) (t : Thread) → IsDistinct l → IsDistinct (add_thread l t)
unfolding add_thread
add_thread-IsDistinct l t h =
    ground (arith, insert-Distinct (key_of t) t l.bg h.bg, insert-Distinct (key_of t) t l.fg h.fg)

add_threads-IsDistinct :
    (l : Lookup) (ts : List Thread) → IsDistinct l → IsDistinct (add_threads l ts)
unfolding add_threads
add_threads-IsDistinct l [] h = h
add_threads-IsDistinct l (t ∷ ts) h =
    add_threads-IsDistinct (add_thread l t) ts (add_thread-IsDistinct l t h)

-- Threads that share a key are counted once.
pub normalize_threads-IsDistinct : (m : Manifest) → IsDistinct (normalize_threads m)
unfolding normalize_threads keys
normalize_threads-IsDistinct m =
    add_threads-IsDistinct (record { bg = []; fg = [] }) m.threads (record { bg = tt; fg = tt })
