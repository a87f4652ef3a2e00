-- ===== src/Generator/Matching/Extraction.antt =====
-- The classifier of a manifest: dropping repeated prefixes changes no answer.
use schedcore.Prelude.{
  String, Bool, true, false, List, [], ◌∷◌, ◌&&◌, ◌||◌, ◌⊎◌, ◌≡◌, refl, arith, ◌==◌, contains,
  string_eq, nat_eq, option_eq, pair_eq, Bool-cases, inl, inr,
}
use schedcore.Prelude.Sorting.{any}
use schedcore.Prelude.Result.{Result, ok, raise, type_error, >>=-eq-ok, Result-cases, ok-injective}
use schedcore.Manifest.{Field, absent, null, value, Thread, Manifest, ident, get_default}
use schedcore.Prelude.Text.{count}
use schedcore.Generator.{
  Prefix, prefix_of, PrefixKey, slice, comm_tests, keep_new, read_prefix, extract_prefixes,
  extract_bg_prefixes, generate_scheduler,
}
use schedcore.Generator.Matching.{Buffer, all_hold, matches, any_matches}

-- The thread has the role and the buffer passes its check.
abbrev holds_for : Result Prefix → Buffer → Bool
holds_for (ok p) comm = matches p comm
holds_for (raise e) comm = false

abbrev pub thread_matches : String → Buffer → Thread → Bool
thread_matches role comm t = t.role == role && holds_for (read_prefix t) comm

abbrev is_null : Field String → Bool
is_null null = true
is_null f = false

abbrev key_matches : Buffer → PrefixKey → Bool
key_matches comm (prefix, length) = all_hold (comm_tests 0 (slice prefix length)) comm

any-contains :
    (comm : Buffer) (seen : List PrefixKey) (k : PrefixKey)
    → contains seen k ≡ true
    → any (key_matches comm) seen ≡ (key_matches comm k || any (key_matches comm) seen)
any-contains comm [] k h = ground arith
any-contains comm (j ∷ seen) k h = ground (arith, any-contains comm seen k)

module _ (role : String) (comm : Buffer) where
  -- What `ps` and the keys seen before it match is what the threads and those keys match.
  abbrev Covers : List Thread → List PrefixKey → List Prefix → Type 0
  Covers ts seen ps =
      (any_matches ps comm || any (key_matches comm) seen)
      ≡ (any (thread_matches role comm) ts || any (key_matches comm) seen)

  Covers-seen :
      (t : Thread) (p : Prefix) (ts : List Thread) (seen : List PrefixKey) (ps : List Prefix)
      → read_prefix t ≡ ok p
      → contains {A = PrefixKey} seen (p.prefix, p.length) ≡ true
      → Covers ts seen ps
      → Covers (t ∷ ts) seen ps
  unfolding matches
  Covers-seen t p ts seen ps e old c =
      rw e (ground (arith, any-contains comm seen (p.prefix, p.length) old))

  Covers-new :
      (t : Thread) (p : Prefix) (ts : List Thread) (seen : List PrefixKey) (ps : List Prefix)
      → (t.role == role) ≡ true
      → read_prefix t ≡ ok p
      → Covers ts ((p.prefix, p.length) ∷ seen) ps
      → Covers (t ∷ ts) seen (p ∷ ps)
  unfolding any_matches
  Covers-new t p ts seen ps r e c = rw (r, e) (ground arith)

  Covers-kept :
      (t : Thread) (p : Prefix) (ts : List Thread) (seen : List PrefixKey) (ps : List Prefix)
      → (t.role == role) ≡ true
      → read_prefix t ≡ ok p
      → ((seen' : List PrefixKey) (ps' : List Prefix)
          → extract_prefixes role ts seen' ≡ ok ps'
          → Covers ts seen' ps')
      → keep_new seen p (extract_prefixes role ts) ≡ ok ps
      → Covers (t ∷ ts) seen ps
  Covers-kept t p ts seen ps r e ih h =
      elim (Bool-cases (contains {A = PrefixKey} seen (p.prefix, p.length))) [
        | inl old ↦ Covers-seen t p ts seen ps e old (ih seen ps (rw old at h))
        | inr new ↦
            let k : PrefixKey = (p.prefix, p.length) in
            let (ps', e', same) = >>=-eq-ok (extract_prefixes role ts (k ∷ seen)) _ (rw new at h) in
            rw (← ok-injective _ _ same) (Covers-new t p ts seen ps' r e (ih (k ∷ seen) ps' e'))
      ]

  extract-Covers :
      (ts : List Thread) (seen : List PrefixKey) (ps : List Prefix)
      → extract_prefixes role ts seen ≡ ok ps
      → Covers ts seen ps
  unfolding extract_prefixes
  extract-Covers [] seen ps h = rw (← ok-injective [] ps h) (unfold any_matches in refl)
  extract-Covers (t ∷ ts) seen ps h = elim (Bool-cases (t.role == role)) [
    | inl r ↦ elim (Result-cases (read_prefix t)) [
      | inl (p, e) ↦ Covers-kept t p ts seen ps r e (extract-Covers ts) (rw (r, e) at h)
      | inr (x, e) ↦ cc (rw (r, e) at h)
    ]
    | inr r ↦ rw r (extract-Covers ts seen ps (rw r at h))
  ]

-- The prefixes extracted for a role, where repeated ones are dropped, pass a name exactly when
-- the entry of some thread with that role does.
pub extract_prefixes-matches :
    (role : String) (comm : Buffer) (ts : List Thread) (ps : List Prefix)
    → extract_prefixes role ts [] ≡ ok ps
    → any_matches ps comm ≡ any (thread_matches role comm) ts
extract_prefixes-matches role comm ts ps h = ground (arith, extract-Covers role comm ts [] ps h)

-- The thread has the role, and `null` for its prefix.
abbrev pub is_unreadable : String → Thread → Bool
is_unreadable role t = t.role == role && is_null (ident t).comm_prefix

keep_new-ok :
    (seen : List PrefixKey) (p : Prefix) (rest : List PrefixKey → Result (List Prefix))
    → ((seen' : List PrefixKey) → (ps : List Prefix) × (rest seen' ≡ ok ps))
    → (ps : List Prefix) × (keep_new seen p rest ≡ ok ps)
keep_new-ok seen p rest total =
    elim (Bool-cases (contains {A = PrefixKey} seen (p.prefix, p.length))) [
      | inl old ↦ let (ps, e) = total seen in (ps, rw old e)
      | inr new ↦ let (ps, e) = total ((p.prefix, p.length) ∷ seen) in (p ∷ ps, rw (new, e))
    ]

keep_new-raise :
    (seen : List PrefixKey) (p : Prefix) (rest : List PrefixKey → Result (List Prefix))
    → ((seen' : List PrefixKey) → rest seen' ≡ raise type_error)
    → keep_new seen p rest ≡ raise type_error
keep_new-raise seen p rest fails =
    elim (Bool-cases (contains {A = PrefixKey} seen (p.prefix, p.length))) [
      | inl old ↦ rw old (fails seen)
      | inr new ↦ rw (new, fails ((p.prefix, p.length) ∷ seen))
    ]

read_field :
    (f : Field String)
    → ((is_null f ≡ true) × (prefix_of f ≡ raise type_error))
      ⊎ ((s : String) × (is_null f ≡ false) × (prefix_of f ≡ ok s))
read_field absent = inr ("", refl, refl)
read_field null = inl (refl, refl)
read_field (value s) = inr (s, refl, refl)

read_prefix-cases :
    (t : Thread)
    → ((is_null (ident t).comm_prefix ≡ true) × (read_prefix t ≡ raise type_error))
      ⊎ ((p : Prefix) × (is_null (ident t).comm_prefix ≡ false) × (read_prefix t ≡ ok p))
unfolding read_prefix
read_prefix-cases t = elim (read_field (ident t).comm_prefix) [
  | inl (n, e) ↦ inl (n, rw e)
  | inr (s, n, e) ↦ inr (
    record {
      prefix = s;
      length = get_default (count s) (ident t).comm_length;
      name_pattern = t.name_pattern;
    },
    n,
    rw e,
  )
]

extract_prefixes-cases :
    (role : String) (ts : List Thread) (seen : List PrefixKey)
    → (any (is_unreadable role) ts ≡ false
        → (ps : List Prefix) × (extract_prefixes role ts seen ≡ ok ps))
      × (any (is_unreadable role) ts ≡ true → extract_prefixes role ts seen ≡ raise type_error)
unfolding extract_prefixes
extract_prefixes-cases role [] seen = (λ h. ([], refl), λ h. cc)
extract_prefixes-cases role (t ∷ ts) seen = elim (Bool-cases (t.role == role)) [
  | inr r ↦ rw r (extract_prefixes-cases role ts seen)
  | inl r ↦ elim (read_prefix-cases t) [
    | inl (n, e) ↦ rw (r, n, e) (λ h. cc, λ h. refl)
    | inr (p, n, e) ↦
        rw (r, n, e)
          (
            λ h. keep_new-ok seen p _ (λ seen'. (extract_prefixes-cases role ts seen').0 h),
            λ h. keep_new-raise seen p _ (λ seen'. (extract_prefixes-cases role ts seen').1 h),
          )
  ]
]

-- Where no thread of the role has `null` for its prefix, the extraction returns a list.
pub extract_prefixes-total :
    (role : String) (ts : List Thread) (seen : List PrefixKey)
    → any (is_unreadable role) ts ≡ false
    → (ps : List Prefix) × (extract_prefixes role ts seen ≡ ok ps)
extract_prefixes-total role ts seen h = (extract_prefixes-cases role ts seen).0 h

-- A manifest with such a background thread, as the schema allows for threads found by a uprobe,
-- makes the generator fail by a TypeError, whatever the pattern.
pub generate_scheduler-raises :
    (m : Manifest) (pattern sched_name : String)
    → any (is_unreadable "background") m.threads ≡ true
    → generate_scheduler m pattern sched_name ≡ raise type_error
unfolding generate_scheduler extract_bg_prefixes
generate_scheduler-raises m pattern sched_name h =
    rw ((extract_prefixes-cases "background" m.threads []).1 h)
