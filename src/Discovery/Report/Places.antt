-- ===== src/Discovery/Report/Places.antt =====
-- The lists of the report after deduplication.
use schedcore.Prelude.{
  ◌≡◌, refl, true, false, ◌||◌, Option, none, some, List, [], ◌∷◌, arith, ◌==◌, string_eq, nat_eq,
  pair_eq, contains, if◌then◌else◌,
}
use schedcore.Prelude.Sorting.{Distinct}
use schedcore.Discovery.Entry.{Place, place_of_name, place_of_create, places}
use schedcore.Discovery.Report.{deduped, Report, deduplicate}

module _ {ℓ} {A : Type ℓ} (place : A → Place) where
  -- The first entry of a place.
  abbrev pub first_at : Place → List A → Option A
  first_at p [] = none
  first_at p (entry ∷ entries) = if p == place entry then some entry else first_at p entries

  -- The loop keeps the set of places.
  pub contains-places-deduped :
      (seen : List Place) (entries : List A) (p : Place)
      → (contains (places place (deduped place seen entries)) p || contains seen p)
        ≡ (contains (places place entries) p || contains seen p)
  unfolding places deduped
  contains-places-deduped seen [] p = refl
  contains-places-deduped seen (entry ∷ entries) p = ground (
    arith,
    contains-places-deduped seen entries p,
    contains-places-deduped (place entry ∷ seen) entries p,
  )

  deduped-unseen :
      (seen : List Place) (entries : List A) (p : Place)
      → contains seen p ≡ true
      → contains (places place (deduped place seen entries)) p ≡ false
  unfolding places deduped
  deduped-unseen seen [] p known = refl
  deduped-unseen seen (entry ∷ entries) p known =
      ground (arith, deduped-unseen seen entries p, deduped-unseen (place entry ∷ seen) entries p)

  deduped-Distinct :
      (seen : List Place) (entries : List A) → Distinct (places place (deduped place seen entries))
  unfolding places deduped
  deduped-Distinct seen [] = tt
  deduped-Distinct seen (entry ∷ entries) = ground (
    arith,
    deduped-Distinct seen entries,
    deduped-Distinct (place entry ∷ seen) entries,
    deduped-unseen (place entry ∷ seen) entries (place entry),
  )

  first_at-deduped :
      (seen : List Place) (entries : List A) (p : Place)
      → contains seen p ≡ false
      → first_at p (deduped place seen entries) ≡ first_at p entries
  unfolding deduped
  first_at-deduped seen [] p fresh = refl
  first_at-deduped seen (entry ∷ entries) p fresh =
      ground
        (arith, first_at-deduped seen entries p, first_at-deduped (place entry ∷ seen) entries p)

-- After deduplication no two namings, and no two creations, stand at one place, and each place has
-- the entry that was found there first.
pub deduplicate-first :
    (r : Report) (p : Place)
    → Distinct (places place_of_name (deduplicate r).thread_names)
      × Distinct (places place_of_create (deduplicate r).thread_creates)
      × (first_at place_of_name p (deduplicate r).thread_names
          ≡ first_at place_of_name p r.thread_names)
      × (first_at place_of_create p (deduplicate r).thread_creates
          ≡ first_at place_of_create p r.thread_creates)
unfolding deduplicate
deduplicate-first r p = (
  deduped-Distinct place_of_name [] r.thread_names,
  deduped-Distinct place_of_create [] r.thread_creates,
  first_at-deduped place_of_name [] r.thread_names p refl,
  first_at-deduped place_of_create [] r.thread_creates p refl,
)
