-- ===== src/Prelude/Dict.antt =====
-- Dicts in insertion order, and the sets of their keys.
use schedcore.Prelude.{
  ◌≡◌, refl, ◌≢◌, ◌↔◌, Bool, true, Option, none, some, List, [], ◌∷◌, arith, Eq, ◌==◌, contains,
  is_some, if◌then◌else◌,
}

abbrev pub Dict {ℓ κ} : Type ℓ → Type κ → Type (ℓ ⊔ κ)
Dict K V = List (K × V)

unfoldable pub keys {ℓ κ} : {K : Type ℓ} {V : Type κ} → Dict K V → List K
keys [] = []
keys ((k, v) ∷ d) = k ∷ keys d

module _ {ℓ κ} {K : Type ℓ} {V : Type κ} ⦃e : Eq K⦄ where
  -- `d.get(k)`
  unfoldable pub lookup : K → Dict K V → Option V
  lookup k [] = none
  lookup k ((j, v) ∷ d) = if k == j then some v else lookup k d

  -- `d[k] = v`
  unfoldable pub insert : K → V → Dict K V → Dict K V
  insert k v [] = (k, v) ∷ []
  insert k v ((j, w) ∷ d) = if k == j then (j, v) ∷ d else (j, w) ∷ insert k v d

  -- `k in d`
  unfoldable pub has_key : K → Dict K V → Bool
  unfolding keys
  has_key k d = contains (keys d) k

  pub has_key-insert :
      (j k : K) (v : V) (d : Dict K V)
      → has_key j (insert k v d) ≡ (if j == k then true else has_key j d)
  unfolding has_key insert
  has_key-insert j k v [] = ground arith
  has_key-insert j k v ((i, w) ∷ d) = ground (arith, has_key-insert j k v d)

  pub lookup-insert :
      (j k : K) (v : V) (d : Dict K V)
      → lookup j (insert k v d) ≡ (if j == k then some v else lookup j d)
  unfolding insert lookup
  lookup-insert j k v [] = ground arith
  lookup-insert j k v ((i, w) ∷ d) = ground (arith, lookup-insert j k v d)

  -- a key is there exactly when it has a value
  pub has_key_iff : (k : K) (d : Dict K V) → (has_key k d ≡ true) ↔ (lookup k d ≢ none)
  unfolding has_key lookup
  has_key_iff k [] = (λ h. cc, λ h. absurd (h refl))
  has_key_iff k ((j, v) ∷ d) = ground (arith, has_key_iff k d)

  pub has_key-is_some : (k : K) (d : Dict K V) → is_some (lookup k d) ≡ has_key k d
  unfolding has_key lookup keys
  has_key-is_some k [] = refl
  has_key-is_some k ((j, v) ∷ d) = ground (arith, has_key-is_some k d)
