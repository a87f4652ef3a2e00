-- ===== src/Prelude/Sorting.antt =====
-- `sorted` and `set` of Python: a stable insertion sort by a test `lt`, and the distinct members.
use Prim.Native.Nat.{Ordering}
use Prim.Native.String.{compare}
use schedcore.Prelude.{
  ◌+◌, String, Bool, true, false, List, [], ◌∷◌, ◌≡◌, refl, sym, ◌∙◌, ◌==◌, ◌||◌, arith, Eq,
  contains, length, if◌then◌else◌,
}

-- `s < t`: by code points, from the left
abbrev pub str_lt : String → String → Bool
str_lt s t = elim (compare s t) [ Ordering.lt ↦ true | _ ↦ false ]

module _ {ℓ} {A : Type ℓ} where
  unfoldable pub insert_sorted : (A → A → Bool) → A → List A → List A
  insert_sorted lt x [] = x ∷ []
  insert_sorted lt x (y ∷ ys) = if lt y x then y ∷ insert_sorted lt x ys else x ∷ y ∷ ys

  unfoldable pub sorted : (A → A → Bool) → List A → List A
  unfolding insert_sorted
  sorted lt [] = []
  sorted lt (x ∷ xs) = insert_sorted lt x (sorted lt xs)

  abbrev pub any : (A → Bool) → List A → Bool
  any p [] = false
  any p (x ∷ xs) = p x || any p xs

  any-insert_sorted :
      (p : A → Bool) (lt : A → A → Bool) (x : A) (xs : List A)
      → any p (insert_sorted lt x xs) ≡ (p x || any p xs)
  unfolding insert_sorted
  any-insert_sorted p lt x [] = refl
  any-insert_sorted p lt x (y ∷ ys) = ground (arith, any-insert_sorted p lt x ys)

  -- Sorting keeps what some member has.
  pub any-sorted :
      (p : A → Bool) (lt : A → A → Bool) (xs : List A) → any p (sorted lt xs) ≡ any p xs
  unfolding sorted
  any-sorted p lt [] = refl
  any-sorted p lt (x ∷ xs) =
      ground (arith, any-sorted p lt xs, any-insert_sorted p lt x (sorted lt xs))

  length-insert_sorted :
      (lt : A → A → Bool) (x : A) (xs : List A) → length (insert_sorted lt x xs) ≡ length xs + 1
  unfolding insert_sorted
  length-insert_sorted lt x [] = refl
  length-insert_sorted lt x (y ∷ ys) = ground (arith, length-insert_sorted lt x ys)

  pub length-sorted : (lt : A → A → Bool) (xs : List A) → length (sorted lt xs) ≡ length xs
  unfolding sorted
  length-sorted lt [] = refl
  length-sorted lt (x ∷ xs) =
      ground (arith, length-sorted lt xs, length-insert_sorted lt x (sorted lt xs))

module _ {ℓ} {A : Type ℓ} ⦃e : Eq A⦄ where
  unfoldable pub distinct : List A → List A
  distinct [] = []
  distinct (x ∷ xs) = let rest = distinct xs in if contains rest x then rest else x ∷ rest

  pub contains-distinct : (xs : List A) (a : A) → contains (distinct xs) a ≡ contains xs a
  unfolding distinct
  contains-distinct [] a = refl
  contains-distinct (x ∷ xs) a = ground (arith, contains-distinct xs a, contains-distinct xs x)

  -- No member twice.
  abbrev pub Distinct : List A → Type 0
  Distinct [] = Unit
  Distinct (x ∷ xs) = (contains xs x ≡ false) × Distinct xs

  contains-any : (xs : List A) (a : A) → contains xs a ≡ any (λ x. a == x) xs
  contains-any [] a = refl
  contains-any (x ∷ xs) a = ground (arith, contains-any xs a)

  -- Sorting keeps the members.
  pub contains-sorted :
      (lt : A → A → Bool) (xs : List A) (a : A) → contains (sorted lt xs) a ≡ contains xs a
  contains-sorted lt xs a =
      contains-any (sorted lt xs) a ∙ (any-sorted (λ x. a == x) lt xs ∙ sym (contains-any xs a))
