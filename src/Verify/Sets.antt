-- ===== src/Verify/Sets.antt =====
-- Counting in the sets of keys.
use schedcore.Prelude.{
  ◌+◌, List, [], ◌∷◌, ◌++◌, length, ◌≡◌, refl, true, false, ◌||◌, arith, contains, string_eq,
  nat_eq, option_eq, pair_eq, ◌==◌, if◌then◌else◌,
}
use schedcore.Prelude.Sorting.{Distinct}
use schedcore.Prelude.Dict.{Dict, keys, insert}
use schedcore.Verify.{Key, set_and, set_minus, set_or}

pub length-and-minus :
    (xs ys : List Key) → length (set_and xs ys) + length (set_minus xs ys) ≡ length xs
unfolding set_and set_minus
length-and-minus [] ys = refl
length-and-minus (x ∷ xs) ys = ground (arith, length-and-minus xs ys)

set_and-nil : (ys : List Key) → set_and ys [] ≡ []
unfolding set_and
set_and-nil [] = refl
set_and-nil (y ∷ ys) = set_and-nil ys

set_and-cons_absent :
    (x : Key) (xs ys : List Key) → contains ys x ≡ false → set_and ys (x ∷ xs) ≡ set_and ys xs
unfolding set_and
set_and-cons_absent x xs [] h = refl
set_and-cons_absent x xs (y ∷ ys) h = ground (arith, set_and-cons_absent x xs ys)

-- One more key in the other set adds one to the count exactly when this set holds it.
length-set_and-cons :
    (x : Key) (xs ys : List Key)
    → contains xs x ≡ false
    → Distinct ys
    → length (set_and ys (x ∷ xs)) ≡ length (set_and ys xs) + (if contains ys x then 1 else 0)
unfolding set_and
length-set_and-cons x xs [] fresh u = refl
length-set_and-cons x xs (y ∷ ys) fresh (h, u) =
    ground (arith, length-set_and-cons x xs ys fresh u, set_and-cons_absent x xs ys)

-- The size of an intersection does not depend on the order of its sets.
pub length-set_and_comm :
    (xs ys : List Key) → Distinct xs → Distinct ys → length (set_and xs ys) ≡ length (set_and ys xs)
unfolding set_and
length-set_and_comm [] ys _ _ = ground (arith, set_and-nil ys)
length-set_and_comm (x ∷ xs) ys (h, u) v =
    ground (arith, length-set_and_comm xs ys u v, length-set_and-cons x xs ys h v)

contains-append :
    (xs ys : List Key) (k : Key) → contains (xs ++ ys) k ≡ (contains xs k || contains ys k)
contains-append [] ys k = refl
contains-append (x ∷ xs) ys k = ground (arith, contains-append xs ys k)

pub contains-set_minus :
    (xs ys : List Key) (k : Key)
    → contains (set_minus xs ys) k ≡ (if contains ys k then false else contains xs k)
unfolding set_minus
contains-set_minus [] ys k = ground arith
contains-set_minus (x ∷ xs) ys k = ground (arith, contains-set_minus xs ys k)

pub contains-set_or :
    (xs ys : List Key) (k : Key) → contains (set_or xs ys) k ≡ (contains xs k || contains ys k)
unfolding set_or
contains-set_or xs ys k =
    ground (arith, contains-append xs (set_minus ys xs) k, contains-set_minus ys xs k)

-- A set is split by two others: what lies in both is counted twice.
pub length-split :
    (gen xs ys : List Key)
    → length (set_and gen xs) + length (set_and gen ys) + length (set_minus gen (set_or xs ys))
      ≡ length gen + length (set_and (set_and gen xs) ys)
unfolding set_and set_minus
length-split [] xs ys = refl
length-split (k ∷ gen) xs ys = ground (arith, length-split gen xs ys, contains-set_or xs ys k)

contains-keys-insert :
    {V : Type 0} (k : Key) (v : V) (d : Dict Key V) (j : Key)
    → contains (keys (insert k v d)) j ≡ (if j == k then true else contains (keys d) j)
unfolding keys insert
contains-keys-insert k v [] j = ground arith
contains-keys-insert k v ((i, w) ∷ d) j = ground (arith, contains-keys-insert k v d j)

pub insert-Distinct :
    {V : Type 0} (k : Key) (v : V) (d : Dict Key V)
    → Distinct (keys d)
    → Distinct (keys (insert k v d))
unfolding keys insert
insert-Distinct k v [] u = ground arith
insert-Distinct k v ((j, w) ∷ d) (h, u) =
    ground (arith, insert-Distinct k v d u, contains-keys-insert k v d j)
