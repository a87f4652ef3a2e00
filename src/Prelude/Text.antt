-- ===== src/Prelude/Text.antt =====
-- Operations on texts, character by character: slices, prefixes, `rstrip`, `join`, `str` of a number.
pub mod Decimal
use Prim.Native.String.{[], ◌∷◌}
use Prim.Native.String.append
use mathlib.Core.List.{List}
use schedcore.Prelude.{
  ℕ, zero, suc, ◌+◌, ◌/◌, ◌%◌, ◌≤◌, String, Char, ◌<>◌, Bool, true, false, ◌≡◌, ◌≢◌, refl, arith,
  ◌&&◌, ◌==◌, char_eq, nat_eq, if◌then◌else◌,
}

-- `len(s)`
abbrev pub count : String → ℕ
count [] = 0
count (c ∷ s) = suc (count s)

-- `s[:n]`
unfoldable pub take : ℕ → String → String
take zero s = []
take (suc n) [] = []
take (suc n) (c ∷ s) = c ∷ take n s

-- `s.startswith(p)`
unfoldable pub starts_with : String → String → Bool
starts_with s [] = true
starts_with [] (d ∷ p) = false
starts_with (c ∷ s) (d ∷ p) = c == d && starts_with s p

-- `s.rstrip(chars)`, with `strip` the test of membership in `chars`.
abbrev strip_onto : Bool → Char → String → String
strip_onto true c [] = []
strip_onto false c [] = c ∷ []
strip_onto stripped c (d ∷ t) = c ∷ (d ∷ t)

unfoldable pub rstrip : (Char → Bool) → String → String
rstrip strip [] = []
rstrip strip (c ∷ s) = strip_onto (strip c) c (rstrip strip s)

-- `sep.join(parts)`
unfoldable pub join : String → List String → String
join sep List.[] = []
join sep (List.◌∷◌ s List.[]) = s
join sep (List.◌∷◌ s (List.◌∷◌ t ts)) = s <> (sep <> join sep (List.◌∷◌ t ts))

pub digit : ℕ → String
digit d =
    if d == 0
    then "0"
    else if d == 1
    then "1"
    else if d == 2
    then "2"
    else if d == 3
    then "3"
    else if d == 4
    then "4"
    else if d == 5
    then "5"
    else if d == 6
    then "6"
    else if d == 7
    then "7"
    else if d == 8
    then "8"
    else "9"

pub digits : ℕ → ℕ → String → String
digits zero n out = out
digits (suc fuel) n out =
    let more = digits fuel (n / 10) (digit (n % 10) <> out) in if n == 0 then out else more

-- `str(n)`: a number below ten to the `n + 1` has at most `n + 1` digits.
unfoldable pub show : ℕ → String
unfolding digits digit nat_eq
show n = if n == 0 then "0" else digits (suc n) n []

pub show_positive : (n : ℕ) → n ≢ 0 → show n ≡ digits (suc n) n []
unfolding show
show_positive n h = ground arith

pub count-append : (s t : String) → count (s <> t) ≡ count s + count t
count-append [] t = rw (append.nil t) (omega arith)
count-append (c ∷ s) t = rw (append.cons c s t) (omega (arith, count-append s t))

pub starts_with_refl : (s : String) → starts_with s s ≡ true
unfolding starts_with
starts_with_refl [] = refl
starts_with_refl (c ∷ s) = ground (arith, starts_with_refl s)

starts_with-strip_onto :
    (b : Bool) (c : Char) (s r : String)
    → starts_with s r ≡ true
    → starts_with (c ∷ s) (strip_onto b c r) ≡ true
unfolding starts_with
starts_with-strip_onto true c s [] h = refl
starts_with-strip_onto false c s [] h = ground arith
starts_with-strip_onto true c s (d ∷ t) h = ground arith
starts_with-strip_onto false c s (d ∷ t) h = ground arith

pub starts_with-rstrip : (strip : Char → Bool) (s : String) → starts_with s (rstrip strip s) ≡ true
unfolding starts_with rstrip
starts_with-rstrip strip [] = refl
starts_with-rstrip strip (c ∷ s) =
    starts_with-strip_onto (strip c) c s (rstrip strip s) (starts_with-rstrip strip s)

pub starts_with_trans :
    (s p q : String) → starts_with s p ≡ true → starts_with p q ≡ true → starts_with s q ≡ true
unfolding starts_with
starts_with_trans s p [] h k = refl
starts_with_trans (c ∷ s) (d ∷ p) (e ∷ q) h k = ground (arith, starts_with_trans s p q)
starts_with_trans [] (d ∷ p) (e ∷ q) h k = h
starts_with_trans s [] (e ∷ q) h k = ground arith

-- a slice is a prefix
pub starts_with-take : (n : ℕ) (s : String) → starts_with s (take n s) ≡ true
unfolding starts_with take
starts_with-take zero s = refl
starts_with-take (suc n) [] = refl
starts_with-take (suc n) (c ∷ s) = ground (arith, starts_with-take n s)

-- `s[:n]` is the whole text once `n` reaches its length
pub take-all : (n : ℕ) (s : String) → count s ≤ n → take n s ≡ s
unfolding take
take-all zero [] h = refl
take-all zero (c ∷ s) h = absurd (omega arith)
take-all (suc n) [] h = refl
take-all (suc n) (c ∷ s) h = rw (take-all n s (omega arith))

show_runs : show 2048 ≡ "2048"
unfolding show
show_runs = refl

rstrip_runs : rstrip (λ c. c == c) "ab" ≡ ""
unfolding rstrip char_eq
rstrip_runs = refl
