-- ===== src/Prelude/Text/Decimal.antt =====
-- Reading a decimal number from the front of a text.
use Prim.Native.String.{[], ◌∷◌}
use Prim.Native.String.append
use text.Mathlib.TextLemmas.{append_assoc}
use schedcore.Prelude.{
  ◌≢◌, ap, ℕ_discrete, ℕ, zero, suc, ◌+◌, ◌*◌, ◌-◌, ◌/◌, ◌%◌, ◌≤◌, ◌<◌, String, Char, code, ◌<>◌,
  Bool, true, not, ◌&&◌, ◌≡◌, refl, sym, ◌∙◌, arith, ◌==◌, nat_eq, leb, if◌then◌else◌,
}
use schedcore.Prelude.Split.Lines.{char_append}
use schedcore.Prelude.Text.{show, digit, digits, show_positive}

abbrev pub is_decimal : Char → Bool
is_decimal c = leb 48 (code c) && leb (code c) 57

-- The number that the digits at the front continue, and what follows them.
unfoldable pub read_decimal : ℕ → String → ℕ × String
read_decimal n [] = (n, [])
read_decimal n (c ∷ s) =
    let onward = read_decimal (n * 10 + (code c - 48)) s in
    if is_decimal c then onward else (n, c ∷ s)

read_decimal-digit :
    (d n : ℕ) (s : String) → d < 10 → read_decimal n (digit d <> s) ≡ read_decimal (n * 10 + d) s
unfolding read_decimal digit nat_eq
read_decimal-digit zero n s h = rw (char_append "0" s)
read_decimal-digit (suc zero) n s h = rw (char_append "1" s)
read_decimal-digit (suc (suc zero)) n s h = rw (char_append "2" s)
read_decimal-digit (suc (suc (suc zero))) n s h = rw (char_append "3" s)
read_decimal-digit (suc (suc (suc (suc zero)))) n s h = rw (char_append "4" s)
read_decimal-digit (suc (suc (suc (suc (suc zero))))) n s h = rw (char_append "5" s)
read_decimal-digit (suc (suc (suc (suc (suc (suc zero)))))) n s h = rw (char_append "6" s)
read_decimal-digit (suc (suc (suc (suc (suc (suc (suc zero))))))) n s h = rw (char_append "7" s)
read_decimal-digit (suc (suc (suc (suc (suc (suc (suc (suc zero)))))))) n s h =
    rw (char_append "8" s)
read_decimal-digit (suc (suc (suc (suc (suc (suc (suc (suc (suc zero))))))))) n s h =
    rw (char_append "9" s)
read_decimal-digit (suc (suc (suc (suc (suc (suc (suc (suc (suc (suc d)))))))))) n s h =
    absurd (omega arith)

read_decimal-digits :
    (fuel n : ℕ) (out rest : String)
    → n ≤ fuel
    → read_decimal 0 (digits fuel n out <> rest) ≡ read_decimal n (out <> rest)
unfolding digits
read_decimal-digits zero n out rest h =
    let e : n ≡ 0 = omega arith in ap (λ m. read_decimal m (out <> rest)) (sym e)
read_decimal-digits (suc fuel) n out rest h = elim (ℕ_discrete n 0) [
  | yes e ↦ rw (if_zero e) (ap (λ m. read_decimal m (out <> rest)) (sym e))
  | no positive ↦
      let last : n / 10 * 10 + n % 10 ≡ n = omega arith in
      rw (if_positive positive) (
        read_decimal-digits fuel (n / 10) (digit (n % 10) <> out) rest (omega arith)
        ∙ ap (read_decimal (n / 10)) (append_assoc (digit (n % 10)) out rest)
        ∙ read_decimal-digit (n % 10) (n / 10) (out <> rest) (omega arith)
        ∙ ap (λ m. read_decimal m (out <> rest)) last)
]
  where
    if_zero : n ≡ 0 → (if n == 0 then out else digits fuel (n / 10) (digit (n % 10) <> out)) ≡ out
    if_zero e = ground arith

    if_positive :
        n ≢ 0
        → (if n == 0 then out else digits fuel (n / 10) (digit (n % 10) <> out))
          ≡ digits fuel (n / 10) (digit (n % 10) <> out)
    if_positive positive = ground arith

-- What follows does not start with a digit.
abbrev pub ends_number : String → Bool
ends_number [] = true
ends_number (c ∷ s) = not (is_decimal c)

read_decimal-stop : (n : ℕ) (s : String) → ends_number s ≡ true → read_decimal n s ≡ (n, s)
unfolding read_decimal
read_decimal-stop n [] h = refl
read_decimal-stop n (c ∷ s) h = ground arith

-- A number is read back from its decimal digits.
pub read_decimal-show :
    (n : ℕ) (rest : String) → ends_number rest ≡ true → read_decimal 0 (show n <> rest) ≡ (n, rest)
unfolding show digit
read_decimal-show n rest h = elim (ℕ_discrete n 0) [
  | yes e ↦
      ap (λ m. read_decimal 0 (show m <> rest)) e
      ∙ read_decimal-digit 0 0 rest (omega arith)
      ∙ read_decimal-stop 0 rest h
      ∙ ap (λ m. (m, rest)) (sym e)
  | no positive ↦
      ap (λ t. read_decimal 0 (t <> rest)) (show_positive n positive)
      ∙ read_decimal-digits (suc n) n [] rest (omega arith)
      ∙ ap (read_decimal n) (append.nil rest)
      ∙ read_decimal-stop n rest h
]
