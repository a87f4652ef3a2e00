-- ===== src/Prelude/Float.antt =====
-- Python's `float`, taken as an interface: the values, the operations that the program uses, and
-- the laws of IEEE 754 doubles that its tests rely on. `ratio a b` is the double nearest to a / b:
-- the value of `a / b` for integers, of `float(a)` where b is 1, and of a decimal literal.
pub mod Fixed
pub mod Compare
use schedcore.Prelude.{ℕ, ◌+◌, ◌*◌, ◌^◌, ◌<◌, ◌≤◌, ◌-◌, false, String, Bool, true, ◌≡◌}

pub record Float : Type 1 where
  pub F : Type 0
  pub ratio : ℕ → ℕ → F
  pub add : F → F → F
  pub sub : F → F → F
  pub mul : F → F → F
  pub div : F → F → F
  -- `x < y`
  pub lt : F → F → Bool
  -- `x == 0`
  pub is_zero : F → Bool
  -- `f"{x:.nf}"`
  pub format : ℕ → F → String

-- `a / b` and `c / d` name the two fractions below.
pub record IsIeee (float : Float) : Type 0 where
  -- Rounding is monotone, so the order of two rounded fractions is that of the fractions.
  pub lt_sound :
      (a b c d : ℕ)
      → 0 < b
      → 0 < d
      → float.lt (float.ratio c d) (float.ratio a b) ≡ true
      → c * b < a * d
  -- Fractions of small terms differ by more than the rounding errors.
  pub lt_complete :
      (a b c d : ℕ)
      → 0 < b
      → 0 < d
      → a * d < 2 ^ 52
      → b * d < 2 ^ 52
      → c * b < a * d
      → float.lt (float.ratio c d) (float.ratio a b) ≡ true
  -- Equal fractions round alike.
  pub ratio_eq : (a b c d : ℕ) → 0 < b → 0 < d → a * d ≡ c * b → float.ratio a b ≡ float.ratio c d
  -- Small whole numbers are exact.
  pub add_exact :
      (a b : ℕ)
      → a + b < 2 ^ 53
      → float.add (float.ratio a 1) (float.ratio b 1) ≡ float.ratio (a + b) 1
  pub mul_exact :
      (a b : ℕ)
      → a * b < 2 ^ 53
      → float.mul (float.ratio a 1) (float.ratio b 1) ≡ float.ratio (a * b) 1
  pub div_exact :
      (a b : ℕ)
      → 0 < b
      → a < 2 ^ 53
      → b < 2 ^ 53
      → float.div (float.ratio a 1) (float.ratio b 1) ≡ float.ratio a b
  pub sub_exact :
      (a b : ℕ)
      → b ≤ a
      → a < 2 ^ 53
      → float.sub (float.ratio a 1) (float.ratio b 1) ≡ float.ratio (a - b) 1
  pub is_zero_exact : (a : ℕ) → 0 < a → a < 2 ^ 53 → float.is_zero (float.ratio a 1) ≡ false
