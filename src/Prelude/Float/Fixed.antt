-- ===== src/Prelude/Float/Fixed.antt =====
-- A value of the interface: numbers in units of 2^-60, rounded down. It shows that the laws can hold.
use native.Mathlib.Nat.{
  div-mul-le_self, le-div_iff_mul-le, le_of_mul-le-mul_right, mul-le-mul_right, le_antisymm,
  mul-div-mul_right, mul-div_left, mul-sub, div-one,
}
use schedcore.Prelude.{
  ℕ, ◌+◌, ◌-◌, ◌==◌, nat_eq, false, ◌*◌, ◌/◌, ◌^◌, ◌<◌, ◌≤◌, ◌≡◌, ap, ◌∙◌, arith, ltb, ltb→lt,
  lt→ltb, dec_lt,
}
use schedcore.Prelude.Text.{show}
use schedcore.Prelude.Float.{Float, IsIeee}

unfoldable pub unit : ℕ
unit = 2 ^ 60

unit_large : 2 ^ 52 ≤ unit
unfolding unit
unit_large = omega arith

-- The laws hold for every unit.
module _ (u : ℕ) where
  scale_mono : (a b c d : ℕ) → 0 < b → 0 < d → a * d ≤ c * b → a * u / b ≤ c * u / d
  scale_mono a b c d hb hd h = (le-div_iff_mul-le hd).1 (
      le_of_mul-le-mul_right {k = b}
        (omega (arith, mul-le-mul_right d (div-mul-le_self (a * u) b), mul-le-mul_right u h)) hb)

  scale_lt : (a b c d : ℕ) → 0 < b → 0 < d → b * d ≤ u → c * b < a * d → c * u / d < a * u / b
  scale_lt a b c d hb hd small h = (le-div_iff_mul-le hb).1 (
      le_of_mul-le-mul_right {k = d}
        (omega (arith, mul-le-mul_right b (div-mul-le_self (c * u) d), mul-le-mul_right u h)) hd)

  scale_sound : (a b c d : ℕ) → 0 < b → 0 < d → c * u / d < a * u / b → c * b < a * d
  scale_sound a b c d hb hd h = elim (dec_lt (c * b) (a * d)) [
    | yes p ↦ p
    | no n ↦ absurd (omega (arith, scale_mono a b c d hb hd (omega arith)))
  ]

  scale_eq : (a b c d : ℕ) → 0 < b → 0 < d → a * d ≡ c * b → a * u / b ≡ c * u / d
  scale_eq a b c d hb hd h =
      le_antisymm (scale_mono a b c d hb hd (omega arith)) (scale_mono c d a b hd hb (omega arith))

  scale_mul : (a b : ℕ) → 0 < u → (a * u / 1) * (b * u / 1) / u ≡ a * b * u / 1
  scale_mul a b h =
      let regroup : a * u * (b * u) ≡ a * b * u * u = omega arith in
      rw (div-one (a * u), div-one (b * u), div-one (a * b * u))
        (ap (λ (t : ℕ). t / u) regroup ∙ mul-div_left (a * b * u) h)

  scale_add : (a b : ℕ) → a * u / 1 + b * u / 1 ≡ (a + b) * u / 1
  scale_add a b = rw (div-one (a * u), div-one (b * u), div-one ((a + b) * u)) (omega arith)

  scale_div : (a b : ℕ) → 0 < u → a * u / 1 * u / (b * u / 1) ≡ a * u / b
  scale_div a b h = rw (div-one (a * u), div-one (b * u)) (mul-div-mul_right (a * u) b h)

  scale_sub : (a b : ℕ) → b ≤ a → a * u / 1 - b * u / 1 ≡ (a - b) * u / 1
  scale_sub a b h =
      rw (div-one (a * u), div-one (b * u), div-one ((a - b) * u)) (omega (arith, mul-sub u a b))

  scale_not_zero : (a : ℕ) → 0 < u → 0 < a → (a * u / 1 == 0) ≡ false
  scale_not_zero a hu ha = rw (div-one (a * u)) (ground (arith, mul-le-mul_right u ha))

abbrev pub fixed : Float
fixed = record {
  F = ℕ;
  ratio = λ a b. a * unit / b;
  add = λ x y. x + y;
  sub = λ x y. x - y;
  mul = λ x y. x * y / unit;
  div = λ x y. x * unit / y;
  lt = ltb;
  is_zero = λ x. x == 0;
  format = λ n x. show (x * 10 ^ n / unit);
}

pub fixed-IsIeee : IsIeee fixed
fixed-IsIeee = record {
  lt_sound = λ a b c d hb hd h. scale_sound unit a b c d hb hd (ltb→lt _ _ h);
  lt_complete = λ a b c d hb hd _ small h.
      lt→ltb _ _ (scale_lt unit a b c d hb hd (omega (arith, unit_large)) h);
  ratio_eq = scale_eq unit;
  add_exact = λ a b _. scale_add unit a b;
  sub_exact = λ a b h _. scale_sub unit a b h;
  is_zero_exact = λ a h _. scale_not_zero unit a (omega (arith, unit_large)) h;
  mul_exact = λ a b _. scale_mul unit a b (omega (arith, unit_large));
  div_exact = λ a b hb _ _. scale_div unit a b (omega (arith, unit_large));
}
