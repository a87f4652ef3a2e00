-- ===== src/Prelude/Float/Compare.antt =====
-- Comparisons of rounded fractions, by whole numbers.
use schedcore.Prelude.{
  ℕ, ◌*◌, ◌^◌, ◌<◌, ◌≤◌, ◌≡◌, false, arith, ltb, ltb→lt, Bool-cases, inl, inr, ◌∙◌, sym,
}
use schedcore.Prelude.Float.{Float, IsIeee}

module _ (float : Float) (laws : IsIeee float) where
  open float use {ratio, lt}

  -- For small terms the order of two rounded fractions is that of the fractions.
  pub lt_ratio :
      (a b c d : ℕ)
      → 0 < b
      → 0 < d
      → a * d < 2 ^ 52
      → b * d < 2 ^ 52
      → lt (ratio c d) (ratio a b) ≡ ltb (c * b) (a * d)
  lt_ratio a b c d hb hd small small' = elim (Bool-cases (ltb (c * b) (a * d))) [
    | inl e ↦ laws.lt_complete a b c d hb hd small small' (ltb→lt _ _ e) ∙ sym e
    | inr e ↦ elim (Bool-cases (lt (ratio c d) (ratio a b))) [
      | inl f ↦ absurd (omega (arith, laws.lt_sound a b c d hb hd f, not_below e))
      | inr f ↦ f ∙ sym e
    ]
  ]
    where
      not_below : ltb (c * b) (a * d) ≡ false → a * d ≤ c * b
      not_below e = ground arith
