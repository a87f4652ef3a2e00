-- ===== src/Prelude/Result.antt =====
-- Python's exceptions, as values.
use schedcore.Prelude.{String, ◌≡◌, refl, ap, ◌⊎◌, inl, inr}

pub data Exception : Type 0 where
  key_error : String → Exception
  type_error : Exception
  attribute_error : Exception
  value_error : Exception
  -- `sys.exit(status)` from inside a function
  exit_one : Exception
  os_error : Exception
  -- no process or group has this number
  process_lookup_error : Exception
  timeout_expired : Exception
  keyboard_interrupt : Exception

pub data Result {ℓ} (A : Type ℓ) : Type ℓ where
  raise : Exception → Result A
  ok : A → Result A

module _ {ℓ κ} {A : Type ℓ} {B : Type κ} where
  infixl 5 ◌>>=◌
  abbrev pub ◌>>=◌ : Result A → (A → Result B) → Result B
  raise e >>= next = raise e
  ok a >>= next = next a

  -- A sequence that returns has a first step that returns.
  pub >>=-eq-ok :
      (first : Result A) (next : A → Result B) {b : B}
      → (first >>= next) ≡ ok b
      → (a : A) × (first ≡ ok a) × (next a ≡ ok b)
  >>=-eq-ok (raise e) next returns = cc
  >>=-eq-ok (ok a) next returns = (a, refl, returns)

pub Result-cases {ℓ} :
    {A : Type ℓ} (r : Result A) → ((a : A) × (r ≡ ok a)) ⊎ ((e : Exception) × (r ≡ raise e))
Result-cases (ok a) = inl (a, refl)
Result-cases (raise e) = inr (e, refl)

pub ok-injective {ℓ} : {A : Type ℓ} (a b : A) → ok a ≡ ok b → a ≡ b
ok-injective {A = A} a b h = ap (value_or a) h
  where
    value_or : A → Result A → A
    value_or c (ok x) = x
    value_or c (raise e) = c

pub raise-injective {ℓ} :
    {A : Type ℓ} (e f : Exception) → ◌≡◌ {A = Result A} (raise e) (raise f) → e ≡ f
raise-injective {A = A} e f h = ap (exception_or e) h
  where
    exception_or : Exception → Result A → Exception
    exception_or g (ok x) = g
    exception_or g (raise e') = e'
