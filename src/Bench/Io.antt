-- ===== src/Bench/Io.antt =====
-- Python's statements as actions: what an action returns or raises, and the state behind it.
use schedcore.Prelude.{Bool, true, false, ◌≡◌, refl, ap}
use schedcore.Prelude.Result.{
  Exception, key_error, type_error, attribute_error, value_error, exit_one, os_error,
  process_lookup_error, timeout_expired, keyboard_interrupt, Result, ok, raise, ok-injective,
  raise-injective,
}

abbrev pub Io {ℓ} : Type 0 → Type ℓ → Type ℓ
Io S A = S → Result A × S

-- What `except Exception` catches: not the end of the program, and not a key interrupt.
abbrev pub is_caught : Exception → Bool
is_caught exit_one = false
is_caught keyboard_interrupt = false
is_caught (key_error k) = true
is_caught type_error = true
is_caught attribute_error = true
is_caught value_error = true
is_caught os_error = true
is_caught process_lookup_error = true
is_caught timeout_expired = true

module _ {S : Type 0} where
  abbrev pub return {ℓ} : {A : Type ℓ} → A → Io S A
  return a s = (ok a, s)

  -- What a computation without a state returns or raises.
  abbrev pub lift {ℓ} : {A : Type ℓ} → Result A → Io S A
  lift r s = (r, s)

  -- What follows an action.
  abbrev pub and_then {ℓ κ} : {A : Type ℓ} {B : Type κ} → (A → Io S B) → Result A × S → Result B × S
  and_then next (ok a, s) = next a s
  and_then next (raise e, s) = (raise e, s)

  infixl 5 ◌>>=◌ ◌>>◌
  abbrev pub ◌>>=◌ {ℓ κ} : {A : Type ℓ} {B : Type κ} → Io S A → (A → Io S B) → Io S B
  ◌>>=◌ action next s = and_then next (action s)

  abbrev pub ◌>>◌ {ℓ κ} : {A : Type ℓ} {B : Type κ} → Io S A → Io S B → Io S B
  action >> next = action >>= λ _. next

  abbrev pub handled {ℓ} : {A : Type ℓ} → (Exception → Io S A) → Result A × S → Result A × S
  handled handler (ok a, s) = (ok a, s)
  handled handler (raise e, s) = elim (is_caught e) [ true ↦ handler e s | false ↦ (raise e, s) ]

  -- `try: … except Exception as e: …`
  abbrev pub except {ℓ} : {A : Type ℓ} → Io S A → (Exception → Io S A) → Io S A
  except action handler s = handled handler (action s)

  abbrev finished {ℓ κ} : {A : Type ℓ} {B : Type κ} → Result A → Result B × S → Result A × S
  finished r (ok b, s) = (r, s)
  finished r (raise e, s) = (raise e, s)

  abbrev pub at_last {ℓ κ} : {A : Type ℓ} {B : Type κ} → Io S B → Result A × S → Result A × S
  at_last cleanup (r, s) = finished r (cleanup s)

  -- `try: … finally: …`
  abbrev pub finally {ℓ κ} : {A : Type ℓ} {B : Type κ} → Io S A → Io S B → Io S A
  finally action cleanup s = at_last cleanup (action s)

module _ {ℓ κ} {S : Type 0} {A : Type ℓ} {B : Type κ} where
  pub and_then-ok :
      (next : A → Io S B) (x : Result A × S) (a : A) → x.0 ≡ ok a → and_then next x ≡ next a x.1
  and_then-ok next (ok b, s) a h = ap (λ c. next c s) (ok-injective b a h)
  and_then-ok next (raise e, s) a h = absurd cc

  pub and_then-raise :
      (next : A → Io S B) (x : Result A × S) (e : Exception)
      → x.0 ≡ raise e
      → and_then next x ≡ (raise e, x.1)
  and_then-raise next (ok b, s) e h = absurd cc
  and_then-raise next (raise f, s) e h = rw (raise-injective f e h) refl

module _ {ℓ} {S : Type 0} {A : Type ℓ} where
  pub handled-ok :
      (handler : Exception → Io S A) (x : Result A × S) (a : A) → x.0 ≡ ok a → handled handler x ≡ x
  handled-ok handler (ok b, s) a h = refl
  handled-ok handler (raise e, s) a h = absurd cc

  handled-caught :
      (handler : Exception → Io S A) (e : Exception) (s : S)
      → is_caught e ≡ true
      → handled handler (raise e, s) ≡ handler e s
  handled-caught handler e s caught = rw (handled, caught) refl

  pub handled-raise :
      (handler : Exception → Io S A) (x : Result A × S) (e : Exception)
      → x.0 ≡ raise e
      → is_caught e ≡ true
      → handled handler x ≡ handler e x.1
  handled-raise handler (ok b, s) e h caught = absurd cc
  handled-raise handler (raise f, s) e h caught =
      rw (raise-injective f e h) (handled-caught handler e s caught)

pub at_last-state {ℓ κ} :
    {S : Type 0}
    → {A : Type ℓ} → {B : Type κ} → (cleanup : Io S B) (x : Result A × S)
    → (at_last cleanup x).1 ≡ (cleanup x.1).1
at_last-state {S = S} {A = A} {B = B} cleanup (r, s) = finished-state (cleanup s)
  where
    finished-state : (y : Result B × S) → (finished r y).1 ≡ y.1
    finished-state (ok b, t) = refl
    finished-state (raise e, t) = refl

module _ {ℓ κ μ} {S : Type 0} {A : Type ℓ} {B : Type κ} (P : S → Type μ) where
  -- What holds of the state behind an action, and what the next one keeps, holds at the end.
  pub and_then_keeps :
      (next : A → Io S B) (x : Result A × S)
      → P x.1
      → ((a : A) (s : S) → P s → P (next a s).1)
      → P (and_then next x).1
  and_then_keeps next (ok a, s) holds keeps = keeps a s holds
  and_then_keeps next (raise e, s) holds keeps = holds

  -- Two continuations that agree where the property holds.
  pub and_then_agree :
      (next next' : A → Io S B) (x : Result A × S)
      → P x.1
      → ((a : A) (s : S) → P s → next a s ≡ next' a s)
      → and_then next x ≡ and_then next' x
  and_then_agree next next' (ok a, s) holds agree = agree a s holds
  and_then_agree next next' (raise e, s) holds agree = refl

module _ {ℓ μ} {S : Type 0} {A : Type ℓ} (P : S → Type μ) where
  pub handled_keeps :
      (handler : Exception → Io S A) (x : Result A × S)
      → P x.1
      → ((e : Exception) (s : S) → P s → P (handler e s).1)
      → P (handled handler x).1
  handled_keeps handler (ok a, s) holds keeps = holds
  handled_keeps handler (raise e, s) holds keeps = caught_keeps (is_caught e)
    where
      caught_keeps :
          (b : Bool)
          → P (elim b as (λ _. Result A × S) [ true ↦ handler e s | false ↦ (raise e, s) ]).1
      caught_keeps true = keeps e s holds
      caught_keeps false = holds
