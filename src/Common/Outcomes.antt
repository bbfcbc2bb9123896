-- ===== src/Common/Outcomes.antt =====
-- A call that returns or throws. `E` is what is thrown.
use mathlib.Core.Path.{◌≡◌, refl}
use mathlib.Core.Logic.{◌⊎◌, inl, inr}
use mathlib.Core.Bool.{Bool, true, false}

pub data Outcome {ℓ} (E : Type 0) (A : Type ℓ) : Type ℓ where
  ok : A → Outcome E A
  throws : E → Outcome E A

module _ {ℓ κ} {E : Type 0} {A : Type ℓ} {B : Type κ} where
  infixl 5 ◌>>=◌
  abbrev pub ◌>>=◌ : Outcome E A → (A → Outcome E B) → Outcome E B
  ok a >>= f = f a
  throws e >>= f = throws e

  -- A block that returns has returned from its first call.
  pub bind_returns :
      (m : Outcome E A) (f : A → Outcome E B) {b : B}
      → m >>= f ≡ ok b
      → (a : A) × (m ≡ ok a) × (f a ≡ ok b)
  bind_returns (throws e) f h = absurd (cc h)
  bind_returns (ok a) f h = (a, refl, h)

module _ {ℓ} {E : Type 0} {A : Type ℓ} where
  -- `try { … } catch (std::runtime_error const& e) { throw … }`
  abbrev pub rethrow : (E → E) → Outcome E A → Outcome E A
  rethrow f (ok a) = ok a
  rethrow f (throws e) = throws (f e)

  pub Outcome-cases : (m : Outcome E A) → ((a : A) × (m ≡ ok a)) ⊎ ((e : E) × (m ≡ throws e))
  Outcome-cases (ok a) = inl (a, refl)
  Outcome-cases (throws e) = inr (e, refl)

module _ {E : Type 0} where
  infixl 5 ◌>>◌
  abbrev pub ◌>>◌ {ℓ} : {B : Type ℓ} → Outcome E (Unit {0}) → Outcome E B → Outcome E B
  m >> k = m >>= λ _. k

  abbrev pub guard : Bool → E → Outcome E (Unit {0})
  guard true e = ok tt
  guard false e = throws e
