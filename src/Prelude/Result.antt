-- ===== src/Prelude/Result.antt =====
-- Code that may raise: a value, or the exception `e`.
use mathlib.Core.Path.{◌≡◌, refl}
use my_team_tradding.Prelude.{Bool, false, if◌then◌else◌, inl, inr, true, ◌⊎◌}

pub data Result {ℓ κ} (E : Type ℓ) (A : Type κ) : Type (ℓ ⊔ κ) where
  ok : A → Result E A
  err : E → Result E A

module _ {ℓ κ μ} {E : Type ℓ} {A : Type κ} {B : Type μ} where
  infixl 5 ◌>>=◌
  abbrev pub ◌>>=◌ : Result E A → (A → Result E B) → Result E B
  ok value >>= next = next value
  err raised >>= next = err raised

  -- A chain that returned: its first call returned, and so did what follows it.
  pub >>=-returned :
      (first : Result E A) (next : A → Result E B) {result : B}
      → (first >>= next) ≡ ok result
      → (value : A) × (first ≡ ok value) × (next value ≡ ok result)
  >>=-returned (ok value) next returned = (value, refl, returned)
  >>=-returned (err raised) next returned = cc

pub ok-injective {ℓ κ} :
    {E : Type ℓ} {A : Type κ} {a b : A} → ◌≡◌ {A = Result E A} (ok a) (ok b) → a ≡ b
ok-injective h = cc

-- Inversion of a guard that did not raise.
module _ {ℓ κ} {E : Type ℓ} {A : Type κ} where
  pub passed-eq-ok :
      (b : Bool) (m : Result E A) (e : E) (a : A)
      → (if b then m else err e) ≡ ok a
      → (b ≡ true) × (m ≡ ok a)
  passed-eq-ok true m e a h = (refl, h)
  passed-eq-ok false m e a h = cc

  pub refused-eq-ok :
      (b : Bool) (e : E) (m : Result E A) (a : A)
      → (if b then err e else m) ≡ ok a
      → (b ≡ false) × (m ≡ ok a)
  refused-eq-ok true e m a h = cc
  refused-eq-ok false e m a h = (refl, h)

pub Result-cases {ℓ κ} :
    {E : Type ℓ} {A : Type κ} (r : Result E A) → ((a : A) × (r ≡ ok a)) ⊎ ((e : E) × (r ≡ err e))
Result-cases (ok a) = inl (a, refl)
Result-cases (err e) = inr (e, refl)
