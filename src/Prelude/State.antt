-- ===== src/Prelude/State.antt =====
-- Methods on a state: what a method returns or raises, and the state behind it. A method that raises
-- keeps what it wrote before.
use my_team_tradding.Prelude.{refl, ◌≡◌}
use my_team_tradding.Prelude.Result.{Result, err, ok}

abbrev pub Stateful {ℓ} : Type 0 → Type 0 → Type ℓ → Type ℓ
Stateful E W A = W → Result E A × W

module _ {ℓ κ} {E W : Type 0} {A : Type ℓ} {B : Type κ} where
  abbrev pub goes_on : (A → Stateful E W B) → Result E A × W → Result E B × W
  goes_on f (ok a, w) = f a w
  goes_on f (err fault, w) = (err fault, w)

  infixl 5 ◌>>=◌
  unfoldable pub ◌>>=◌ : Stateful E W A → (A → Stateful E W B) → Stateful E W B
  ◌>>=◌ m f w = goes_on f (m w)

module _ {ℓ} {E W : Type 0} {A : Type ℓ} where
  abbrev pub returns : A → Stateful E W A
  returns a w = (ok a, w)

  abbrev pub lifts : Result E A → Stateful E W A
  lifts r w = (r, w)

module _ {ℓ κ} {E W : Type 0} {A : Type ℓ} {B : Type κ} where
  goes_on_returned :
      (f : A → Stateful E W B) (o : Result E A × W) {result : B} {after : W}
      → goes_on f o ≡ (ok result, after)
      → (value : A) × (w : W) × (o ≡ (ok value, w)) × (f value w ≡ (ok result, after))
  goes_on_returned f (ok value, w) h = (value, w, refl, h)
  goes_on_returned f (err fault, w) h = cc (h)

  -- A chain that returned: its first method returned, and so did what follows it.
  pub >>=-returned :
      (m : Stateful E W A) (f : A → Stateful E W B) (w : W) {result : B} {after : W}
      → (m >>= f) w ≡ (ok result, after)
      → (value : A) × (w' : W) × (m w ≡ (ok value, w')) × (f value w' ≡ (ok result, after))
  unfolding ◌>>=◌
  >>=-returned m f w h = goes_on_returned f (m w) h
