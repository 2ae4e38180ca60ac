-- ===== src/Runtime/Closed/Posts.antt =====
-- What holds behind a routine of the router: `Q` of what it returns, `C` where it raises a known
-- rejection. Of any other exception nothing is asked, since `invoke` lets it through.
use my_team_tradding.Budget.Ledger.{Key, Ledger, require, settle, transition}
use my_team_tradding.Budget.Ledger.Steps.{Moves, Settles, Wrote, settle-Settles, transition-Moves}
use my_team_tradding.Budget.Types.{
  BudgetFault, BudgetReservation, BudgetReservationState, RuntimeFailureCategory, invocation_error,
  key_error, value_error,
}
use my_team_tradding.Decimal.{Decimal}
use my_team_tradding.Prelude.{String, arith, inl, inr, refl, suc, ℕ, ◌≡◌, ◌≢◌, ◌⊎◌}
use my_team_tradding.Prelude.Result.{Result, err, ok}
use my_team_tradding.Prelude.State.{Stateful, goes_on, ◌>>=◌}
use my_team_tradding.Runtime.Router.{Session, Surroundings, ledger_call, ledger_outcome, utc_now}
use my_team_tradding.Time.{Datetime, aware, naive, normalize_utc}

abbrev pub Post {ℓ} :
    {A : Type ℓ}
    → (A → Session → Type 0)
    → (Session → Type 0)
    → Result BudgetFault A × Session
    → Type 0
Post Q C (ok a, w) = Q a w
Post Q C (err (invocation_error category detail), w) = C w
Post Q C (err value_error, w) = Unit
Post Q C (err key_error, w) = Unit

module _ {ℓ κ} {A : Type ℓ} {B : Type κ} (Q : A → Session → Type 0) (R : B → Session → Type 0)
    (C : Session → Type 0) where
  pub goes_on-Post :
      (f : A → Stateful BudgetFault Session B) (o : Result BudgetFault A × Session)
      → Post Q C o
      → ((a : A) (w : Session) → Q a w → Post R C (f a w))
      → Post R C (goes_on f o)
  goes_on-Post f (ok a, w) h next = next a w h
  goes_on-Post f (err (invocation_error category detail), w) h next = h
  goes_on-Post f (err value_error, w) h next = tt
  goes_on-Post f (err key_error, w) h next = tt

  pub >>=-Post :
      (m : Stateful BudgetFault Session A) (f : A → Stateful BudgetFault Session B) (w : Session)
      → Post Q C (m w)
      → ((a : A) (w' : Session) → Q a w' → Post R C (f a w'))
      → Post R C ((m >>= f) w)
  unfolding ◌>>=◌
  >>=-Post m f w h next = goes_on-Post f (m w) h next

-- A clock reading gives an instant, or an exception that is no known rejection.
dated-Post :
    {A : Type 0} (P : A → Session → Type 0) (C : Session → Type 0) (w : Session)
    (r : Result BudgetFault A)
    → ((a : A) → P a w)
    → (((a : A) × (r ≡ ok a)) ⊎ (r ≡ err value_error))
    → Post P C (r, w)
dated-Post P C w (ok a) h known = h a
dated-Post P C w (err (invocation_error category detail)) h known =
    absurd (elim known [ inl (a, p) ↦ cc (p) | inr p ↦ cc (p) ])
dated-Post P C w (err value_error) h known = tt
dated-Post P C w (err key_error) h known = tt

normalized :
    (d : Datetime)
    → ((a : ℕ) × (◌≡◌ {A = Result BudgetFault ℕ} (normalize_utc value_error d) (ok a)))
      ⊎ (◌≡◌ {A = Result BudgetFault ℕ} (normalize_utc value_error d) (err value_error))
unfolding normalize_utc
normalized (aware t) = inl (t, refl)
normalized (naive t) = inr refl

pub utc_now-Post :
    (s : Surroundings) (P : Session → Type 0) (C : Session → Type 0) (w : Session)
    → P (record w { readings = suc w.readings })
    → Post (λ at w'. P w') C (utc_now s w)
utc_now-Post s P C w h =
    dated-Post (λ at w'. P w') C _ _ (λ at. h) (normalized (s.clock w.readings))

-- A move of a reservation raises no known rejection.
transition_fault :
    (k : Key) (from to : BudgetReservationState) (at : ℕ) (l : Ledger)
    (category : RuntimeFailureCategory) (detail : String)
    → transition k from to at l ≢ err (invocation_error category detail)
unfolding transition require
transition_fault k from to at l category detail h = ground (arith, h)

moved_by :
    (Q : BudgetReservation → Session → Type 0) (C : Session → Type 0) (k : Key)
    (from to : BudgetReservationState) (at : ℕ) (w : Session)
    (o : Result BudgetFault (BudgetReservation × Ledger))
    → transition k from to at w.ledger ≡ o
    → ((r : BudgetReservation) (l' : Ledger)
        → Wrote k (Moves from to at) w.ledger l'
        → Q r (record w { ledger = l' }))
    → Post Q C (ledger_outcome w o)
moved_by Q C k from to at w (ok (r, l')) h next =
    next r l' (transition-Moves k from to at w.ledger l' r h)
moved_by Q C k from to at w (err (invocation_error category detail)) h next =
    absurd (transition_fault k from to at w.ledger category detail h)
moved_by Q C k from to at w (err value_error) h next = tt
moved_by Q C k from to at w (err key_error) h next = tt

pub transition-Post :
    (Q : BudgetReservation → Session → Type 0) (C : Session → Type 0) (k : Key)
    (from to : BudgetReservationState) (at : ℕ) (w : Session)
    → ((r : BudgetReservation) (l' : Ledger)
        → Wrote k (Moves from to at) w.ledger l'
        → Q r (record w { ledger = l' }))
    → Post Q C (ledger_call (transition k from to at) w)
transition-Post Q C k from to at w next = moved_by Q C k from to at w _ refl next

settle_fault :
    (k : Key) (amount : Decimal) (at : ℕ) (l : Ledger) (category : RuntimeFailureCategory)
    (detail : String)
    → settle k amount at l ≢ err (invocation_error category detail)
unfolding settle require
settle_fault k amount at l category detail h = ground (arith, h)

settled_by :
    (Q : BudgetReservation → Session → Type 0) (C : Session → Type 0) (k : Key) (amount : Decimal)
    (at : ℕ) (w : Session) (o : Result BudgetFault (BudgetReservation × Ledger))
    → settle k amount at w.ledger ≡ o
    → ((r : BudgetReservation) (l' : Ledger)
        → Wrote k (Settles amount at) w.ledger l'
        → Q r (record w { ledger = l' }))
    → Post Q C (ledger_outcome w o)
settled_by Q C k amount at w (ok (r, l')) h next =
    next r l' (settle-Settles k amount at w.ledger l' r h)
settled_by Q C k amount at w (err (invocation_error category detail)) h next =
    absurd (settle_fault k amount at w.ledger category detail h)
settled_by Q C k amount at w (err value_error) h next = tt
settled_by Q C k amount at w (err key_error) h next = tt

pub settle-Post :
    (Q : BudgetReservation → Session → Type 0) (C : Session → Type 0) (k : Key) (amount : Decimal)
    (at : ℕ) (w : Session)
    → ((r : BudgetReservation) (l' : Ledger)
        → Wrote k (Settles amount at) w.ledger l'
        → Q r (record w { ledger = l' }))
    → Post Q C (ledger_call (settle k amount at) w)
settle-Post Q C k amount at w next = settled_by Q C k amount at w _ refl next

-- A routine that leaves the session alone.
pub lifts-Post {ℓ} :
    {A : Type ℓ} (P : Session → Type 0) (C : Session → Type 0) (r : Result BudgetFault A)
    (w : Session)
    → P w
    → C w
    → Post (λ a. P) C (r, w)
lifts-Post P C (ok a) w h known = h
lifts-Post P C (err (invocation_error category detail)) w h known = known
lifts-Post P C (err value_error) w h known = tt
lifts-Post P C (err key_error) w h known = tt
