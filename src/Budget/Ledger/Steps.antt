-- ===== src/Budget/Ledger/Steps.antt =====
-- What a state change or a settlement does to its one item, and that the item never weighs more
-- behind it.
use my_team_tradding.Budget.Ledger.{Key, Ledger, charge, get, put, require, settle, transition}
use my_team_tradding.Budget.Ledger.Limits.{IsLighter}
use my_team_tradding.Budget.Types.{
  BudgetReservation, BudgetReservationState, dispatched, released, reserved, same_state, settled,
  uncertain,
}
use my_team_tradding.Decimal.{Decimal}
use my_team_tradding.Prelude.{
  ap, arith, not, not-eq-false, or-eq-false, refl, some, sym, true, ℕ, ◌||◌, ◌≡◌,
}
use my_team_tradding.Prelude.Int.{ltb_ℤ, ltb_ℤ→ge, pos, ◌≤ℤ◌}
use my_team_tradding.Prelude.Result.{>>=-returned, ok, ok-injective, passed-eq-ok, refused-eq-ok}

same_state→eq : (a b : BudgetReservationState) → same_state a b ≡ true → a ≡ b
same_state→eq a b h = ground arith

-- What an operation that returns has done: it wrote one updated item over the one it found.
abbrev pub Wrote : Key → (BudgetReservation → BudgetReservation → Type 0) → Ledger → Ledger → Type 0
Wrote k Changed l l' =
    (current : BudgetReservation) × (updated : BudgetReservation) × (get k l ≡ some current)
    × Changed current updated
    × (l' ≡ put k updated l)

-- The state and the time move; everything else stays.
pub record Moves (from to : BudgetReservationState) (at : ℕ) (r v : BudgetReservation)
    : Type 0 where
  pub before : r.state ≡ from
  pub after : v ≡ record r { state = to; updated_at = at }

pub record Settles (amount : Decimal) (at : ℕ) (r v : BudgetReservation) : Type 0 where
  pub before : r.state ≡ dispatched
  pub nonneg : pos 0 ≤ℤ amount
  pub within : amount ≤ℤ r.reserved_amount
  pub after : v ≡ record r { state = settled; settled_amount = some amount; updated_at = at }

require-eq-ok :
    (k : Key) (l : Ledger) (r : BudgetReservation) → require k l ≡ ok r → get k l ≡ some r
unfolding require
require-eq-ok k l r h = ground arith

pub transition-Moves :
    (k : Key) (from to : BudgetReservationState) (at : ℕ) (l l' : Ledger) (r : BudgetReservation)
    → transition k from to at l ≡ ok (r, l')
    → Wrote k (Moves from to at) l l'
unfolding transition
transition-Moves k from to at l l' r h =
    let (current, found, rest) = >>=-returned (require k l) _ h in
    let (before, written) = passed-eq-ok (same_state current.state from) _ _ _ rest in
    (
      current,
      record current { state = to; updated_at = at },
      require-eq-ok k l current found,
      record { before = same_state→eq _ _ before; after = refl },
      ap (λ p. p.1) (ok-injective (sym written)),
    )

pub settle-Settles :
    (k : Key) (amount : Decimal) (at : ℕ) (l l' : Ledger) (r : BudgetReservation)
    → settle k amount at l ≡ ok (r, l')
    → Wrote k (Settles amount at) l l'
unfolding settle
settle-Settles k amount at l l' r h =
    let (current, found, rest) = >>=-returned (require k l) _ h in
    let (before, rest') = refused-eq-ok (not (same_state current.state dispatched)) _ _ _ rest in
    let (bounds, written) =
      refused-eq-ok (ltb_ℤ amount (pos 0) || ltb_ℤ current.reserved_amount amount) _ _ _ rest' in
    let (nonneg, within) = or-eq-false _ _ bounds in
    (
      current,
      record current { state = settled; settled_amount = some amount; updated_at = at },
      require-eq-ok k l current found,
      record {
        before = same_state→eq _ _ (not-eq-false _ before);
        nonneg = ltb_ℤ→ge _ _ nonneg;
        within = ltb_ℤ→ge _ _ within;
        after = refl;
      },
      ap (λ p. p.1) (ok-injective (sym written)),
    )

-- The moves of the four operations that change only the state.
pub data Moveable : BudgetReservationState → BudgetReservationState → Type 0 where
  dispatches : Moveable reserved dispatched
  releases : Moveable reserved released
  loses : Moveable dispatched uncertain
  undoes : Moveable dispatched released

pub Moves-IsLighter :
    {from to : BudgetReservationState} {at : ℕ} {r v : BudgetReservation}
    → Moveable from to
    → Moves from to at r v
    → pos 0 ≤ℤ r.reserved_amount
    → IsLighter v r
unfolding charge
Moves-IsLighter dispatches m h = ground arith
Moves-IsLighter releases m h = ground arith
Moves-IsLighter loses m h = ground arith
Moves-IsLighter undoes m h = ground arith

pub Settles-IsLighter :
    {amount : Decimal} {at : ℕ} {r v : BudgetReservation}
    → Settles amount at r v
    → pos 0 ≤ℤ r.reserved_amount
    → IsLighter v r
unfolding charge
Settles-IsLighter s h = ground arith
