-- ===== src/Runtime/Overrun.antt =====
-- A response whose reported usage costs more than what was reserved for its attempt.
use my_team_tradding.Budget.Ledger.{Key, Ledger, get, require, settle}
use my_team_tradding.Budget.Types.{
  BudgetFault, BudgetReservation, dispatched, same_state, value_error,
}
use my_team_tradding.Decimal.{Decimal}
use my_team_tradding.Prelude.{
  Bool, false, if◌then◌else◌, none, not, refl, some, suc, true, ℕ, ◌||◌, ◌≡◌,
}
use my_team_tradding.Prelude.Int.{ltb_ℤ, lt→ltb_ℤ, pos, ◌<ℤ◌}
use my_team_tradding.Prelude.Result.{Result, err}
use my_team_tradding.Prelude.State.{◌>>=◌}
use my_team_tradding.Runtime.Invoke.{caught, completes, handles, pays}
use my_team_tradding.Runtime.Router.{Session, Settings, Surroundings, reported_cost}
use my_team_tradding.Runtime.Types.{AgentInvocationRequest, ProviderResponse}
use my_team_tradding.Time.{aware, normalize_utc}

refused_anyway :
    (a b : Bool) (r : Result BudgetFault (BudgetReservation × Ledger))
    → (if a then err value_error else if b || true then err value_error else r) ≡ err value_error
refused_anyway true b r = refl
refused_anyway false true r = refl
refused_anyway false false r = refl

settle_above :
    (k : Key) (amount : Decimal) (at : ℕ) (l : Ledger) (r : BudgetReservation)
    → get k l ≡ some r
    → r.reserved_amount <ℤ amount
    → settle k amount at l ≡ err value_error
unfolding settle require
settle_above k amount at l r found above =
    let over : ltb_ℤ r.reserved_amount amount ≡ true = lt→ltb_ℤ r.reserved_amount amount above in
    rw (found, require, over)
      (refused_anyway (not (same_state r.state dispatched)) (ltb_ℤ amount (pos 0)) _)

module _ (s : Surroundings) (g : Settings) (invocation : AgentInvocationRequest)
    (started_at started_monotonic : ℕ) where
  -- Where a response reports a usage that costs more than the reserved amount of its attempt, the
  -- invocation raises an exception that its handler lets through, and the ledger stays as it was, so
  -- the attempt stays dispatched.
  pub completes_above_reservation :
      (response : ProviderResponse) (a t : ℕ) (cost : Decimal) (r : BudgetReservation) (w : Session)
      → s.clock w.readings ≡ aware t
      → reported_cost s.context response.usage g.pricing ≡ some cost
      → get (invocation.invocation_id, a) w.ledger ≡ some r
      → r.reserved_amount <ℤ cost
      → caught s g invocation started_at started_monotonic
          (completes s g invocation started_at started_monotonic none (some response) a w)
        ≡ (err value_error, record w { readings = suc w.readings })
  unfolding completes handles pays ◌>>=◌ normalize_utc
  completes_above_reservation response a t cost r w dated reported found above =
      rw
        (
          dated,
          normalize_utc,
          reported,
          pays,
          settle_above (invocation.invocation_id, a) cost t w.ledger r found above,
        )
        refl
