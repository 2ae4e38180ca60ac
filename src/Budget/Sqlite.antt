-- ===== src/Budget/Sqlite.antt =====
-- `SQLiteBudgetLedger` of src/ai_trading_team/storage/ai_budget.py. The table is the list of its rows
-- in insertion order, its key the pair (invocation_id, attempt_number). A transaction that raises is
-- rolled back, so a method returns the new table only with its result.
pub mod Loaded
pub mod Refine
pub mod Unique
pub mod Calls
use my_team_tradding.Budget.Ledger.{check_limits}
use my_team_tradding.Budget.Types.{
  AiBudgetPolicy, BudgetFault, BudgetReservation, BudgetReservationState, Calendar, dispatched,
  duplicate_invocation, invalid_request, invocation_error, key_error, released, reserved,
  same_state, settled, uncertain, value_error,
}
use my_team_tradding.Decimal.{Decimal}
use my_team_tradding.Prelude.{
  Bool, List, Option, String, [], false, if◌then◌else◌, ltb, none, not, some, str_eq, true, ℕ, ◌&&◌,
  ◌++◌, ◌-◌, ◌==◌, ◌||◌, ◌∷◌,
}
use my_team_tradding.Prelude.Int.{ltb_ℤ, pos}
use my_team_tradding.Prelude.Result.{Result, err, ok, ◌>>=◌}

abbrev pub Table : Type 0
Table = List BudgetReservation

-- `WHERE invocation_id = ? AND attempt_number = ?`
abbrev pub is_row : String → ℕ → BudgetReservation → Bool
is_row i n r = str_eq r.invocation_id i && r.attempt_number == n

-- `fetchone` of a selection.
unfoldable pub select_one : (BudgetReservation → Bool) → Table → Option BudgetReservation
select_one p [] = none
select_one p (r ∷ t) = if p r then some r else select_one p t

-- `UPDATE … WHERE …`
unfoldable pub update_rows :
    (BudgetReservation → Bool) → (BudgetReservation → BudgetReservation) → Table → Table
update_rows p f [] = []
update_rows p f (r ∷ t) = (if p r then f r else r) ∷ update_rows p f t

abbrev pub is_found : Option BudgetReservation → Bool
is_found none = false
is_found (some r) = true

unfoldable pub sqlite_get : String → ℕ → Table → Option BudgetReservation
unfolding select_one
sqlite_get i n t = select_one (is_row i n) t

-- The row that `INSERT` writes: the settled amount is NULL whatever the reservation holds.
abbrev pub inserted : BudgetReservation → BudgetReservation
inserted r = record r { settled_amount = none }

unfoldable pub sqlite_reserve :
    Calendar
    → BudgetReservation
    → AiBudgetPolicy
    → Table
    → Result BudgetFault (BudgetReservation × Table)
unfolding select_one check_limits
sqlite_reserve cal r policy t =
    if is_found (select_one (is_row r.invocation_id r.attempt_number) t)
      || (r.attempt_number == 1
          && is_found (select_one (λ row. str_eq row.invocation_id r.invocation_id) t))
    then err (invocation_error duplicate_invocation "invocation identity has already been reserved")
    else if ltb 1 r.attempt_number
        && not (is_found (select_one (is_row r.invocation_id (r.attempt_number - 1)) t))
    then err (invocation_error invalid_request "provider attempts must be reserved consecutively")
    else check_limits cal t r policy >>= λ _. ok (r, t ++ (inserted r ∷ []))

unfoldable pub sqlite_require : String → ℕ → Table → Result BudgetFault BudgetReservation
unfolding sqlite_get
sqlite_require i n t = elim (sqlite_get i n t) [ none ↦ err key_error | some r ↦ ok r ]

-- The update, and the row read again behind it.
unfoldable pub write_row :
    String
    → ℕ
    → (BudgetReservation → BudgetReservation)
    → Table
    → Result BudgetFault (BudgetReservation × Table)
unfolding sqlite_require update_rows
write_row i n f t =
    let t' = update_rows (is_row i n) f t in sqlite_require i n t' >>= λ row. ok (row, t')

unfoldable pub sqlite_transition :
    String
    → ℕ
    → BudgetReservationState
    → BudgetReservationState
    → ℕ
    → Table
    → Result BudgetFault (BudgetReservation × Table)
unfolding sqlite_require write_row
sqlite_transition i n expected target at t = sqlite_require i n t >>= λ current.
    if same_state current.state expected
    then write_row i n (λ row. record row { state = target; updated_at = at }) t
    else err value_error

unfoldable pub sqlite_settle :
    String → ℕ → Decimal → ℕ → Table → Result BudgetFault (BudgetReservation × Table)
unfolding sqlite_require write_row
sqlite_settle i n amount at t = sqlite_require i n t >>= λ current.
    if not (same_state current.state dispatched)
    then err value_error
    else if ltb_ℤ amount (pos 0) || ltb_ℤ current.reserved_amount amount
    then err value_error
    else write_row i n
        (λ row. record row { state = settled; settled_amount = some amount; updated_at = at }) t

unfoldable pub sqlite_mark_dispatched :
    String → ℕ → ℕ → Table → Result BudgetFault (BudgetReservation × Table)
unfolding sqlite_transition
sqlite_mark_dispatched i n at t = sqlite_transition i n reserved dispatched at t

unfoldable pub sqlite_release :
    String → ℕ → ℕ → Table → Result BudgetFault (BudgetReservation × Table)
unfolding sqlite_transition
sqlite_release i n at t = sqlite_transition i n reserved released at t

unfoldable pub sqlite_mark_uncertain :
    String → ℕ → ℕ → Table → Result BudgetFault (BudgetReservation × Table)
unfolding sqlite_transition
sqlite_mark_uncertain i n at t = sqlite_transition i n dispatched uncertain at t

unfoldable pub sqlite_release_undispatched_attempt :
    String → ℕ → ℕ → Table → Result BudgetFault (BudgetReservation × Table)
unfolding sqlite_transition
sqlite_release_undispatched_attempt i n at t = sqlite_transition i n dispatched released at t
