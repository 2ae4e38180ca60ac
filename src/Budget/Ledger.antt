-- ===== src/Budget/Ledger.antt =====
-- `InMemoryBudgetLedger` of src/ai_trading_team/runtime/budget.py. The dictionary is an association
-- list in insertion order; every method holds the lock for its whole body, so a method is one step.
pub mod Sums
pub mod Limits
pub mod Store
pub mod Steps
use my_team_tradding.Budget.Types.{
  AiBudgetPolicy, BudgetFault, BudgetReservation, BudgetReservationState, Calendar, budget_exceeded,
  day_of, dispatched, duplicate_invocation, invalid_request, invocation_error, key_error, released,
  reserved, same_state, settled, uncertain, value_error,
}
use my_team_tradding.Decimal.{Decimal}
use my_team_tradding.Prelude.{
  Bool, List, Option, String, [], false, filter, if◌then◌else◌, leb, length, ltb, map, none, not,
  some, str_eq, true, ℕ, ◌&&◌, ◌-◌, ◌==◌, ◌||◌, ◌∷◌,
}
use my_team_tradding.Prelude.Int.{ltb_ℤ, pos, ◌+ℤ◌}
use my_team_tradding.Prelude.Result.{Result, err, ok, ◌>>=◌}

abbrev pub Key : Type 0
Key = String × ℕ

unfoldable pub same_key : Key → Key → Bool
same_key (i, n) (j, m) = str_eq i j && n == m

abbrev pub Ledger : Type 0
Ledger = List (Key × BudgetReservation)

unfoldable pub get : Key → Ledger → Option BudgetReservation
get k [] = none
get k ((j, r) ∷ l) = if same_key j k then some r else get k l

-- `self._records[key] = value`: in place for a known key, at the end for a new one.
unfoldable pub put : Key → BudgetReservation → Ledger → Ledger
put k v [] = (k, v) ∷ []
put k v ((j, r) ∷ l) = if same_key j k then (j, v) ∷ l else (j, r) ∷ put k v l

abbrev pub values : Ledger → List BudgetReservation
values l = map (λ e. e.1) l

-- `attempt in existing_attempts`
unfoldable pub has_attempt : String → ℕ → Ledger → Bool
has_attempt i n [] = false
has_attempt i n (((j, m), r) ∷ l) = (str_eq j i && m == n) || has_attempt i n l

-- `bool(existing_attempts)`
unfoldable pub has_any_attempt : String → Ledger → Bool
has_any_attempt i [] = false
has_any_attempt i (((j, m), r) ∷ l) = str_eq j i || has_any_attempt i l

-- What an item counts for: its settled amount once it is settled, else what it reserves.
unfoldable pub charge : BudgetReservation → Decimal
charge r = elim r.state [
  | settled ↦ elim r.settled_amount [ none ↦ r.reserved_amount | some amount ↦ amount ]
  | _ ↦ r.reserved_amount
]

-- `_total`; the sum is exact, so its order does not matter.
unfoldable pub total : List BudgetReservation → Decimal
total [] = pos 0
total (r ∷ rs) = charge r +ℤ total rs

unfoldable pub is_active : String → BudgetReservation → Bool
is_active policy_ref r = not (same_state r.state released) && str_eq r.policy_ref policy_ref

abbrev pub is_same_day : ℕ → BudgetReservation → Bool
is_same_day at r = day_of r.created_at == day_of at

abbrev pub is_same_month : Calendar → ℕ → BudgetReservation → Bool
is_same_month cal at r = cal.month (day_of r.created_at) == cal.month (day_of at)

abbrev pub is_same_cycle : String → BudgetReservation → Bool
is_same_cycle cycle_id r = str_eq r.cycle_id cycle_id

abbrev pub active : String → List BudgetReservation → List BudgetReservation
active policy_ref rs = filter (is_active policy_ref) rs

abbrev pub budget_error : String → BudgetFault
budget_error detail = invocation_error budget_exceeded detail

-- The four limits, in the order of the source.
unfoldable pub check_limits :
    Calendar
    → List BudgetReservation
    → BudgetReservation
    → AiBudgetPolicy
    → Result BudgetFault (Unit {0})
check_limits cal rs r policy =
    let items = active policy.policy_ref rs in
    let same_day = filter (is_same_day r.created_at) items in
    let same_month = filter (is_same_month cal r.created_at) items in
    if leb policy.maximum_calls_per_cycle (length (filter (is_same_cycle r.cycle_id) items))
    then err (budget_error "maximum calls per cycle exceeded")
    else if leb policy.maximum_calls_per_day (length same_day)
    then err (budget_error "maximum calls per day exceeded")
    else if ltb_ℤ policy.daily_budget (total same_day +ℤ r.reserved_amount)
    then err (budget_error "daily AI budget exceeded")
    else if ltb_ℤ policy.monthly_budget (total same_month +ℤ r.reserved_amount)
    then err (budget_error "monthly AI budget exceeded")
    else ok tt

unfoldable pub has_key : Key → Ledger → Bool
unfolding get
has_key k l = elim (get k l) [ none ↦ false | some r ↦ true ]

unfoldable pub reserve_if_within :
    Calendar
    → BudgetReservation
    → AiBudgetPolicy
    → Ledger
    → Result BudgetFault (BudgetReservation × Ledger)
unfolding has_key has_any_attempt has_attempt check_limits put
reserve_if_within cal r policy l =
    let key : Key = (r.invocation_id, r.attempt_number) in
    if has_key key l || (r.attempt_number == 1 && has_any_attempt r.invocation_id l)
    then err (invocation_error duplicate_invocation "invocation identity has already been reserved")
    else if ltb 1 r.attempt_number && not (has_attempt r.invocation_id (r.attempt_number - 1) l)
    then err (invocation_error invalid_request "provider attempts must be reserved consecutively")
    else check_limits cal (values l) r policy >>= λ _. ok (r, put key r l)

unfoldable pub require : Key → Ledger → Result BudgetFault BudgetReservation
unfolding get
require k l = elim (get k l) [ none ↦ err key_error | some r ↦ ok r ]

unfoldable pub transition :
    Key
    → BudgetReservationState
    → BudgetReservationState
    → ℕ
    → Ledger
    → Result BudgetFault (BudgetReservation × Ledger)
unfolding require put
transition k expected target at l = require k l >>= λ current.
    let updated : BudgetReservation = record current { state = target; updated_at = at } in
    if same_state current.state expected then ok (updated, put k updated l) else err value_error

unfoldable pub mark_dispatched : Key → ℕ → Ledger → Result BudgetFault (BudgetReservation × Ledger)
unfolding transition
mark_dispatched k at l = transition k reserved dispatched at l

unfoldable pub release : Key → ℕ → Ledger → Result BudgetFault (BudgetReservation × Ledger)
unfolding transition
release k at l = transition k reserved released at l

unfoldable pub mark_uncertain : Key → ℕ → Ledger → Result BudgetFault (BudgetReservation × Ledger)
unfolding transition
mark_uncertain k at l = transition k dispatched uncertain at l

unfoldable pub release_undispatched_attempt :
    Key → ℕ → Ledger → Result BudgetFault (BudgetReservation × Ledger)
unfolding transition
release_undispatched_attempt k at l = transition k dispatched released at l

unfoldable pub settle : Key → Decimal → ℕ → Ledger → Result BudgetFault (BudgetReservation × Ledger)
unfolding require put
settle k amount at l = require k l >>= λ current.
    let updated : BudgetReservation = record current {
      state = settled;
      settled_amount = some amount;
      updated_at = at;
    } in
    if not (same_state current.state dispatched)
    then err value_error
    else if ltb_ℤ amount (pos 0) || ltb_ℤ current.reserved_amount amount
    then err value_error
    else ok (updated, put k updated l)
