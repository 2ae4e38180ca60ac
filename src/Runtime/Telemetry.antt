-- ===== src/Runtime/Telemetry.antt =====
-- `_trace`, `_failure` and the cost of `_telemetry` of src/ai_trading_team/runtime/router.py, with the
-- validators of their results. Lists of reservations have the newest first.
-- `_telemetry`: what a reservation counts for.
use my_team_tradding.Budget.Types.{
  BudgetFault, BudgetReservation, BudgetReservationState, RuntimeFailureCategory,
  capability_incompatible, invalid_model_output, provider_timeout, provider_unavailable, released,
  same_state, schema_incompatible, settled, value_error,
}
use my_team_tradding.Decimal.{Decimal}
use my_team_tradding.Orchestration.Failures.{AgentFailureCategory, AgentRole, PolicyFault, resolve}
use my_team_tradding.Prelude.{
  Bool, List, Option, String, [], all, false, if◌then◌else◌, length, ltb, none, not, some, true, ℕ,
  ◌&&◌, ◌+◌, ◌-◌, ◌==◌, ◌∷◌,
}
use my_team_tradding.Prelude.Int.{ltb_ℤ, pos, ◌+ℤ◌}
use my_team_tradding.Prelude.Result.{Result, err, ok, ◌>>=◌}
use my_team_tradding.Runtime.Types.{
  AgentFailureRecord, InvocationTelemetry, InvocationTrace, MetricAvailability, metric_estimated,
  metric_reported, metric_unavailable,
}

unfoldable pub counted : BudgetReservation → Decimal
counted r = elim r.state [
  | settled ↦ elim r.settled_amount [ none ↦ r.reserved_amount | some amount ↦ amount ]
  | released ↦ pos 0
  | _ ↦ r.reserved_amount
]

unfoldable pub reserved_amount_of : List BudgetReservation → Decimal
unfolding counted
reserved_amount_of [] = pos 0
reserved_amount_of (r ∷ older) = counted r +ℤ reserved_amount_of older

abbrev pub is_released : BudgetReservation → Bool
is_released r = same_state r.state released

abbrev pub prior_attempts_are_released : List BudgetReservation → Bool
prior_attempts_are_released [] = true
prior_attempts_are_released (newest ∷ older) = all is_released older

-- The cost and how it is known: reported, estimated by the reservations, or unavailable.
abbrev pub cost_by :
    Bool → Option Decimal → List BudgetReservation → Option Decimal × MetricAvailability
cost_by true (some cost) reservations = (some cost, metric_reported)
cost_by _ _ [] = (none, metric_unavailable)
cost_by _ _ (newest ∷ older) = (some (reserved_amount_of (newest ∷ older)), metric_estimated)

-- `attempt_number` of the items, counted from the oldest
unfoldable pub is_numbered_down : List BudgetReservation → Bool
is_numbered_down [] = true
is_numbered_down (newest ∷ older) =
    newest.attempt_number == length older + 1 && is_numbered_down older

abbrev pub newest_state : List BudgetReservation → Option BudgetReservationState
newest_state [] = none
newest_state (newest ∷ older) = some newest.state

abbrev pub is_same_state : Option BudgetReservationState → Option BudgetReservationState → Bool
is_same_state none none = true
is_same_state (some a) (some b) = same_state a b
is_same_state _ _ = false

-- The cost that the schema admits: none when it is unavailable, else one that is not negative.
abbrev pub is_priced : MetricAvailability → Option Decimal → Bool
is_priced metric_unavailable none = true
is_priced metric_unavailable (some cost) = false
is_priced _ none = false
is_priced _ (some cost) = not (ltb_ℤ cost (pos 0))

-- `validate_cost`
unfoldable pub build_telemetry : InvocationTelemetry → Result BudgetFault InvocationTelemetry
unfolding is_numbered_down ltb_ℤ
build_telemetry t =
    if not (t.retry_count == t.attempt_count - 1)
    then err value_error
    else if not (is_priced t.estimated_cost_availability t.estimated_cost)
    then err value_error
    else if not (length t.attempt_reservations == t.attempt_count)
    then err value_error
    else if not (is_numbered_down t.attempt_reservations)
    then err value_error
    else if not (is_same_state t.reservation_state (newest_state t.attempt_reservations))
    then err value_error
    else ok t

-- `validate_window`
abbrev pub build_trace : InvocationTrace → Result BudgetFault InvocationTrace
build_trace t = if ltb t.request_completed_at t.request_started_at then err value_error else ok t

abbrev pub agent_category : RuntimeFailureCategory → AgentFailureCategory
agent_category provider_timeout = AgentFailureCategory.timeout
agent_category invalid_model_output = AgentFailureCategory.invalid_output
agent_category schema_incompatible = AgentFailureCategory.schema_mismatch
agent_category capability_incompatible = AgentFailureCategory.schema_mismatch
agent_category provider_unavailable = AgentFailureCategory.unavailable_agent
agent_category _ = AgentFailureCategory.unknown

abbrev pub of_policy {ℓ} : {A : Type ℓ} → Result PolicyFault A → Result BudgetFault A
of_policy (ok a) = ok a
of_policy (err fault) = err value_error

-- `_failure`
abbrev pub failure_record :
    AgentRole → RuntimeFailureCategory → String → ℕ → Result BudgetFault AgentFailureRecord
failure_record role category detail occurred_at =
    of_policy (resolve (agent_category category) (some role) (pos 0)) >>= λ disposition.
    ok (record {
      category = agent_category category;
      occurred_at = occurred_at;
      sanitized_detail = detail;
      disposition = disposition;
    })
