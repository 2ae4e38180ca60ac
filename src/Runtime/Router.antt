-- ===== src/Runtime/Router.antt =====
-- The attempts of `RuntimeRouter.invoke` of src/ai_trading_team/runtime/router.py, for one invocation at a time. The two
-- clocks are parameters whose readings are counted; the monotonic one ticks in microseconds. The local
-- variables that the exception handler reads stand in the session beside the ledger.
use my_team_tradding.Budget.Guard.{estimate_reported_cost, reserve}
use my_team_tradding.Budget.Ledger.{
  Ledger, mark_dispatched, mark_uncertain, release_undispatched_attempt,
}
use my_team_tradding.Budget.Types.{
  AiBudgetPolicy, BudgetFault, BudgetReservation, BudgetReservationState, Calendar, ModelProvider,
  PricingProfile, RuntimeFailureCategory, RuntimeProfile, invocation_error, provider_rate_limit,
  provider_timeout, provider_transient, unknown_provider_error, value_error,
}
use my_team_tradding.Decimal.{Decimal, DecimalContext}
use my_team_tradding.Orchestration.Failures.{AgentRole}
use my_team_tradding.Outcomes.{turn}
use my_team_tradding.Prelude.{
  Bool, List, Option, String, [], false, if◌then◌else◌, leb, ltb, none, some, suc, true, zero, ℕ,
  ◌&&◌, ◌*◌, ◌+◌, ◌∷◌,
}
use my_team_tradding.Prelude.Result.{Result, err, ok}
use my_team_tradding.Prelude.State.{Stateful, returns, ◌>>=◌}
use my_team_tradding.Runtime.Types.{
  AgentInvocationRequest, InvocationUsage, ModelCapabilityProfile, ModelProviderAdapter,
  PromptArtifact, ProviderError, ProviderOutcome, ProviderResponse, RetryPolicy, TokenEstimate,
  crashed, refused, responded, timed_out,
}
use my_team_tradding.Time.{Datetime, normalize_utc}

pub record Session : Type 0 where
  pub ledger : Ledger
  pub readings : ℕ
  pub ticks : ℕ
  pub attempts : ℕ
  -- the newest first
  pub attempt_reservations : List BudgetReservation
  pub reservation_state : Option BudgetReservationState
  pub provider_response : Option ProviderResponse

abbrev pub Routine : Type 0 → Type 0
Routine A = Stateful BudgetFault Session A

-- What `provider_request` and the contract turn a response into: the warnings of the parsed body, or
-- nothing where `parse_model_body` rejects it; and whether the body fits the output envelope.
pub record Parsing : Type 0 where
  pub parse_model_body : AgentRole → String → Option Bool
  pub fits_envelope : AgentInvocationRequest → ProviderResponse → Bool

pub record Settings : Type 0 where
  pub runtime : RuntimeProfile
  pub capability : ModelCapabilityProfile
  pub retry_policy : RetryPolicy
  pub budget_policy : AiBudgetPolicy
  pub pricing : PricingProfile

pub record Surroundings : Type 0 where
  pub clock : ℕ → Datetime
  pub monotonic_clock : ℕ → ℕ
  pub prompts : String → String → Option PromptArtifact
  pub providers : ModelProvider → Option ModelProviderAdapter
  pub parsing : Parsing
  pub context : DecimalContext
  pub calendar : Calendar

-- A call of the guard on the ledger.
abbrev pub ledger_outcome :
    Session
    → Result BudgetFault (BudgetReservation × Ledger)
    → Result BudgetFault BudgetReservation × Session
ledger_outcome w (ok (r, l)) = (ok r, record w { ledger = l })
ledger_outcome w (err fault) = (err fault, w)

abbrev pub ledger_call :
    (Ledger → Result BudgetFault (BudgetReservation × Ledger)) → Routine BudgetReservation
ledger_call f w = ledger_outcome w (f w.ledger)

-- `attempts = attempt` and the append of the reservation
abbrev pub begins : ℕ → BudgetReservation → Routine (Unit {0})
begins attempt r w =
    (ok tt, record w { attempts = attempt; attempt_reservations = r ∷ w.attempt_reservations })

abbrev pub replace_newest : BudgetReservation → List BudgetReservation → List BudgetReservation
replace_newest r [] = []
replace_newest r (newest ∷ older) = r ∷ older

-- `attempt_reservations[-1] = reservation` and `reservation_state = reservation.state`
abbrev pub updates : BudgetReservation → Routine (Unit {0})
updates r w = (
  ok tt,
  record w {
    attempt_reservations = replace_newest r w.attempt_reservations;
    reservation_state = some r.state;
  },
)

abbrev pub answers : ProviderResponse → Routine (Unit {0})
answers response w = (ok tt, record w { provider_response = some response })

abbrev pub timeout_error : String → Bool → Bool → ProviderError
timeout_error detail retryable dispatch_occurred = record {
  category = provider_timeout;
  detail = detail;
  retryable = retryable;
  dispatch_occurred = dispatch_occurred;
}

abbrev pub crash_error : ProviderError
crash_error = record {
  category = unknown_provider_error;
  detail = "provider adapter failed unexpectedly";
  retryable = false;
  dispatch_occurred = true;
}

-- `_retry_allowed`
abbrev pub retry_by : RuntimeFailureCategory → RetryPolicy → Bool
retry_by provider_timeout policy = policy.retry_timeouts
retry_by provider_transient policy = policy.retry_transient_errors
retry_by provider_rate_limit policy = policy.retry_rate_limits
retry_by _ policy = false

unfoldable pub retry_allowed : ProviderError → RetryPolicy → Bool
retry_allowed failure policy = if failure.retryable then retry_by failure.category policy else false

-- `_reported_cost`
unfoldable pub reported_cost : DecimalContext → InvocationUsage → PricingProfile → Option Decimal
unfolding estimate_reported_cost
reported_cost c usage pricing = elim usage.input_tokens [
  | none ↦ none
  | some input ↦ elim usage.output_tokens [
    | none ↦ none
    | some output ↦ some (estimate_reported_cost c input output pricing)
  ]
]

abbrev pub raised : ProviderError → BudgetFault
raised failure = invocation_error failure.category failure.detail

module _ (s : Surroundings) where
  -- `_utc_now`
  abbrev pub utc_now : Routine ℕ
  utc_now w =
      (normalize_utc value_error (s.clock w.readings), record w { readings = suc w.readings })

  abbrev pub monotonic : Routine ℕ
  monotonic w = (ok (s.monotonic_clock w.ticks), record w { ticks = suc w.ticks })

  module _ (g : Settings) (invocation : AgentInvocationRequest) (adapter : ModelProviderAdapter)
      (estimate : TokenEstimate) (started_monotonic : ℕ) where
    -- After a call that failed: uncertain when it may have been dispatched, released otherwise.
    unfoldable pub closes : Bool → ℕ → ℕ → Routine BudgetReservation
    unfolding mark_uncertain release_undispatched_attempt
    closes true attempt at = ledger_call (mark_uncertain (invocation.invocation_id, attempt) at)
    closes false attempt at =
        ledger_call (release_undispatched_attempt (invocation.invocation_id, attempt) at)

    abbrev pub fails : ℕ → ProviderError → Routine (Option ProviderError)
    fails attempt failure = utc_now >>= λ at. closes failure.dispatch_occurred attempt at >>= λ r.
        updates r >>= λ done. returns (some failure)

    -- What follows the call of the provider: the error that it leaves, if any.
    unfoldable pub concludes : ℕ → ProviderOutcome → Routine (Option ProviderError)
    unfolding closes
    concludes attempt (responded response) = answers response >>= λ done. returns none
    concludes attempt (refused failure) = fails attempt failure
    concludes attempt timed_out =
        fails attempt (timeout_error "provider request timed out" true true)
    concludes attempt crashed = fails attempt crash_error

    -- The body of the loop up to the test for another attempt.
    unfoldable pub attempts_once : ℕ → Routine (Option ProviderError)
    unfolding reserve mark_dispatched
    attempts_once attempt = utc_now >>= λ at.
        ledger_call (
          reserve s.context s.calendar invocation.invocation_id invocation.cycle_id g.runtime
            estimate.tokens g.budget_policy g.pricing at attempt)
        >>= λ r. begins attempt r >>= λ begun. utc_now >>= λ later_at.
            ledger_call (mark_dispatched (invocation.invocation_id, attempt) later_at) >>= λ r'.
            updates r' >>= λ done. concludes attempt (adapter.invoke attempt)

    abbrev pub is_over : ℕ → Bool
    is_over moment = leb (g.runtime.total_timeout_seconds * 1000000 + started_monotonic) moment

    -- Whether another attempt follows: `rest` is what it does.
    abbrev pub again :
        ℕ → Routine (Option ProviderError) → Option ProviderError → Routine (Option ProviderError)
    again attempt rest none = returns none
    again attempt rest (some failure) =
        if retry_allowed failure g.retry_policy && ltb attempt g.retry_policy.max_attempts
        then rest
        else returns (some failure)

    abbrev pub unless_over : ℕ → Routine (Option ProviderError) → Routine (Option ProviderError)
    unless_over moment turn =
        if is_over moment
        then returns (some (timeout_error "total invocation timeout exceeded" false false))
        else turn

    -- The loop over the attempts, of which `n` are left: the last error, if any.
    unfoldable pub tries : ℕ → ℕ → Routine (Option ProviderError)
    unfolding retry_allowed
    tries zero attempt = returns none
    tries (suc n) attempt =
        let rest = tries n (suc attempt) in
        monotonic >>= λ moment.
        unless_over moment (attempts_once attempt >>= λ outcome. again attempt rest outcome)
