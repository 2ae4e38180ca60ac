-- ===== src/Budget/Guard.antt =====
-- `BudgetGuard.reserve` and `estimate_maximum_cost` of src/ai_trading_team/runtime/budget.py.
pub mod Reserve
use my_team_tradding.Budget.Ledger.{Ledger, budget_error, reserve_if_within}
use my_team_tradding.Budget.Types.{
  AiBudgetPolicy, BudgetFault, BudgetReservation, Calendar, ModelProvider, PricingProfile,
  RuntimeProfile, anthropic, fake, gemini, invalid_request, invocation_error, openai, reserved,
}
use my_team_tradding.Decimal.{Decimal, DecimalContext, of_int}
use my_team_tradding.Prelude.{
  Bool, Option, String, false, if◌then◌else◌, leb, ltb, none, not, some, str_eq, true, ℕ, ◌||◌,
}
use my_team_tradding.Prelude.Int.{ltb_ℤ, ◌+ℤ◌}
use my_team_tradding.Prelude.Result.{Result, err, ok, ◌>>=◌}

unfoldable pub estimate_maximum_cost : DecimalContext → ℕ → ℕ → PricingProfile → Decimal
estimate_maximum_cost c input_tokens maximum_output_tokens pricing =
    let input_cost =
      c.div (c.mul (of_int c input_tokens) pricing.input_cost_per_million_tokens)
        (of_int c 1000000) in
    let output_cost =
      c.div (c.mul (of_int c maximum_output_tokens) pricing.output_cost_per_million_tokens)
        (of_int c 1000000) in
    input_cost +ℤ output_cost

unfoldable pub estimate_reported_cost : DecimalContext → ℕ → ℕ → PricingProfile → Decimal
unfolding estimate_maximum_cost
estimate_reported_cost c usage_input usage_output pricing =
    estimate_maximum_cost c usage_input usage_output pricing

abbrev pub same_provider : ModelProvider → ModelProvider → Bool
same_provider openai openai = true
same_provider anthropic anthropic = true
same_provider gemini gemini = true
same_provider fake fake = true
same_provider _ _ = false

-- `moment < valid_from or (valid_until is not None and moment >= valid_until)`
abbrev pub is_outside_window : PricingProfile → ℕ → Bool
is_outside_window pricing moment =
    ltb moment pricing.valid_from
    || elim pricing.valid_until [ none ↦ false | some limit ↦ leb limit moment ]

-- The checks of `reserve` up to the token bounds, currency and window, in order; they give the
-- token estimate.
unfoldable pub preflight :
    RuntimeProfile → Option ℕ → AiBudgetPolicy → PricingProfile → ℕ → Result BudgetFault ℕ
preflight runtime estimate policy pricing moment =
    if not (str_eq runtime.cost_policy_ref policy.policy_ref)
    then err (
        invocation_error invalid_request
          "runtime cost policy reference does not match supplied policy")
    else if not (str_eq runtime.pricing_profile_ref pricing.profile_ref)
        || (not (same_provider runtime.provider pricing.provider)
            || not (str_eq runtime.model_identifier pricing.model_identifier))
    then err (
        invocation_error invalid_request
          "runtime provider/model does not match supplied pricing profile")
    else elim estimate [
      | none ↦ err (budget_error "input token estimate unavailable for conservative preflight")
      | some tokens ↦
          if ltb policy.maximum_input_tokens tokens
          then err (budget_error "maximum input tokens exceeded")
          else if ltb policy.maximum_output_tokens runtime.max_output_tokens
          then err (budget_error "maximum output tokens exceeded")
          else if not (str_eq pricing.currency policy.currency)
          then err (invocation_error invalid_request "pricing and budget currencies differ")
          else if is_outside_window pricing moment
          then err
              (invocation_error invalid_request "pricing profile is not valid at invocation time")
          else ok tokens
    ]

-- The reservation that `reserve` hands to the ledger.
abbrev pub new_reservation : String → ℕ → String → AiBudgetPolicy → Decimal → ℕ → BudgetReservation
new_reservation invocation_id attempt_number cycle_id policy estimated moment = record {
  invocation_id = invocation_id;
  attempt_number = attempt_number;
  cycle_id = cycle_id;
  policy_ref = policy.policy_ref;
  state = reserved;
  reserved_amount = estimated;
  settled_amount = none;
  currency = policy.currency;
  created_at = moment;
  updated_at = moment;
}

unfoldable pub reserve :
    DecimalContext
    → Calendar
    → String
    → String
    → RuntimeProfile
    → Option ℕ
    → AiBudgetPolicy
    → PricingProfile
    → ℕ
    → ℕ
    → Ledger
    → Result BudgetFault (BudgetReservation × Ledger)
unfolding preflight estimate_maximum_cost reserve_if_within
reserve c cal invocation_id cycle_id runtime estimate policy pricing moment attempt_number l =
    preflight runtime estimate policy pricing moment >>= λ tokens.
    let estimated = estimate_maximum_cost c tokens runtime.max_output_tokens pricing in
    if ltb_ℤ policy.maximum_estimated_cost_per_call estimated
    then err (budget_error "maximum estimated cost per call exceeded")
    else reserve_if_within cal
        (new_reservation invocation_id attempt_number cycle_id policy estimated moment) policy l
