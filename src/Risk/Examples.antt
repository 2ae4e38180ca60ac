-- ===== src/Risk/Examples.antt =====
-- One proposal through the risk component, and the theorems of the component at it. Amounts are
-- in thousandths.
use my_team_tradding.Decimal.{Decimal, IsDivisible, floor, is_divisible, rem}
use my_team_tradding.Decimal.RoundUp.{round_up, round_up-IsSignSafe}
use my_team_tradding.Prelude.{[], arith, false, refl, some, true, ℕ, ◌*◌, ◌↔◌, ◌≡◌, ◌⊎◌}
use my_team_tradding.Prelude.Int.{abs_ℤ, eqb_ℤ, leb_ℤ, ltb_ℤ, max_ℤ, min_ℤ, pos, ◌+ℤ◌, ◌-ℤ◌, ◌≤ℤ◌}
use my_team_tradding.Prelude.Result.{err, ok}
use my_team_tradding.Risk.Account.{
  Fingerprinting, account_fingerprint, account_metrics, account_state, context_reasons, evaluate,
  limit_reasons,
}
use my_team_tradding.Risk.Account.Bounds.{IsConstitution}
use my_team_tradding.Risk.Account.Total.{HasBaselines, assessment, evaluate_total}
use my_team_tradding.Risk.Engine.{RiskDecision, decide_risk, evaluate_risk}
use my_team_tradding.Risk.Engine.Banded.{IsDecisionBanded, evaluate_risk-IsBanded}
use my_team_tradding.Risk.Engine.Safety.{IsAuthorized, approved-IsAuthorized, halted-iff-limit}
use my_team_tradding.Risk.Engine.Total.{evaluate_risk_total}
use my_team_tradding.Risk.Proposal.{ProposalValidationResult, overruns, valid, validate, validation}
use my_team_tradding.Risk.Proposal.Accept.{accepted, validate_sound}
use my_team_tradding.Risk.Proposal.Exact.{HasQuotients, validate_exact}
use my_team_tradding.Risk.Proposal.Sound.{IsSound}
use my_team_tradding.Risk.Sizing.{
  PositionSizingOutcome, approve, build_sizing, calculate, sizing_base, step_overruns,
}
use my_team_tradding.Risk.Sizing.Sound.{IsAccounted, calculate-IsAccounted}
use my_team_tradding.Risk.Sizing.Total.{calculate_total}
use my_team_tradding.Risk.Types.{
  AccountRiskContext, MarketSnapshot, RiskConstitutionSettings, RiskDecisionStatus, SymbolInfo,
  TradeProposal, buy, demo, full, is_per_trade_percentage, validate_constitution, value_error,
}
use my_team_tradding.Time.{aware, naive}

abbrev pub cents : ℕ → Decimal
cents n = pos (n * 10)

abbrev pub printing : Fingerprinting
printing = record { casefold = λ s. s; print = λ n. "7"; sha256_hex = λ s. "00" }

abbrev pub settings : RiskConstitutionSettings
settings = record {
  minimum_risk_percent = cents 25;
  normal_risk_percent = cents 50;
  maximum_risk_percent = cents 100;
  maximum_open_positions = 1;
  maximum_daily_loss_percent = cents 300;
  drawdown_warning_percent = cents 500;
  drawdown_safe_mode_percent = cents 800;
  drawdown_stop_percent = cents 1500;
  minimum_risk_reward = cents 150;
  stop_loss_required = true;
  martingale_enabled = false;
  averaging_down_enabled = false;
  revenge_trading_enabled = false;
}

abbrev pub proposal : TradeProposal
proposal = record {
  cycle_id = "c1";
  timestamp = 20;
  proposal_id = "p1";
  snapshot_id = "s1";
  symbol = "XAUUSD";
  side = buy;
  entry = some (cents 10000);
  stop_loss = some (cents 9900);
  take_profit = some (cents 10200);
}

abbrev pub gold : SymbolInfo
gold = record {
  selected = true;
  visible = true;
  point = cents 1;
  trade_tick_size = cents 1;
  trade_tick_value = cents 1;
  trade_contract_size = cents 10000;
  volume_min = cents 1;
  volume_max = cents 1000;
  volume_step = cents 1;
  trade_stops_level = 10;
  trading_mode = full;
}

abbrev pub snapshot : MarketSnapshot
snapshot = record {
  cycle_id = "c1";
  snapshot_id = "s1";
  symbol = "XAUUSD";
  snapshot_completed_at = 10;
  symbol_info = gold;
  account = record {
    account_id = 7;
    server = "demo";
    trade_mode = demo;
    trade_allowed = true;
    expert_trading_allowed = true;
    equity = cents 5000;
  };
  open_positions = [];
}

abbrev pub context : AccountRiskContext
context = record {
  cycle_id = "c1";
  snapshot_id = "s1";
  account_ref = "acct-v1:00";
  context_as_of = 15;
  trading_day_started_at = 1;
  cash_flow_adjusted_peak_equity = cents 5000;
  adjusted_day_start_equity = cents 5000;
  account_open_position_count = 0;
}

abbrev sized_outcome : PositionSizingOutcome
sized_outcome = record {
  result = some (approve round_up (sizing_base round_up (cents 5000) (cents 50) (cents 100) gold));
  reasons = [];
}

abbrev approval : RiskDecision
approval =
    decide_risk proposal snapshot context 30
      (assessment round_up printing settings snapshot context 30) [] sized_outcome

-- All that a run of the engine computes with.
run : Unit {0}
unfolding validate validation overruns is_divisible step_overruns evaluate evaluate_risk calculate
    approve sizing_base decide_risk account_metrics account_state limit_reasons context_reasons
    account_fingerprint round_up abs_ℤ ◌+ℤ◌ ◌-ℤ◌ ltb_ℤ leb_ℤ eqb_ℤ max_ℤ min_ℤ rem floor
    build_sizing validate_constitution
run = tt

settings-IsConstitution : IsConstitution round_up settings
unfolding run
settings-IsConstitution = record {
  min_nonneg = omega arith;
  max_le_one = omega arith;
  loss_nonneg = omega arith;
  warning_nonneg = omega arith;
  validated = refl;
}

context-HasBaselines : HasBaselines context
context-HasBaselines = omega arith

evaluate_approves :
    evaluate_risk round_up printing settings proposal snapshot context (aware 30) ≡ ok approval
unfolding run
evaluate_approves = refl

approval_status : approval.status ≡ RiskDecisionStatus.approved
unfolding run
approval_status = refl

validate_exact_example :
    ((r : ProposalValidationResult) × (validate round_up settings proposal snapshot ≡ ok r)
      × (valid r ≡ true))
    ↔ (IsSound round_up settings proposal snapshot × HasQuotients round_up proposal gold)
validate_exact_example = validate_exact round_up settings proposal snapshot

abbrev accepted_result : ProposalValidationResult
accepted_result = accepted round_up settings (cents 10000) (cents 9900) (cents 10200)

validates : validate round_up settings proposal snapshot ≡ ok accepted_result
unfolding run
validates = refl

accepted_result-valid : valid accepted_result ≡ true
unfolding run
accepted_result-valid = refl

proposal-IsSound : IsSound round_up settings proposal snapshot
proposal-IsSound = (validate_exact_example.0 (accepted_result, validates, accepted_result-valid)).0

proposal-HasQuotients : HasQuotients round_up proposal gold
proposal-HasQuotients =
    (validate_exact_example.0 (accepted_result, validates, accepted_result-valid)).1

gold-IsDivisible : IsDivisible round_up gold.volume_max gold.volume_step
unfolding run
gold-IsDivisible = omega arith

validate_sound_example :
    validation round_up settings proposal snapshot
    ≡ accepted round_up settings proposal-IsSound.entry proposal-IsSound.stop_loss
        proposal-IsSound.take_profit
validate_sound_example = validate_sound round_up settings proposal snapshot proposal-IsSound

percentage : is_per_trade_percentage round_up (cents 50) ≡ true
unfolding is_per_trade_percentage run
percentage = refl

calculate_total_example :
    (o : PositionSizingOutcome) × (calculate round_up (cents 5000) (cents 50) (cents 100) gold
      ≡ ok o)
calculate_total_example =
    calculate_total round_up round_up-IsSignSafe (cents 5000) (cents 50) (cents 100) gold percentage
      gold-IsDivisible

calculates : calculate round_up (cents 5000) (cents 50) (cents 100) gold ≡ ok sized_outcome
unfolding run
calculates = refl

calculate-IsAccounted_example :
    IsAccounted round_up (cents 5000) (cents 50) (cents 100) gold sized_outcome
calculate-IsAccounted_example =
    calculate-IsAccounted round_up (cents 5000) (cents 50) (cents 100) gold sized_outcome calculates

evaluate_total_example :
    ((now : ℕ)
      → evaluate round_up printing settings snapshot context (aware now)
        ≡ ok (assessment round_up printing settings snapshot context now))
    × ((t : ℕ) → evaluate round_up printing settings snapshot context (naive t) ≡ err value_error)
evaluate_total_example =
    evaluate_total round_up round_up-IsSignSafe printing settings snapshot context
      settings-IsConstitution context-HasBaselines

evaluate_risk_total_example :
    (d : RiskDecision) × (evaluate_risk round_up printing settings proposal snapshot context
        (aware 30)
      ≡ ok d)
evaluate_risk_total_example =
    evaluate_risk_total round_up printing settings proposal snapshot context 30 round_up-IsSignSafe
      settings-IsConstitution context-HasBaselines proposal-HasQuotients gold-IsDivisible

approved-IsAuthorized_example :
    IsAuthorized round_up printing settings proposal snapshot context 30 approval
approved-IsAuthorized_example =
    approved-IsAuthorized round_up printing settings proposal snapshot context 30
      round_up-IsSignSafe settings-IsConstitution context-HasBaselines approval evaluate_approves
      approval_status

halted-iff-limit_example : (approval.status ≡ RiskDecisionStatus.halted) ↔ (
    (cents 5000 ≤ℤ pos 0)
    ⊎ (cents 300 ≤ℤ approval.account_metrics.daily_loss_percent)
    ⊎ (cents 1500 ≤ℤ approval.account_metrics.drawdown_percent))
halted-iff-limit_example =
    halted-iff-limit round_up printing settings proposal snapshot context 30 round_up-IsSignSafe
      settings-IsConstitution context-HasBaselines approval evaluate_approves

evaluate_risk-IsBanded_example :
    IsDecisionBanded round_up printing settings proposal snapshot context 30 round_up-IsSignSafe
      settings-IsConstitution context-HasBaselines approval
evaluate_risk-IsBanded_example =
    evaluate_risk-IsBanded round_up printing settings proposal snapshot context 30
      round_up-IsSignSafe settings-IsConstitution context-HasBaselines approval evaluate_approves
