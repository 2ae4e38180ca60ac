-- ===== src/Risk/Engine/Banded.antt =====
-- The risk state of a decision of `RiskEngine.evaluate` and the risk that it permits.
use my_team_tradding.Decimal.{DecimalContext, IsSignSafe}
use my_team_tradding.Prelude.{subst, sym, ℕ, ◌≡◌}
use my_team_tradding.Prelude.Result.{ok}
use my_team_tradding.Risk.Account.{Fingerprinting, account_metrics}
use my_team_tradding.Risk.Account.Bands.{IsBanded, account_state-IsBanded}
use my_team_tradding.Risk.Account.Bounds.{IsConstitution, validate_constitution-IsOrdered}
use my_team_tradding.Risk.Account.Total.{HasBaselines}
use my_team_tradding.Risk.Engine.{RiskDecision, decide_risk, evaluate_risk}
use my_team_tradding.Risk.Engine.Safety.{decided}
use my_team_tradding.Risk.Types.{
  AccountRiskContext, MarketSnapshot, RiskConstitutionSettings, TradeProposal,
}
use my_team_tradding.Time.{aware}

module _ (c : DecimalContext) (f : Fingerprinting) (settings : RiskConstitutionSettings)
    (p : TradeProposal) (s : MarketSnapshot) (x : AccountRiskContext) (now : ℕ)
    (safe : IsSignSafe c) (constitution : IsConstitution c settings)
    (baselines : HasBaselines x) where
  abbrev pub IsDecisionBanded : RiskDecision → Type 0
  IsDecisionBanded d =
      IsBanded settings s.account.equity d.account_metrics.drawdown_percent
        d.account_metrics.daily_loss_percent d.account_metrics.permitted_risk_percent d.risk_state

  -- Under a validated constitution, positive baselines and arithmetic that keeps signs, the risk state
  -- of a decision is the one of its losses: below every limit, normal exactly below the warning,
  -- cautious exactly from the warning to the safe mode, and in safe mode exactly from there on. The
  -- risk it permits is the normal one in the normal state, the least one in caution and in safe mode,
  -- and none when halted.
  pub evaluate_risk-IsBanded :
      (d : RiskDecision) → evaluate_risk c f settings p s x (aware now) ≡ ok d → IsDecisionBanded d
  unfolding decide_risk account_metrics
  evaluate_risk-IsBanded d h =
      let (o, sized, same) = decided c f settings p s x now safe constitution baselines d h in
      subst IsDecisionBanded (sym same) (
        account_state-IsBanded settings _ _ _
          (validate_constitution-IsOrdered settings constitution.validated))
