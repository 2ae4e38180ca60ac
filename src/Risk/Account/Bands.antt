-- ===== src/Risk/Account/Bands.antt =====
-- The drawdown bands of `_drawdown_state` of src/ai_trading_team/risk/account.py, with the limits above
-- them, and the risk that each state permits.
use my_team_tradding.Decimal.{Decimal}
use my_team_tradding.Prelude.{arith, inl, inr, refl, ◌↔◌, ◌≡◌, ◌⊎◌}
use my_team_tradding.Prelude.Int.{leb_ℤ, pos, ◌<ℤ◌, ◌≤ℤ◌}
use my_team_tradding.Risk.Account.{account_state, drawdown_state, permitted_risk}
use my_team_tradding.Risk.Account.Bounds.{IsOrdered}
use my_team_tradding.Risk.Types.{RiskConstitutionSettings, RiskState}

-- No limit is reached.
abbrev pub IsWithinLimits : RiskConstitutionSettings → Decimal → Decimal → Decimal → Type 0
IsWithinLimits s equity drawdown daily =
    (pos 0 <ℤ equity)
    × (daily <ℤ s.maximum_daily_loss_percent)
    × (drawdown <ℤ s.drawdown_stop_percent)

-- The risk that a state permits: the normal one, the least one, or none.
abbrev pub IsPermitted : RiskConstitutionSettings → RiskState → Decimal → Type 0
IsPermitted s state permitted =
    ((state ≡ RiskState.normal) × (permitted ≡ s.normal_risk_percent))
    ⊎ (((state ≡ RiskState.caution) ⊎ (state ≡ RiskState.safe_mode))
        × (permitted ≡ s.minimum_risk_percent))
    ⊎ ((state ≡ RiskState.halted) × (permitted ≡ pos 0))

permitted_risk-IsPermitted :
    (s : RiskConstitutionSettings) (state : RiskState)
    → IsPermitted s state (permitted_risk s state)
unfolding permitted_risk
permitted_risk-IsPermitted s RiskState.normal = inl (refl, refl)
permitted_risk-IsPermitted s RiskState.caution = inr (inl (inl refl, refl))
permitted_risk-IsPermitted s RiskState.safe_mode = inr (inl (inr refl, refl))
permitted_risk-IsPermitted s RiskState.halted = inr (inr (refl, refl))

-- Which losses give which state, and what risk the state permits.
pub record IsBanded (s : RiskConstitutionSettings) (equity drawdown daily permitted : Decimal)
    (state : RiskState) : Type 0 where
  pub normal :
      (state ≡ RiskState.normal)
      ↔ (IsWithinLimits s equity drawdown daily × (drawdown <ℤ s.drawdown_warning_percent))
  pub caution : (state ≡ RiskState.caution) ↔ (
      IsWithinLimits s equity drawdown daily
      × (s.drawdown_warning_percent ≤ℤ drawdown)
      × (drawdown <ℤ s.drawdown_safe_mode_percent))
  pub safe_mode :
      (state ≡ RiskState.safe_mode)
      ↔ (IsWithinLimits s equity drawdown daily × (s.drawdown_safe_mode_percent ≤ℤ drawdown))
  pub risk : IsPermitted s state permitted

normal_iff :
    (s : RiskConstitutionSettings) (equity drawdown daily : Decimal)
    → IsOrdered s
    → (account_state s equity drawdown daily ≡ RiskState.normal)
      ↔ (IsWithinLimits s equity drawdown daily × (drawdown <ℤ s.drawdown_warning_percent))
unfolding account_state drawdown_state leb_ℤ
normal_iff s equity drawdown daily ordered =
    let safe = ordered.warning_lt_safe in
    let stop = ordered.safe_lt_stop in (λ h. ground arith, λ h. ground arith)

caution_iff :
    (s : RiskConstitutionSettings) (equity drawdown daily : Decimal)
    → IsOrdered s
    → (account_state s equity drawdown daily ≡ RiskState.caution) ↔ (
        IsWithinLimits s equity drawdown daily
        × (s.drawdown_warning_percent ≤ℤ drawdown)
        × (drawdown <ℤ s.drawdown_safe_mode_percent))
unfolding account_state drawdown_state leb_ℤ
caution_iff s equity drawdown daily ordered =
    let stop = ordered.safe_lt_stop in (λ h. ground arith, λ h. ground arith)

safe_mode_iff :
    (s : RiskConstitutionSettings) (equity drawdown daily : Decimal)
    → (account_state s equity drawdown daily ≡ RiskState.safe_mode)
      ↔ (IsWithinLimits s equity drawdown daily × (s.drawdown_safe_mode_percent ≤ℤ drawdown))
unfolding account_state drawdown_state leb_ℤ
safe_mode_iff s equity drawdown daily = (λ h. ground arith, λ h. ground arith)

pub account_state-IsBanded :
    (s : RiskConstitutionSettings) (equity drawdown daily : Decimal)
    → IsOrdered s
    → IsBanded s equity drawdown daily
        (permitted_risk s (account_state s equity drawdown daily))
        (account_state s equity drawdown daily)
account_state-IsBanded s equity drawdown daily ordered = record {
  normal = normal_iff s equity drawdown daily ordered;
  caution = caution_iff s equity drawdown daily ordered;
  safe_mode = safe_mode_iff s equity drawdown daily;
  risk = permitted_risk-IsPermitted s (account_state s equity drawdown daily);
}
