-- ===== src/Risk/Account/Bounds.antt =====
-- The account evaluation: the settings it is made with, and which losses halt.
use my_team_tradding.Decimal.{Decimal, DecimalContext, of_int}
use my_team_tradding.Prelude.{[], arith, true, ◌↔◌, ◌≡◌, ◌≢◌, ◌⊎◌}
use my_team_tradding.Prelude.Int.{leb_ℤ, leb_ℤ→le, ltb_ℤ, ltb_ℤ→lt, pos, ◌<ℤ◌, ◌≤ℤ◌}
use my_team_tradding.Prelude.Result.{ok}
use my_team_tradding.Risk.Account.{account_state, limit_reasons}
use my_team_tradding.Risk.Types.{RiskConstitutionSettings, RiskState, validate_constitution}

-- The settings as `config/settings.py` admits them: the field ranges and `validate_constitution`.
pub record IsConstitution (c : DecimalContext) (s : RiskConstitutionSettings) : Type 0 where
  pub min_nonneg : pos 0 ≤ℤ s.minimum_risk_percent
  pub max_le_one : s.maximum_risk_percent ≤ℤ of_int c 1
  pub loss_nonneg : pos 0 ≤ℤ s.maximum_daily_loss_percent
  pub warning_nonneg : pos 0 ≤ℤ s.drawdown_warning_percent
  pub validated : validate_constitution s ≡ ok s

-- The order of the thresholds, which the validator has checked.
pub record IsOrdered (s : RiskConstitutionSettings) : Type 0 where
  pub min_le_normal : s.minimum_risk_percent ≤ℤ s.normal_risk_percent
  pub normal_le_max : s.normal_risk_percent ≤ℤ s.maximum_risk_percent
  pub warning_lt_safe : s.drawdown_warning_percent <ℤ s.drawdown_safe_mode_percent
  pub safe_lt_stop : s.drawdown_safe_mode_percent <ℤ s.drawdown_stop_percent

constitution_tests :
    (s : RiskConstitutionSettings)
    → validate_constitution s ≡ ok s
    → (leb_ℤ s.minimum_risk_percent s.normal_risk_percent ≡ true)
      × (leb_ℤ s.normal_risk_percent s.maximum_risk_percent ≡ true)
      × (ltb_ℤ s.drawdown_warning_percent s.drawdown_safe_mode_percent ≡ true)
      × (ltb_ℤ s.drawdown_safe_mode_percent s.drawdown_stop_percent ≡ true)
unfolding validate_constitution
constitution_tests s h = ground arith

-- A validated constitution orders its risk percentages and its drawdown thresholds.
pub validate_constitution-IsOrdered :
    (s : RiskConstitutionSettings) → validate_constitution s ≡ ok s → IsOrdered s
validate_constitution-IsOrdered s h =
    let (a, b, w, t) = constitution_tests s h in
    record {
      min_le_normal = leb_ℤ→le _ _ a;
      normal_le_max = leb_ℤ→le _ _ b;
      warning_lt_safe = ltb_ℤ→lt _ _ w;
      safe_lt_stop = ltb_ℤ→lt _ _ t;
    }

-- The account halts exactly when the equity is not positive or a loss limit is reached.
pub halted_iff :
    (s : RiskConstitutionSettings) (equity drawdown daily : Decimal)
    → (account_state s equity drawdown daily ≡ RiskState.halted) ↔ (
        (equity ≤ℤ pos 0)
        ⊎ (s.maximum_daily_loss_percent ≤ℤ daily)
        ⊎ (s.drawdown_stop_percent ≤ℤ drawdown))
unfolding account_state leb_ℤ
halted_iff s equity drawdown daily = (λ h. ground arith, λ h. ground arith)

-- The limits give a reason exactly when they halt the account.
pub limit_reasons_iff :
    (s : RiskConstitutionSettings) (equity drawdown daily : Decimal)
    → (limit_reasons s equity drawdown daily ≡ [])
      ↔ (account_state s equity drawdown daily ≢ RiskState.halted)
unfolding account_state limit_reasons
limit_reasons_iff s equity drawdown daily = (λ h. ground arith, λ h. ground arith)
