-- ===== src/Risk/Account/Total.antt =====
-- When `AccountRiskEvaluator.evaluate` returns; the metrics that it builds and their field checks.
use my_team_tradding.Decimal.{Decimal, DecimalContext, IsSignSafe, of_int}
use my_team_tradding.Prelude.{arith, refl, true, ℕ, ◌++◌, ◌≡◌}
use my_team_tradding.Prelude.Int.{le→leb_ℤ, lt→ltb_ℤ, max_ℤ, max_ℤ_le, pos, ◌-ℤ◌, ◌<ℤ◌, ◌≤ℤ◌}
use my_team_tradding.Prelude.Result.{err, ok}
use my_team_tradding.Risk.Account.{
  AccountRiskAssessment, AccountRiskMetrics, Fingerprinting, account_metrics, account_state,
  check_metrics, context_reasons, evaluate, limit_reasons, loss_amount, loss_percent,
  permitted_risk,
}
use my_team_tradding.Risk.Account.Bounds.{
  IsConstitution, IsOrdered, validate_constitution-IsOrdered,
}
use my_team_tradding.Risk.Types.{
  AccountRiskContext, MarketSnapshot, RiskConstitutionSettings, RiskState, is_nonnegative,
  is_per_trade_percentage, is_positive, value_error,
}
use my_team_tradding.Time.{aware, naive}

-- What `AccountRiskContext` has checked: two positive baselines.
pub record HasBaselines (x : AccountRiskContext) : Type 0 where
  pub peak_pos : pos 0 <ℤ x.cash_flow_adjusted_peak_equity
  pub day_pos : pos 0 <ℤ x.adjusted_day_start_equity

loss_amount_nonneg : (baseline equity : Decimal) → pos 0 ≤ℤ loss_amount baseline equity
unfolding loss_amount
loss_amount_nonneg baseline equity = (max_ℤ_le (pos 0) (baseline -ℤ equity)).0

-- The assessment of an aware evaluation time.
abbrev pub assessment :
    DecimalContext
    → Fingerprinting
    → RiskConstitutionSettings
    → MarketSnapshot
    → AccountRiskContext
    → ℕ
    → AccountRiskAssessment
assessment c f s m x now =
    let metrics = account_metrics c s m x in
    record {
      state =
          account_state s metrics.current_equity metrics.drawdown_percent
            metrics.daily_loss_percent;
      metrics = metrics;
      reasons =
          context_reasons f s m x now
          ++ limit_reasons s metrics.current_equity metrics.drawdown_percent
              metrics.daily_loss_percent;
    }

module _ (c : DecimalContext) (safe : IsSignSafe c) where
  loss_percent_nonneg :
      (baseline equity : Decimal) → pos 0 <ℤ baseline → pos 0 ≤ℤ loss_percent c baseline equity
  unfolding loss_percent
  loss_percent_nonneg baseline equity h =
      safe.mul_nonneg _ (of_int c 100)
        (safe.div_nonneg _ baseline (loss_amount_nonneg baseline equity) h) (omega arith)

  permitted_risk_range :
      (s : RiskConstitutionSettings) (state : RiskState)
      → IsConstitution c s
      → IsOrdered s
      → (pos 0 ≤ℤ permitted_risk s state) × (permitted_risk s state ≤ℤ of_int c 1)
  unfolding permitted_risk
  permitted_risk_range s RiskState.halted k o = omega arith
  permitted_risk_range s RiskState.normal k o =
      omega (arith, k.min_nonneg, k.max_le_one, o.min_le_normal, o.normal_le_max)
  permitted_risk_range s RiskState.caution k o =
      omega (arith, k.min_nonneg, k.max_le_one, o.min_le_normal, o.normal_le_max)
  permitted_risk_range s RiskState.safe_mode k o =
      omega (arith, k.min_nonneg, k.max_le_one, o.min_le_normal, o.normal_le_max)

  pub permitted_risk_percentage :
      (s : RiskConstitutionSettings) (state : RiskState)
      → IsConstitution c s
      → is_per_trade_percentage c (permitted_risk s state) ≡ true
  unfolding is_per_trade_percentage
  permitted_risk_percentage s state k =
      let (lower, upper) =
        permitted_risk_range s state k (validate_constitution-IsOrdered s k.validated) in
      rw
        (
          le→leb_ℤ (pos 0) (permitted_risk s state) lower,
          le→leb_ℤ (permitted_risk s state) (of_int c 1) upper,
        )
        refl

  checks_pass :
      (m : AccountRiskMetrics)
      → is_positive m.effective_peak_equity ≡ true
      → is_nonnegative m.drawdown_amount ≡ true
      → is_nonnegative m.drawdown_percent ≡ true
      → is_nonnegative m.daily_loss_amount ≡ true
      → is_nonnegative m.daily_loss_percent ≡ true
      → is_per_trade_percentage c m.permitted_risk_percent ≡ true
      → check_metrics c m ≡ ok m
  unfolding check_metrics
  checks_pass m p q r s t u = ground arith

  -- The peak is the larger of a positive baseline and the equity.
  peak_pos :
      (s : RiskConstitutionSettings) (m : MarketSnapshot) (x : AccountRiskContext)
      → HasBaselines x
      → pos 0 <ℤ max_ℤ x.cash_flow_adjusted_peak_equity m.account.equity
  peak_pos s m x b =
      omega (arith, b.peak_pos, max_ℤ_le x.cash_flow_adjusted_peak_equity m.account.equity)

  check_metrics_ok :
      (s : RiskConstitutionSettings) (m : MarketSnapshot) (x : AccountRiskContext)
      → IsConstitution c s
      → HasBaselines x
      → check_metrics c (account_metrics c s m x) ≡ ok (account_metrics c s m x)
  unfolding account_metrics
  check_metrics_ok s m x k b =
      let equity = m.account.equity in
      let peak = max_ℤ x.cash_flow_adjusted_peak_equity equity in
      let p = peak_pos s m x b in
      checks_pass (account_metrics c s m x) (lt→ltb_ℤ (pos 0) peak p)
        (le→leb_ℤ (pos 0) _ (loss_amount_nonneg peak equity))
        (le→leb_ℤ (pos 0) _ (loss_percent_nonneg peak equity p))
        (le→leb_ℤ (pos 0) _ (loss_amount_nonneg x.adjusted_day_start_equity equity))
        (le→leb_ℤ (pos 0) _ (loss_percent_nonneg x.adjusted_day_start_equity equity b.day_pos))
        (permitted_risk_percentage s _ k)

  -- Under a validated constitution, positive baselines and arithmetic that keeps signs, the
  -- evaluation returns its assessment at an aware time and raises `ValueError` at a naive one.
  pub evaluate_total :
      (f : Fingerprinting) (s : RiskConstitutionSettings) (m : MarketSnapshot)
      (x : AccountRiskContext)
      → IsConstitution c s
      → HasBaselines x
      → ((now : ℕ) → evaluate c f s m x (aware now) ≡ ok (assessment c f s m x now))
        × ((t : ℕ) → evaluate c f s m x (naive t) ≡ err value_error)
  unfolding evaluate
  evaluate_total f s m x k b = (λ now. rw (check_metrics_ok s m x k b) refl, λ t. refl)
