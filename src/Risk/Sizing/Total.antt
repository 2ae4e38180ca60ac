-- ===== src/Risk/Sizing/Total.antt =====
-- When `PositionSizer.calculate` returns; the result that its handlers build and the checks of its
-- constructor.
use my_team_tradding.Decimal.{
  Decimal, DecimalContext, IsDivisible, IsDivisible-mono, IsSignSafe, is_divisible-IsDivisible,
  of_int,
}
use my_team_tradding.Prelude.{
  Bool, Bool-cases, String, [], and_intro, arith, false, if◌then◌else◌, inl, inr, refl, some, true,
  ◌&&◌, ◌∷◌, ◌≡◌, ◌≢◌,
}
use my_team_tradding.Prelude.Int.{
  eqb_ℤ_refl, leb_ℤ, leb_ℤ→le, le→leb_ℤ, ltb_ℤ, lt→ltb_ℤ, pos, ◌-ℤ◌, ◌<ℤ◌, ◌≤ℤ◌,
}
use my_team_tradding.Prelude.Result.{Result, err, ok}
use my_team_tradding.Risk.Sizing.{
  PositionSizingOutcome, PositionSizingResult, approve, approve_or_reject, build_sizing, calculate,
  grid_volume, incoherent_outcome, is_incoherent, reject, sizing_base, sizing_fields,
  sizing_figures, step_overruns,
}
use my_team_tradding.Risk.Types.{
  PositionSizingStatus, RiskFault, RiskReasonCode, SymbolInfo, invalid_operation,
  is_per_trade_percentage, minimum_volume_exceeds_risk, risk_reason, validation_error, value_error,
}
use my_team_tradding.Runtime.Router.{raised}

-- What is left when the guard on the inputs lets them through.
pub record IsCoherent (equity risk_percent stop_distance : Decimal) (info : SymbolInfo)
    : Type 0 where
  pub equity_pos : pos 0 <ℤ equity
  pub percent_pos : pos 0 <ℤ risk_percent
  pub distance_pos : pos 0 <ℤ stop_distance
  pub tick_pos : pos 0 <ℤ info.trade_tick_size
  pub value_pos : pos 0 <ℤ info.trade_tick_value
  pub contract_pos : pos 0 <ℤ info.trade_contract_size
  pub min_pos : pos 0 <ℤ info.volume_min
  pub min_le_max : info.volume_min ≤ℤ info.volume_max
  pub step_pos : pos 0 <ℤ info.volume_step

pub IsCoherent-of_guard :
    (equity risk_percent stop_distance : Decimal) (info : SymbolInfo)
    → is_incoherent equity risk_percent stop_distance info ≡ false
    → IsCoherent equity risk_percent stop_distance info
unfolding is_incoherent leb_ℤ ltb_ℤ
IsCoherent-of_guard equity risk_percent stop_distance info h = ground arith

difference_nonneg : (a b : Decimal) → b ≤ℤ a → pos 0 ≤ℤ (a -ℤ b)
unfolding ◌-ℤ◌
difference_nonneg a b h = ground (arith, h)

difference_le : (a b d : Decimal) → pos 0 <ℤ b → a ≤ℤ d → (a -ℤ b) ≤ℤ d
unfolding ◌-ℤ◌
difference_le a b d positive h = ground (arith, positive, h)

build_quiet :
    (fields figures impossible selection : Bool) (r : PositionSizingResult)
    → impossible ≡ false
    → ¬ (
        (if fields && (figures && impossible)
          then err invalid_operation
          else if fields && (figures && selection)
          then ok r
          else err validation_error)
        ≡ err invalid_operation)
build_quiet fields figures impossible selection r h raised = ground (arith, h, raised)

module _ (c : DecimalContext) (safe : IsSignSafe c) where
  -- The figures of the base are positive.
  record HasPositiveFigures (r : PositionSizingResult) : Type 0 where
    allowed_pos : pos 0 <ℤ r.allowed_risk_amount
    ticks_pos : pos 0 <ℤ r.ticks_to_stop
    loss_pos : pos 0 <ℤ r.monetary_loss_per_lot
    raw_pos : pos 0 <ℤ r.raw_volume
    minimum_pos : pos 0 <ℤ r.minimum_volume_risk_amount

  base_figures :
      (equity risk_percent stop_distance : Decimal) (info : SymbolInfo)
      → IsCoherent equity risk_percent stop_distance info
      → HasPositiveFigures (sizing_base c equity risk_percent stop_distance info)
  unfolding sizing_base
  base_figures equity risk_percent stop_distance info h =
      let hundred : pos 0 <ℤ of_int c 100 = omega (arith, safe.one_pos) in
      let allowed =
        safe.div_pos _ (of_int c 100) (safe.mul_pos equity risk_percent h.equity_pos h.percent_pos)
          hundred in
      let ticks = safe.div_pos stop_distance info.trade_tick_size h.distance_pos h.tick_pos in
      let loss = safe.mul_pos _ info.trade_tick_value ticks h.value_pos in
      record {
        allowed_pos = allowed;
        ticks_pos = ticks;
        loss_pos = loss;
        raw_pos = safe.div_pos _ _ allowed loss;
        minimum_pos = safe.mul_pos _ info.volume_min loss h.min_pos;
      }

  base_fields :
      (equity risk_percent stop_distance : Decimal) (info : SymbolInfo)
      → IsCoherent equity risk_percent stop_distance info
      → is_per_trade_percentage c risk_percent ≡ true
      → sizing_fields c (sizing_base c equity risk_percent stop_distance info) ≡ true
  unfolding sizing_fields sizing_base
  base_fields equity risk_percent stop_distance info h percent =
      let f = base_figures equity risk_percent stop_distance info h in
      let max_pos : pos 0 <ℤ info.volume_max = omega (arith, h.min_pos, h.min_le_max) in
      and_intro percent (
        and_intro (lt→ltb_ℤ _ _ f.allowed_pos) (
          and_intro (lt→ltb_ℤ _ _ h.distance_pos) (
            and_intro (lt→ltb_ℤ _ _ h.tick_pos) (
              and_intro (lt→ltb_ℤ _ _ h.value_pos) (
                and_intro (lt→ltb_ℤ _ _ h.contract_pos) (
                  and_intro (lt→ltb_ℤ _ _ f.ticks_pos) (
                    and_intro (lt→ltb_ℤ _ _ f.loss_pos) (
                      and_intro (lt→ltb_ℤ _ _ f.raw_pos) (
                        and_intro (lt→ltb_ℤ _ _ h.min_pos) (
                          and_intro (lt→ltb_ℤ _ _ max_pos) (
                            and_intro (lt→ltb_ℤ _ _ h.step_pos)
                              (and_intro (lt→ltb_ℤ _ _ f.minimum_pos) refl))))))))))))

  base_figures_match :
      (equity risk_percent stop_distance : Decimal) (info : SymbolInfo)
      → IsCoherent equity risk_percent stop_distance info
      → sizing_figures c (sizing_base c equity risk_percent stop_distance info) ≡ true
  unfolding sizing_figures sizing_base
  base_figures_match equity risk_percent stop_distance info h =
      simp (eqb_ℤ_refl, le→leb_ℤ info.volume_min info.volume_max h.min_le_max)

  base_builds :
      (equity risk_percent stop_distance : Decimal) (info : SymbolInfo)
      → IsCoherent equity risk_percent stop_distance info
      → is_per_trade_percentage c risk_percent ≡ true
      → build_sizing c (sizing_base c equity risk_percent stop_distance info)
        ≡ ok (sizing_base c equity risk_percent stop_distance info)
  unfolding build_sizing step_overruns
  base_builds equity risk_percent stop_distance info h percent =
      rw
        (
          base_fields equity risk_percent stop_distance info h percent,
          base_figures_match equity risk_percent stop_distance info h,
        )
        (unfold sizing_base in refl)

  abbrev rejected_outcome : PositionSizingResult → RiskReasonCode → String → PositionSizingOutcome
  rejected_outcome base code message = record {
    result = some base;
    reasons = risk_reason code message ∷ [];
  }

  -- A rejection under a reason returns once the base builds.
  reject_returns :
      (base : PositionSizingResult) (code : RiskReasonCode) (message : String)
      → build_sizing c base ≡ ok base
      → reject c base code message ≡ ok (rejected_outcome base code message)
  unfolding reject
  reject_returns base code message h = rw h

  approve_or_reject_returns :
      (base : PositionSizingResult) (r : Result RiskFault PositionSizingResult)
      → r ≢ err invalid_operation
      → build_sizing c base ≡ ok base
      → (o : PositionSizingOutcome) × (approve_or_reject c base r ≡ ok o)
  unfolding approve_or_reject
  approve_or_reject_returns base (ok r) possible h =
      (record { result = some r; reasons = [] }, refl)
  approve_or_reject_returns base (err invalid_operation) possible h = absurd (possible refl)
  approve_or_reject_returns base (err value_error) possible h = (_, reject_returns base _ _ h)
  approve_or_reject_returns base (err validation_error) possible h = (_, reject_returns base _ _ h)

  -- The constructor divides by the step only a volume of the broker's range.
  step_divides :
      (r : PositionSizingResult) (volume risk : Decimal)
      → IsDivisible c r.volume_max r.volume_step
      → pos 0 <ℤ r.volume_min
      → step_overruns c r PositionSizingStatus.approved (some volume) (some risk) ≡ false
  unfolding step_overruns
  step_divides r volume risk h positive = elim (Bool-cases (leb_ℤ r.volume_min volume)) [
    | inr below ↦ rw below refl
    | inl above ↦ elim (Bool-cases (leb_ℤ volume r.volume_max)) [
      | inr beyond ↦ rw (above, beyond) refl
      | inl within ↦
          let low = leb_ℤ→le r.volume_min volume above in
          let high = leb_ℤ→le volume r.volume_max within in
          let divides =
            IsDivisible-mono c (volume -ℤ r.volume_min) r.volume_max r.volume_step
              (difference_nonneg volume r.volume_min low)
              (difference_le volume r.volume_min r.volume_max positive high) h in
          rw
            (
              above,
              within,
              (is_divisible-IsDivisible c (volume -ℤ r.volume_min) r.volume_step).1 divides,
            )
            refl
    ]
  ]

  approve_possible :
      (base : PositionSizingResult)
      → IsDivisible c base.volume_max base.volume_step
      → pos 0 <ℤ base.volume_min
      → build_sizing c (approve c base) ≢ err invalid_operation
  unfolding build_sizing approve
  approve_possible base h positive raised =
      let quiet =
        step_divides (approve c base) (grid_volume c base)
          (c.mul base.monetary_loss_per_lot (grid_volume c base)) h positive in
      build_quiet (sizing_fields c (approve c base)) (sizing_figures c (approve c base)) _ _ _ quiet
        raised

  -- In arithmetic that keeps signs `calculate` returns an outcome for every input whose risk is a
  -- per-trade percentage and whose greatest volume has no more steps than the precision has room for.
  pub calculate_total :
      (equity risk_percent stop_distance : Decimal) (info : SymbolInfo)
      → is_per_trade_percentage c risk_percent ≡ true
      → IsDivisible c info.volume_max info.volume_step
      → (o : PositionSizingOutcome) × (calculate c equity risk_percent stop_distance info ≡ ok o)
  unfolding calculate
  calculate_total equity risk_percent stop_distance info percent divisible =
      elim (Bool-cases (is_incoherent equity risk_percent stop_distance info)) [
        | inl bad ↦ (incoherent_outcome, rw bad refl)
        | inr good ↦
            let base = sizing_base c equity risk_percent stop_distance info in
            let coherent = IsCoherent-of_guard equity risk_percent stop_distance info good in
            let builds = base_builds equity risk_percent stop_distance info coherent percent in
            let possible : build_sizing c (approve c base) ≢ err invalid_operation =
              approve_possible base (unfold sizing_base in divisible)
                (unfold sizing_base in coherent.min_pos) in
            elim (Bool-cases (ltb_ℤ base.allowed_risk_amount base.minimum_volume_risk_amount)) [
              | inl small ↦ (
                rejected_outcome base minimum_volume_exceeds_risk
                    "broker minimum volume would exceed allowed monetary risk",
                rw (good, small) (reject_returns base _ _ builds),
              )
              | inr enough ↦
                  let (o, e) =
                    approve_or_reject_returns base (build_sizing c (approve c base)) possible
                      builds in
                  (o, rw (good, enough) e)
            ]
      ]
