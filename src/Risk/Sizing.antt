-- ===== src/Risk/Sizing.antt =====
-- `PositionSizer.calculate` of src/ai_trading_team/risk/sizing.py and the `PositionSizingResult`
-- that it builds (src/ai_trading_team/schemas/risk.py), whose constructor checks every figure again.
pub mod Total
pub mod Sound
use my_team_tradding.Decimal.{Decimal, DecimalContext, floor, is_divisible, of_int, rem}
use my_team_tradding.Prelude.{
  Bool, List, Option, String, [], false, if◌then◌else◌, none, not, some, true, ◌&&◌, ◌||◌, ◌∷◌,
}
use my_team_tradding.Prelude.Int.{eqb_ℤ, leb_ℤ, ltb_ℤ, min_ℤ, pos, ◌+ℤ◌, ◌-ℤ◌}
use my_team_tradding.Prelude.Result.{Result, err, ok, ◌>>=◌}
use my_team_tradding.Risk.Types.{
  PositionSizingStatus, RiskFault, RiskReason, RiskReasonCode, SymbolInfo,
  invalid_broker_risk_metadata, invalid_operation, is_per_trade_percentage, is_positive,
  minimum_volume_exceeds_risk, position_size_invariant_failed, risk_reason, validation_error,
}

pub record PositionSizingResult : Type 0 where
  pub status : PositionSizingStatus
  pub risk_percent : Decimal
  pub allowed_risk_amount : Decimal
  pub stop_distance : Decimal
  pub tick_size : Decimal
  pub tick_value : Decimal
  pub trade_contract_size : Decimal
  pub ticks_to_stop : Decimal
  pub monetary_loss_per_lot : Decimal
  pub raw_volume : Decimal
  pub volume_min : Decimal
  pub volume_max : Decimal
  pub volume_step : Decimal
  pub minimum_volume_risk_amount : Decimal
  pub selected_volume : Option Decimal
  pub estimated_risk_amount : Option Decimal

-- A `PositiveDecimal | None` field.
abbrev pub is_positive_or_none : Option Decimal → Bool
is_positive_or_none none = true
is_positive_or_none (some d) = is_positive d

-- The constraints on the single fields.
unfoldable pub sizing_fields : DecimalContext → PositionSizingResult → Bool
unfolding is_per_trade_percentage
sizing_fields c r =
    is_per_trade_percentage c r.risk_percent
    && (is_positive r.allowed_risk_amount
        && (is_positive r.stop_distance
            && (is_positive r.tick_size
                && (is_positive r.tick_value
                    && (is_positive r.trade_contract_size
                        && (is_positive r.ticks_to_stop
                            && (is_positive r.monetary_loss_per_lot
                                && (is_positive r.raw_volume
                                    && (is_positive r.volume_min
                                        && (is_positive r.volume_max
                                            && (is_positive r.volume_step
                                                && (is_positive r.minimum_volume_risk_amount
                                                    && (is_positive_or_none r.selected_volume
                                                        && is_positive_or_none
                                                            r.estimated_risk_amount)))))))))))))

-- The first five tests of the model validator: each figure follows from the ones before it.
unfoldable pub sizing_figures : DecimalContext → PositionSizingResult → Bool
sizing_figures c r =
    leb_ℤ r.volume_min r.volume_max
    && (eqb_ℤ r.ticks_to_stop (c.div r.stop_distance r.tick_size)
        && (eqb_ℤ r.monetary_loss_per_lot (c.mul r.ticks_to_stop r.tick_value)
            && (eqb_ℤ r.raw_volume (c.div r.allowed_risk_amount r.monetary_loss_per_lot)
                && eqb_ℤ r.minimum_volume_risk_amount
                    (c.mul r.monetary_loss_per_lot r.volume_min))))

-- The rest of it: a rejected sizing selects nothing, an approved one stays on the broker's grid and
-- within the allowed risk.
unfoldable pub sizing_selection :
    DecimalContext
    → PositionSizingResult
    → PositionSizingStatus
    → Option Decimal
    → Option Decimal
    → Bool
sizing_selection c r PositionSizingStatus.rejected none none = true
sizing_selection c r PositionSizingStatus.rejected _ _ = false
sizing_selection c r PositionSizingStatus.approved (some volume) (some risk) =
    leb_ℤ r.volume_min volume
    && (leb_ℤ volume r.volume_max
        && (eqb_ℤ (rem (volume -ℤ r.volume_min) r.volume_step) (pos 0)
            && (eqb_ℤ risk (c.mul r.monetary_loss_per_lot volume)
                && leb_ℤ risk r.allowed_risk_amount)))
sizing_selection c r PositionSizingStatus.approved _ _ = false

-- The `%` of the model validator raises `InvalidOperation`, which is no `ValueError`: pydantic lets it
-- pass. The tests before it have passed then.
unfoldable pub step_overruns :
    DecimalContext
    → PositionSizingResult
    → PositionSizingStatus
    → Option Decimal
    → Option Decimal
    → Bool
unfolding is_divisible
step_overruns c r PositionSizingStatus.approved (some volume) (some risk) =
    leb_ℤ r.volume_min volume
    && (leb_ℤ volume r.volume_max && not (is_divisible c (volume -ℤ r.volume_min) r.volume_step))
step_overruns c r _ _ _ = false

-- The constructor with its validation.
unfoldable pub build_sizing :
    DecimalContext → PositionSizingResult → Result RiskFault PositionSizingResult
unfolding sizing_fields sizing_figures sizing_selection step_overruns
build_sizing c r =
    if sizing_fields c r
      && (sizing_figures c r
          && step_overruns c r r.status r.selected_volume r.estimated_risk_amount)
    then err invalid_operation
    else if sizing_fields c r
        && (sizing_figures c r
            && sizing_selection c r r.status r.selected_volume r.estimated_risk_amount)
    then ok r
    else err validation_error

pub record PositionSizingOutcome : Type 0 where
  pub result : Option PositionSizingResult
  pub reasons : List RiskReason

abbrev pub is_approved_sizing : Option PositionSizingResult → Bool
is_approved_sizing none = false
is_approved_sizing (some r) = elim r.status [
  | PositionSizingStatus.approved ↦ true
  | PositionSizingStatus.rejected ↦ false
]

-- The guard on the inputs and the broker's metadata.
unfoldable pub is_incoherent : Decimal → Decimal → Decimal → SymbolInfo → Bool
is_incoherent equity risk_percent stop_distance info =
    leb_ℤ equity (pos 0)
    || (leb_ℤ risk_percent (pos 0)
        || (leb_ℤ stop_distance (pos 0)
            || (leb_ℤ info.trade_tick_size (pos 0)
                || (leb_ℤ info.trade_tick_value (pos 0)
                    || (leb_ℤ info.trade_contract_size (pos 0)
                        || (leb_ℤ info.volume_min (pos 0)
                            || (ltb_ℤ info.volume_max info.volume_min
                                || leb_ℤ info.volume_step (pos 0))))))))

abbrev pub incoherent_outcome : PositionSizingOutcome
incoherent_outcome = record {
  result = none;
  reasons =
      risk_reason invalid_broker_risk_metadata
        "position sizing inputs and broker metadata must be positive and coherent"
      ∷ [];
}

-- The dictionary `base`, as a rejected result with no volume.
unfoldable pub sizing_base :
    DecimalContext → Decimal → Decimal → Decimal → SymbolInfo → PositionSizingResult
sizing_base c equity risk_percent stop_distance info =
    let allowed_risk = c.div (c.mul equity risk_percent) (of_int c 100) in
    let ticks_to_stop = c.div stop_distance info.trade_tick_size in
    let loss_per_lot = c.mul ticks_to_stop info.trade_tick_value in
    record {
      status = PositionSizingStatus.rejected;
      risk_percent = risk_percent;
      allowed_risk_amount = allowed_risk;
      stop_distance = stop_distance;
      tick_size = info.trade_tick_size;
      tick_value = info.trade_tick_value;
      trade_contract_size = info.trade_contract_size;
      ticks_to_stop = ticks_to_stop;
      monetary_loss_per_lot = loss_per_lot;
      raw_volume = c.div allowed_risk loss_per_lot;
      volume_min = info.volume_min;
      volume_max = info.volume_max;
      volume_step = info.volume_step;
      minimum_volume_risk_amount = c.mul loss_per_lot info.volume_min;
      selected_volume = none;
      estimated_risk_amount = none;
    }

-- `volume_min + floor((min(raw, volume_max) - volume_min) / volume_step) * volume_step`
unfoldable pub grid_volume : DecimalContext → PositionSizingResult → Decimal
grid_volume c base =
    let capped_volume = min_ℤ base.raw_volume base.volume_max in
    let increments = floor c (c.div (capped_volume -ℤ base.volume_min) base.volume_step) in
    base.volume_min +ℤ c.mul increments base.volume_step

unfoldable pub approve : DecimalContext → PositionSizingResult → PositionSizingResult
unfolding grid_volume
approve c base = record base {
  status = PositionSizingStatus.approved;
  selected_volume = some (grid_volume c base);
  estimated_risk_amount = some (c.mul base.monetary_loss_per_lot (grid_volume c base));
}

-- A rejected result under one reason. Its constructor stands in no `try`, so it may raise.
unfoldable pub reject :
    DecimalContext
    → PositionSizingResult
    → RiskReasonCode
    → String
    → Result RiskFault PositionSizingOutcome
reject c base code message = build_sizing c base >>= λ result.
    ok (record { result = some result; reasons = risk_reason code message ∷ [] })

-- The `try` around the approved result, and the handler of its `ValidationError`.
unfoldable pub approve_or_reject :
    DecimalContext
    → PositionSizingResult
    → Result RiskFault PositionSizingResult
    → Result RiskFault PositionSizingOutcome
unfolding reject
approve_or_reject c base (ok result) = ok (record { result = some result; reasons = [] })
approve_or_reject c base (err invalid_operation) = err invalid_operation
approve_or_reject c base (err e) =
    reject c base position_size_invariant_failed "final broker-volume invariants failed"

unfoldable pub calculate :
    DecimalContext
    → Decimal
    → Decimal
    → Decimal
    → SymbolInfo
    → Result RiskFault PositionSizingOutcome
unfolding is_incoherent sizing_base reject approve approve_or_reject
calculate c equity risk_percent stop_distance info =
    let base = sizing_base c equity risk_percent stop_distance info in
    if is_incoherent equity risk_percent stop_distance info
    then ok incoherent_outcome
    else if ltb_ℤ base.allowed_risk_amount base.minimum_volume_risk_amount
    then reject c base minimum_volume_exceeds_risk
        "broker minimum volume would exceed allowed monetary risk"
    else approve_or_reject c base (build_sizing c (approve c base))
