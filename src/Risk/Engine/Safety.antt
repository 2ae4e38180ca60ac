-- ===== src/Risk/Engine/Safety.antt =====
-- What a decision of `RiskEngine.evaluate` guarantees.
use mathlib.Core.List.{cons≢nil}
use my_team_tradding.Decimal.{Decimal, DecimalContext, IsSignSafe}
use my_team_tradding.Prelude.{
  List, Option, [], ap, arith, inl, inr, leb, length, ltb, none, or-eq-false, refl, some, subst,
  sym, ℕ, ◌++◌, ◌<◌, ◌||◌, ◌↔◌, ◌∙◌, ◌∷◌, ◌≡◌, ◌≤◌, ◌⊎◌,
}
use my_team_tradding.Prelude.Int.{leb_ℤ, pos, ◌<ℤ◌, ◌≤ℤ◌}
use my_team_tradding.Prelude.Result.{>>=-returned, ok}
use my_team_tradding.Risk.Account.{
  AccountRiskAssessment, Fingerprinting, account_fingerprint, account_metrics, context_reasons,
  limit_reasons,
}
use my_team_tradding.Risk.Account.Bounds.{IsConstitution, halted_iff}
use my_team_tradding.Risk.Account.Total.{HasBaselines, evaluate_total}
use my_team_tradding.Risk.Engine.{
  RiskDecision, build_decision, collected_reasons, decide_risk, decision_status, evaluate_risk,
  size_if_clear,
}
use my_team_tradding.Risk.Engine.Total.{assessed, collected, collected_clear, decision}
use my_team_tradding.Risk.Proposal.{reason_if, validate, validation}
use my_team_tradding.Risk.Proposal.Accept.{validate_sound}
use my_team_tradding.Risk.Proposal.Exact.{validate-eq-ok}
use my_team_tradding.Risk.Proposal.Sound.{IsSound, risk_distance}
use my_team_tradding.Risk.Reasons.{append-eq-nil, reason_if-eq-nil, same_text}
use my_team_tradding.Risk.Sizing.{PositionSizingOutcome, PositionSizingResult}
use my_team_tradding.Risk.Sizing.Sound.{IsSized, calculate-IsAccounted}
use my_team_tradding.Risk.Types.{
  AccountRiskContext, MarketSnapshot, RiskConstitutionSettings, RiskDecisionStatus, RiskReason,
  RiskState, TradeProposal, evaluation_timestamp_invalid,
}
use my_team_tradding.Time.{aware}

build_decision-eq-ok : (x d : RiskDecision) → build_decision x ≡ ok d → d ≡ x
unfolding build_decision
build_decision-eq-ok x d h = ground arith

status_approved :
    (state : RiskState) (reasons : List RiskReason)
    → decision_status state reasons ≡ RiskDecisionStatus.approved
    → reasons ≡ []
unfolding decision_status
status_approved RiskState.normal [] h = refl
status_approved RiskState.caution [] h = refl
status_approved RiskState.safe_mode [] h = refl
status_approved RiskState.normal (r ∷ rs) h = cc
status_approved RiskState.caution (r ∷ rs) h = cc
status_approved RiskState.safe_mode (r ∷ rs) h = cc
status_approved RiskState.halted reasons h = cc

status_halted :
    (state : RiskState) (reasons : List RiskReason)
    → (decision_status state reasons ≡ RiskDecisionStatus.halted) ↔ (state ≡ RiskState.halted)
unfolding decision_status
status_halted RiskState.normal [] = (λ h. cc, λ h. cc)
status_halted RiskState.caution [] = (λ h. cc, λ h. cc)
status_halted RiskState.safe_mode [] = (λ h. cc, λ h. cc)
status_halted RiskState.normal (r ∷ rs) = (λ h. cc, λ h. cc)
status_halted RiskState.caution (r ∷ rs) = (λ h. cc, λ h. cc)
status_halted RiskState.safe_mode (r ∷ rs) = (λ h. cc, λ h. cc)
status_halted RiskState.halted reasons = (λ h. refl, λ h. refl)

-- The context guards, when none of them has objected.
pub record FitsContext (f : Fingerprinting) (settings : RiskConstitutionSettings)
    (s : MarketSnapshot) (x : AccountRiskContext) (now : ℕ) : Type 0 where
  pub same_cycle : x.cycle_id ≡ s.cycle_id
  pub same_snapshot : x.snapshot_id ≡ s.snapshot_id
  pub same_account : x.account_ref ≡ account_fingerprint f s.account.account_id s.account.server
  pub not_future : x.context_as_of ≤ now
  pub not_stale : s.snapshot_completed_at ≤ x.context_as_of
  pub day_started : x.trading_day_started_at ≤ x.context_as_of
  pub counted : length s.open_positions ≤ x.account_open_position_count
  pub has_room : x.account_open_position_count < settings.maximum_open_positions

context_clear :
    (f : Fingerprinting) (settings : RiskConstitutionSettings) (s : MarketSnapshot)
    (x : AccountRiskContext) (now : ℕ)
    → context_reasons f settings s x now ≡ []
    → FitsContext f settings s x now
unfolding context_reasons
context_clear f settings s x now h =
    let (trace, h1) = append-eq-nil _ _ h in
    let (account, h2) = append-eq-nil _ _ h1 in
    let (future, h3) = append-eq-nil _ _ h2 in
    let (stale, h4) = append-eq-nil _ _ h3 in
    let (day, h5) = append-eq-nil _ _ h4 in
    let (count, room) = append-eq-nil _ _ h5 in
    let (cycle, snapshot) = or-eq-false _ _ (reason_if-eq-nil _ _ _ trace) in
    let future' = reason_if-eq-nil (ltb now x.context_as_of) _ _ future in
    let stale' = reason_if-eq-nil (ltb x.context_as_of s.snapshot_completed_at) _ _ stale in
    let day' = reason_if-eq-nil (ltb x.context_as_of x.trading_day_started_at) _ _ day in
    let count' =
      reason_if-eq-nil (ltb x.account_open_position_count (length s.open_positions)) _ _ count in
    let room' =
      reason_if-eq-nil (leb settings.maximum_open_positions x.account_open_position_count) _ _
        room in
    record {
      same_cycle = same_text _ _ cycle;
      same_snapshot = same_text _ _ snapshot;
      same_account = same_text _ _ (reason_if-eq-nil _ _ _ account);
      not_future = ground arith;
      not_stale = ground arith;
      day_started = ground arith;
      counted = ground arith;
      has_room = ground arith;
    }

limits_clear :
    (settings : RiskConstitutionSettings) (equity drawdown daily : Decimal)
    → limit_reasons settings equity drawdown daily ≡ []
    → (pos 0 <ℤ equity)
      × (daily <ℤ settings.maximum_daily_loss_percent)
      × (drawdown <ℤ settings.drawdown_stop_percent)
unfolding limit_reasons leb_ℤ
limits_clear settings equity drawdown daily h = ground arith

module _ (c : DecimalContext) (f : Fingerprinting) (settings : RiskConstitutionSettings)
    (p : TradeProposal) (s : MarketSnapshot) (x : AccountRiskContext) (now : ℕ) where
  abbrev pub before : List RiskReason
  before = collected c f settings p s x now

  abbrev pub here : AccountRiskAssessment
  here = assessed c f settings p s x now

  -- What an approval rests on.
  pub record IsAuthorized (d : RiskDecision) : Type 0 where
    pub sound : IsSound c settings p s
    pub context : FitsContext f settings s x now
    pub proposed : p.timestamp ≤ now
    pub solvent : pos 0 <ℤ s.account.equity
    pub daily_ok : d.account_metrics.daily_loss_percent <ℤ settings.maximum_daily_loss_percent
    pub drawdown_ok : d.account_metrics.drawdown_percent <ℤ settings.drawdown_stop_percent
    pub sizing : PositionSizingResult
    pub kept : d.position_sizing ≡ some sizing
    pub sized :
        IsSized c s.account.equity d.account_metrics.permitted_risk_percent s.symbol_info sizing

  late_clear :
      reason_if
          (ltb now s.snapshot_completed_at || ltb now p.timestamp)
          evaluation_timestamp_invalid
          "evaluation timestamp predates an evaluated input"
        ≡ []
      → p.timestamp ≤ now
  late_clear h =
      let (completed, proposed) =
        or-eq-false (ltb now s.snapshot_completed_at) (ltb now p.timestamp)
          (reason_if-eq-nil _ _ _ h) in
      ground arith

  IsSized-of_clear :
      (stop : Option Decimal) (o : PositionSizingOutcome)
      → (bs : List RiskReason) → bs ≡ []
      → ((d : Decimal) × (stop ≡ some d))
      → size_if_clear c bs stop here.metrics s.symbol_info ≡ ok o
      → o.reasons ≡ []
      → (r : PositionSizingResult) × (o.result ≡ some r)
        × IsSized c here.metrics.current_equity here.metrics.permitted_risk_percent s.symbol_info r
  unfolding size_if_clear
  IsSized-of_clear none o bs e (d, given) h clear = cc
  IsSized-of_clear (some stop) o (b ∷ bs) e given h clear = absurd (cons≢nil e)
  IsSized-of_clear (some stop) o [] e given h clear =
      elim (calculate-IsAccounted c _ _ stop s.symbol_info o h) [
        | inl (objected, refused) ↦ absurd (objected clear)
        | inr (agreed, (r, kept, status, sized)) ↦ (r, kept, sized)
      ]

  authorized :
      (o : PositionSizingOutcome)
      → size_if_clear c before (validation c settings p s).stop_distance here.metrics s.symbol_info
        ≡ ok o
      → before ++ o.reasons ≡ []
      → IsAuthorized (decision c f settings p s x now before o)
  unfolding decide_risk account_metrics collected_reasons
  authorized o h clear =
      let (first, second) = append-eq-nil before o.reasons clear in
      let (sound, active) = collected_clear c f settings p s x now first in
      let (proposal, rest) = append-eq-nil (validation c settings p s).reasons _ first in
      let (account, late) = append-eq-nil here.reasons _ rest in
      let (context, limits) = append-eq-nil (context_reasons f settings s x now) _ account in
      let (solvent, daily, drawdown) = limits_clear settings _ _ _ limits in
      let (r, kept, sized) =
        IsSized-of_clear (validation c settings p s).stop_distance o before first
          (
            risk_distance sound.entry sound.stop_loss,
            ap (λ v. v.stop_distance) (validate_sound c settings p s sound),
          )
          h second in
      record {
        sound = sound;
        context = context_clear f settings s x now context;
        proposed = late_clear late;
        solvent = solvent;
        daily_ok = daily;
        drawdown_ok = drawdown;
        sizing = r;
        kept = kept;
        sized = sized;
      }

  module _ (safe : IsSignSafe c) (constitution : IsConstitution c settings)
      (baselines : HasBaselines x) where
    -- A decision is the one that `decide_risk` assembles from what was collected and sized.
    pub decided :
        (d : RiskDecision)
        → evaluate_risk c f settings p s x (aware now) ≡ ok d
        → (o : PositionSizingOutcome) × (size_if_clear c before
              (validation c settings p s).stop_distance
              here.metrics
              s.symbol_info
            ≡ ok o)
          × (d ≡ decision c f settings p s x now before o)
    unfolding evaluate_risk
    decided d h =
        let returned = (evaluate_total c safe f settings s x constitution baselines).0 now in
        let (v, validated, h1) = >>=-returned (validate c settings p s) _ h in
        let same = validate-eq-ok c settings p s v validated in
        let (o, sized, built) =
          >>=-returned
            (size_if_clear c before (validation c settings p s).stop_distance here.metrics
              s.symbol_info)
            _ (rw (same, returned) at h1) in
        (o, sized, build_decision-eq-ok _ d built)

    -- Under a validated constitution, positive baselines and arithmetic that keeps signs, a decision
    -- that is approved is authorised: the proposal is sound, the account context belongs to the
    -- snapshot and leaves room for a position, the equity is positive, the daily loss and the drawdown
    -- lie below their limits, and the size is on the broker's grid and within the permitted risk.
    pub approved-IsAuthorized :
        (d : RiskDecision)
        → evaluate_risk c f settings p s x (aware now) ≡ ok d
        → d.status ≡ RiskDecisionStatus.approved
        → IsAuthorized d
    unfolding decide_risk
    approved-IsAuthorized d h approved_here =
        let (o, sized, same) = decided d h in
        subst IsAuthorized (sym same) (
          authorized o sized
            (status_approved here.state _ (ap (λ v. v.status) (sym same) ∙ approved_here)))

    -- Under a validated constitution, positive baselines and arithmetic that keeps signs, a decision
    -- is halted exactly when the equity is not positive or a loss limit is reached.
    pub halted-iff-limit :
        (d : RiskDecision)
        → evaluate_risk c f settings p s x (aware now) ≡ ok d
        → (d.status ≡ RiskDecisionStatus.halted) ↔ (
            (s.account.equity ≤ℤ pos 0)
            ⊎ (settings.maximum_daily_loss_percent ≤ℤ d.account_metrics.daily_loss_percent)
            ⊎ (settings.drawdown_stop_percent ≤ℤ d.account_metrics.drawdown_percent))
    unfolding decide_risk account_metrics
    halted-iff-limit d h =
        let (o, sized, same) = decided d h in
        subst
          (λ v. (v.status ≡ RiskDecisionStatus.halted) ↔ (
            (s.account.equity ≤ℤ pos 0)
            ⊎ (settings.maximum_daily_loss_percent ≤ℤ v.account_metrics.daily_loss_percent)
            ⊎ (settings.drawdown_stop_percent ≤ℤ v.account_metrics.drawdown_percent)))
          (sym same)
          (
            λ q. (halted_iff settings _ _ _).0 ((status_halted here.state _).0 q),
            λ q. (status_halted here.state _).1 ((halted_iff settings _ _ _).1 q),
          )
