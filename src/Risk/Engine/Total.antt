-- ===== src/Risk/Engine/Total.antt =====
-- When `RiskEngine.evaluate` returns; the decision that it builds and the consistency check of
-- `RiskDecision`.
use mathlib.Core.List.{cons≢nil}
use my_team_tradding.Decimal.{Decimal, DecimalContext, IsDivisible, IsSignSafe}
use my_team_tradding.Prelude.{
  List, Option, [], ap, false, inl, inr, none, refl, some, str_eq_iff, true, ℕ, ◌++◌, ◌∷◌, ◌≡◌, ◌≢◌,
  ◌⊎◌,
}
use my_team_tradding.Prelude.Result.{ok, ◌>>=◌}
use my_team_tradding.Risk.Account.{
  AccountRiskAssessment, Fingerprinting, account_metrics, context_reasons,
}
use my_team_tradding.Risk.Account.Bounds.{IsConstitution, limit_reasons_iff}
use my_team_tradding.Risk.Account.Total.{
  HasBaselines, assessment, evaluate_total, permitted_risk_percentage,
}
use my_team_tradding.Risk.Engine.{
  RiskDecision, build_decision, collected_reasons, decide_risk, decision_status, evaluate_risk,
  is_consistent, size_if_clear,
}
use my_team_tradding.Risk.Proposal.{validation}
use my_team_tradding.Risk.Proposal.Accept.{validate_sound, validation_exact}
use my_team_tradding.Risk.Proposal.Exact.{HasQuotients, validate_returns}
use my_team_tradding.Risk.Proposal.Sound.{IsSound, risk_distance}
use my_team_tradding.Risk.Reasons.{append-eq-nil}
use my_team_tradding.Risk.Sizing.{PositionSizingOutcome, PositionSizingResult, is_approved_sizing}
use my_team_tradding.Risk.Sizing.Sound.{IsAccounted, calculate-IsAccounted}
use my_team_tradding.Risk.Sizing.Total.{calculate_total}
use my_team_tradding.Risk.Types.{
  AccountRiskContext, MarketSnapshot, RiskConstitutionSettings, RiskReason, RiskState,
  TradeProposal,
}
use my_team_tradding.Time.{aware}

consistent_refused :
    (state : RiskState) (r : RiskReason) (rs : List RiskReason) (o : Option PositionSizingResult)
    → is_approved_sizing o ≡ false
    → is_consistent (decision_status state (r ∷ rs)) state (r ∷ rs) o ≡ true
unfolding is_consistent decision_status
consistent_refused RiskState.normal r rs o h = rw h
consistent_refused RiskState.caution r rs o h = rw h
consistent_refused RiskState.safe_mode r rs o h = rw h
consistent_refused RiskState.halted r rs o h = rw h

consistent_clear :
    (state : RiskState) (o : Option PositionSizingResult)
    → state ≢ RiskState.halted
    → is_approved_sizing o ≡ true
    → is_consistent (decision_status state []) state [] o ≡ true
unfolding is_consistent decision_status
consistent_clear RiskState.normal o n h = rw h
consistent_clear RiskState.caution o n h = rw h
consistent_clear RiskState.safe_mode o n h = rw h
consistent_clear RiskState.halted o n h = absurd (n refl)

-- The figures that sizing takes from an assessment.
module _ (c : DecimalContext) (f : Fingerprinting) (settings : RiskConstitutionSettings)
    (p : TradeProposal) (s : MarketSnapshot) (x : AccountRiskContext) (now : ℕ) where
  abbrev pub assessed : AccountRiskAssessment
  assessed = assessment c f settings s x now

  abbrev pub collected : List RiskReason
  collected = collected_reasons (validation c settings p s) assessed p s now

  -- Nothing was collected: the proposal is sound and the account not halted.
  pub collected_clear :
      collected ≡ [] → IsSound c settings p s × (assessed.state ≢ RiskState.halted)
  unfolding collected_reasons
  collected_clear h =
      let (proposal, rest) = append-eq-nil (validation c settings p s).reasons _ h in
      let (account, late) = append-eq-nil assessed.reasons _ rest in
      let (context, limits) = append-eq-nil (context_reasons f settings s x now) _ account in
      (
        (validation_exact c settings p s).0 (rw proposal),
        (limit_reasons_iff settings _ _ _).0 limits,
      )

  -- The decision's reasons and its sizing agree: it is refused and nothing is sized, or nothing
  -- objects, the account is not halted and the size is approved.
  abbrev Agrees : List RiskReason → Option PositionSizingResult → Type 0
  Agrees reasons sizing =
      ((reasons ≢ []) × (is_approved_sizing sizing ≡ false))
      ⊎ ((reasons ≡ []) × (assessed.state ≢ RiskState.halted) × (is_approved_sizing sizing ≡ true))

  agreed_consistent :
      (reasons : List RiskReason) (sizing : Option PositionSizingResult)
      → Agrees reasons sizing
      → is_consistent (decision_status assessed.state reasons) assessed.state reasons sizing ≡ true
  agreed_consistent [] sizing (inl (some_reason, refused)) = absurd (some_reason refl)
  agreed_consistent (r ∷ rs) sizing (inl (some_reason, refused)) =
      consistent_refused assessed.state r rs sizing refused
  agreed_consistent [] sizing (inr (no_reason, active, sized)) =
      consistent_clear assessed.state sizing active sized
  agreed_consistent (r ∷ rs) sizing (inr (no_reason, active, sized)) = absurd (cons≢nil no_reason)

  abbrev pub decision : List RiskReason → PositionSizingOutcome → RiskDecision
  decision before sizing = decide_risk p s x now assessed before sizing

  agreed_builds :
      (before : List RiskReason) (sizing : PositionSizingOutcome)
      → Agrees (before ++ sizing.reasons) sizing.result
      → build_decision (decision before sizing) ≡ ok (decision before sizing)
  unfolding build_decision decide_risk account_metrics
  agreed_builds before sizing h =
      rw
        (
          (str_eq_iff x.account_ref x.account_ref).1 refl,
          agreed_consistent (before ++ sizing.reasons) sizing.result h,
        )
        refl

  accounted-Agrees :
      (equity percent stop : Decimal) (o : PositionSizingOutcome)
      → assessed.state ≢ RiskState.halted
      → IsAccounted c equity percent stop s.symbol_info o
      → Agrees o.reasons o.result
  accounted-Agrees equity percent stop o active (inl h) = inl h
  accounted-Agrees equity percent stop o active (inr (none_given, (r, e, status, sized))) =
      inr (none_given, active, rw e (rw status refl))

  module _ (safe : IsSignSafe c) (constitution : IsConstitution c settings)
      (baselines : HasBaselines x) (quotients : HasQuotients c p s.symbol_info)
      (steps : IsDivisible c s.symbol_info.volume_max s.symbol_info.volume_step) where
    abbrev permitted : Decimal
    permitted = assessed.metrics.permitted_risk_percent

    -- Sizing and building return, whatever was collected.
    sized_builds :
        (before : List RiskReason) (stop : Option Decimal)
        → (before ≡ [] → (assessed.state ≢ RiskState.halted) × ((d : Decimal) × (stop ≡ some d)))
        → (d : RiskDecision) × ((size_if_clear c before stop assessed.metrics s.symbol_info
              >>= λ sizing. build_decision (decision before sizing))
            ≡ ok d)
    unfolding size_if_clear
    sized_builds (r ∷ rs) stop h =
        let o : PositionSizingOutcome = record { result = none; reasons = [] } in
        (decision (r ∷ rs) o, agreed_builds (r ∷ rs) o (inl (cons≢nil, refl)))
    sized_builds [] none h = let (active, (d, e)) = h refl in cc
    sized_builds [] (some stop) h =
        let (active, given) = h refl in
        let equity = assessed.metrics.current_equity in
        let percent = permitted_risk_percentage c safe settings assessed.state constitution in
        let (o, e) =
          calculate_total c safe equity permitted stop s.symbol_info
            (unfold account_metrics in percent) steps in
        (
          decision [] o,
          rw e (
              agreed_builds [] o (
                accounted-Agrees equity permitted stop o active
                  (calculate-IsAccounted c equity permitted stop s.symbol_info o e))),
        )

    collected_ready :
        collected ≡ []
        → (assessed.state ≢ RiskState.halted)
          × ((d : Decimal) × ((validation c settings p s).stop_distance ≡ some d))
    collected_ready h =
        let (sound, active) = collected_clear h in
        (
          active,
          (
            risk_distance sound.entry sound.stop_loss,
            ap (λ v. v.stop_distance) (validate_sound c settings p s sound),
          ),
        )

    -- Under a validated constitution, positive baselines, arithmetic that keeps signs, and quotients of
    -- the prices by the tick size and of the greatest volume by the step that fit the precision, the
    -- engine returns a decision at every aware time.
    pub evaluate_risk_total :
        (d : RiskDecision) × (evaluate_risk c f settings p s x (aware now) ≡ ok d)
    unfolding evaluate_risk
    evaluate_risk_total =
        let (d, e) =
          sized_builds collected (validation c settings p s).stop_distance collected_ready in
        (
          d,
          rw
              (
                validate_returns c settings p s quotients,
                (evaluate_total c safe f settings s x constitution baselines).0 now,
              )
              e,
        )
