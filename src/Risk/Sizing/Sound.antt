-- ===== src/Risk/Sizing/Sound.antt =====
-- What an approved size of `PositionSizer.calculate` is.
use my_team_tradding.Decimal.{Decimal, DecimalContext, of_int, rem}
use my_team_tradding.Prelude.{
  Bool-cases, String, [], and_elim, arith, false, inl, inr, refl, some, subst, sym, true, ◌≡◌, ◌≢◌,
  ◌⊎◌,
}
use my_team_tradding.Prelude.Int.{eqb_ℤ→eq, leb_ℤ→le, ltb_ℤ, pos, ◌-ℤ◌, ◌≤ℤ◌}
use my_team_tradding.Prelude.Result.{>>=-returned, Result, err, ok, ok-injective}
use my_team_tradding.Risk.Sizing.{
  PositionSizingOutcome, PositionSizingResult, approve, approve_or_reject, build_sizing, calculate,
  grid_volume, is_approved_sizing, is_incoherent, reject, sizing_base, sizing_selection,
}
use my_team_tradding.Risk.Types.{
  PositionSizingStatus, RiskFault, RiskReasonCode, SymbolInfo, invalid_operation, validation_error,
  value_error,
}

-- A size for the given inputs, as a caller may rely on it.
pub record IsSized (c : DecimalContext) (equity risk_percent : Decimal) (info : SymbolInfo)
    (r : PositionSizingResult) : Type 0 where
  pub volume : Decimal
  pub risk : Decimal
  pub selected : r.selected_volume ≡ some volume
  pub estimated : r.estimated_risk_amount ≡ some risk
  pub at_least : info.volume_min ≤ℤ volume
  pub at_most : volume ≤ℤ info.volume_max
  pub on_step : rem (volume -ℤ info.volume_min) info.volume_step ≡ pos 0
  pub priced : risk ≡ c.mul r.monetary_loss_per_lot volume
  pub within : risk ≤ℤ c.div (c.mul equity risk_percent) (of_int c 100)

build_sizing-eq-ok :
    (c : DecimalContext) (x r : PositionSizingResult)
    → build_sizing c x ≡ ok r
    → (r ≡ x) × (sizing_selection c x x.status x.selected_volume x.estimated_risk_amount ≡ true)
unfolding build_sizing
build_sizing-eq-ok c x r h = ground arith

-- The selection test of an approved result, one conjunct at a time.
selection_tests :
    (c : DecimalContext) (x : PositionSizingResult) (volume risk : Decimal)
    → sizing_selection c x PositionSizingStatus.approved (some volume) (some risk) ≡ true
    → (x.volume_min ≤ℤ volume)
      × (volume ≤ℤ x.volume_max)
      × (rem (volume -ℤ x.volume_min) x.volume_step ≡ pos 0)
      × (risk ≡ c.mul x.monetary_loss_per_lot volume)
      × (risk ≤ℤ x.allowed_risk_amount)
unfolding sizing_selection
selection_tests c x volume risk h =
    let (a, h1) = and_elim _ _ h in
    let (b, h2) = and_elim _ _ h1 in
    let (d, h3) = and_elim _ _ h2 in
    let (e, f) = and_elim _ _ h3 in
    (leb_ℤ→le _ _ a, leb_ℤ→le _ _ b, eqb_ℤ→eq _ _ d, eqb_ℤ→eq _ _ e, leb_ℤ→le _ _ f)

module _ (c : DecimalContext) (equity risk_percent stop_distance : Decimal)
    (info : SymbolInfo) where
  approved_IsSized :
      let base = sizing_base c equity risk_percent stop_distance info in
      sizing_selection c
          (approve c base)
          PositionSizingStatus.approved
          (some (grid_volume c base))
          (some (c.mul base.monetary_loss_per_lot (grid_volume c base)))
        ≡ true
      → IsSized c equity risk_percent info (approve c base)
  unfolding approve sizing_base
  approved_IsSized h =
      let (a, b, d, e, f) = selection_tests c _ _ _ h in
      record {
        volume = _;
        risk = _;
        selected = refl;
        estimated = refl;
        at_least = a;
        at_most = b;
        on_step = d;
        priced = e;
        within = f;
      }

  -- An outcome with a reason holds no approved size; one without holds a size that keeps the grid
  -- and the risk.
  abbrev pub IsAccounted : PositionSizingOutcome → Type 0
  IsAccounted o =
      ((o.reasons ≢ []) × (is_approved_sizing o.result ≡ false))
      ⊎ ((o.reasons ≡ [])
          × ((r : PositionSizingResult) × (o.result ≡ some r)
              × (r.status ≡ PositionSizingStatus.approved)
              × IsSized c equity risk_percent info r))

  abbrev given_base : PositionSizingResult
  given_base = sizing_base c equity risk_percent stop_distance info

  reject-IsAccounted :
      (code : RiskReasonCode) (message : String) (o : PositionSizingOutcome)
      → reject c given_base code message ≡ ok o
      → IsAccounted o
  unfolding reject sizing_base
  reject-IsAccounted code message o h =
      let (r, built, e) = >>=-returned (build_sizing c given_base) _ h in
      let same = (build_sizing-eq-ok c given_base r built).0 in
      subst IsAccounted (ok-injective e) (inl (λ q. cc, rw same refl))

  approve_or_reject-IsAccounted :
      (r : Result RiskFault PositionSizingResult) (o : PositionSizingOutcome)
      → build_sizing c (approve c given_base) ≡ r
      → approve_or_reject c given_base r ≡ ok o
      → IsAccounted o
  unfolding approve_or_reject
  approve_or_reject-IsAccounted (ok r) o built h =
      let (same, tests) = build_sizing-eq-ok c (approve c given_base) r built in
      subst IsAccounted (ok-injective h) (
        inr (
          refl,
          (
            r,
            refl,
            rw same (unfold approve in refl),
            subst (IsSized c equity risk_percent info) (sym same)
                (approved_IsSized (unfold approve in tests)),
          ),
        ))
  approve_or_reject-IsAccounted (err invalid_operation) o built h = cc (h)
  approve_or_reject-IsAccounted (err value_error) o built h = reject-IsAccounted _ _ o h
  approve_or_reject-IsAccounted (err validation_error) o built h = reject-IsAccounted _ _ o h

  -- For all inputs, an outcome that `calculate` returns either has a reason and no approved size, or
  -- has none and an approved size: within the broker's volumes, on the volume step, and with an
  -- estimated risk of at most the equity times the risk percentage.
  pub calculate-IsAccounted :
      (o : PositionSizingOutcome)
      → calculate c equity risk_percent stop_distance info ≡ ok o
      → IsAccounted o
  unfolding calculate
  calculate-IsAccounted o h =
      elim (Bool-cases (is_incoherent equity risk_percent stop_distance info)) [
        | inl bad ↦ subst IsAccounted (ok-injective (rw bad at h)) (inl (λ q. cc, refl))
        | inr good ↦
            elim (Bool-cases
              (ltb_ℤ given_base.allowed_risk_amount given_base.minimum_volume_risk_amount)) [
                | inl small ↦ reject-IsAccounted _ _ o (rw (good, small) at h)
                | inr enough ↦ approve_or_reject-IsAccounted _ o refl (rw (good, enough) at h)
              ]
      ]
