-- ===== src/Risk/Proposal/Exact.antt =====
-- Which proposals `ProposalValidator.validate` accepts, and when it raises.
-- A price that is given has an integer quotient by the tick size within the precision.
use my_team_tradding.Decimal.{
  Decimal, DecimalContext, IsDivisible, is_divisible, is_divisible-IsDivisible, rem,
}
use my_team_tradding.Prelude.{
  All, Bool-cases, List, Option, [], ap, arith, false, inl, inr, none, refl, some, subst, sym, true,
  ◌&&◌, ◌↔◌, ◌∙◌, ◌∷◌, ◌≡◌,
}
use my_team_tradding.Prelude.Int.{eqb_ℤ, eqb_ℤ_refl, gt→leb_ℤ, leb_ℤ, lt→ltb_ℤ, pos, ◌<ℤ◌}
use my_team_tradding.Prelude.Result.{ok, ok-injective, refused-eq-ok}
use my_team_tradding.Risk.Proposal.{
  ProposalValidationResult, has_usable_ticks, misaligned, overruns, valid, validate, validation,
}
use my_team_tradding.Risk.Proposal.Accept.{validation_exact}
use my_team_tradding.Risk.Proposal.Sound.{IsSound}
use my_team_tradding.Risk.Types.{
  MarketSnapshot, RiskConstitutionSettings, SymbolInfo, TradeProposal, invalid_operation,
}

abbrev pub HasQuotient : DecimalContext → Decimal → Option Decimal → Type 0
HasQuotient c tick_size none = Unit
HasQuotient c tick_size (some price) = IsDivisible c price tick_size

pub record HasQuotients (c : DecimalContext) (p : TradeProposal) (info : SymbolInfo) : Type 0 where
  pub entry : HasQuotient c info.trade_tick_size p.entry
  pub stop_loss : HasQuotient c info.trade_tick_size p.stop_loss
  pub take_profit : HasQuotient c info.trade_tick_size p.take_profit

divisible_step :
    (c : DecimalContext) (tick_size price : Decimal) (rest : List (Option Decimal))
    → IsDivisible c price tick_size
    → overruns c tick_size rest ≡ false
    → overruns c tick_size (some price ∷ rest) ≡ false
unfolding overruns
divisible_step c tick_size price rest h below =
    let fits = (is_divisible-IsDivisible c price tick_size).1 h in ground (arith, fits, below)

no_overrun :
    (c : DecimalContext) (tick_size : Decimal) (prices : List (Option Decimal))
    → All (HasQuotient c tick_size) prices
    → overruns c tick_size prices ≡ false
unfolding overruns
no_overrun c tick_size [] h = refl
no_overrun c tick_size (none ∷ rest) (here, below) = no_overrun c tick_size rest below
no_overrun c tick_size (some price ∷ rest) (here, below) =
    divisible_step c tick_size price rest here (no_overrun c tick_size rest below)

-- A loop that raised nothing and passed a positive price on the grid has divided it.
overruns_elim :
    (c : DecimalContext) (tick_size price : Decimal) (rest : List (Option Decimal))
    → pos 0 <ℤ price
    → rem price tick_size ≡ pos 0
    → overruns c tick_size (some price ∷ rest) ≡ false
    → IsDivisible c price tick_size × (overruns c tick_size rest ≡ false)
unfolding overruns misaligned
overruns_elim c tick_size price rest positive aligned h =
    let on_grid : eqb_ℤ (rem price tick_size) (pos 0) ≡ true =
      ap (λ r. eqb_ℤ r (pos 0)) aligned ∙ eqb_ℤ_refl (pos 0) in
    let above : leb_ℤ price (pos 0) ≡ false = gt→leb_ℤ price (pos 0) positive in
    elim (Bool-cases (is_divisible c price tick_size)) [
      | inr impossible ↦ cc (rw (above, impossible) at h)
      | inl fits ↦ (
        (is_divisible-IsDivisible c price tick_size).0 fits,
        rw (above, fits, on_grid, lt→ltb_ℤ (pos 0) price positive) at h,
      )
    ]

module _ (c : DecimalContext) (settings : RiskConstitutionSettings) where
  pub validate-eq-ok :
      (p : TradeProposal) (s : MarketSnapshot) (r : ProposalValidationResult)
      → validate c settings p s ≡ ok r
      → r ≡ validation c settings p s
  unfolding validate
  validate-eq-ok p s r h = sym (ok-injective (refused-eq-ok _ invalid_operation _ r h).1)

  pub validate_returns :
      (p : TradeProposal) (s : MarketSnapshot)
      → HasQuotients c p s.symbol_info
      → validate c settings p s ≡ ok (validation c settings p s)
  unfolding validate
  validate_returns p s h =
      let quiet =
        no_overrun c s.symbol_info.trade_tick_size (p.entry ∷ p.stop_loss ∷ p.take_profit ∷ [])
          (h.entry, (h.stop_loss, (h.take_profit, tt))) in
      elim (Bool-cases (has_usable_ticks s.symbol_info)) [
        | inl usable ↦ rw (usable, quiet) refl
        | inr unusable ↦ rw unusable refl
      ]

  usable_ticks :
      (info : SymbolInfo)
      → pos 0 <ℤ info.trade_tick_size
      → pos 0 <ℤ info.point
      → has_usable_ticks info ≡ true
  usable_ticks info tick point =
      rw (gt→leb_ℤ info.trade_tick_size (pos 0) tick, gt→leb_ℤ info.point (pos 0) point) refl

  quotients_of :
      (p : TradeProposal) (s : MarketSnapshot) (r : ProposalValidationResult)
      → IsSound c settings p s
      → validate c settings p s ≡ ok r
      → HasQuotients c p s.symbol_info
  unfolding validate
  quotients_of p s r sound h =
      let tick_size = s.symbol_info.trade_tick_size in
      let quiet =
        (refused-eq-ok
          (has_usable_ticks s.symbol_info
            && overruns c s.symbol_info.trade_tick_size
                (p.entry ∷ p.stop_loss ∷ p.take_profit ∷ []))
          invalid_operation (ok (validation c settings p s)) r h).0 in
      let none_raised : overruns c tick_size (p.entry ∷ p.stop_loss ∷ p.take_profit ∷ []) ≡ false =
        rw (usable_ticks s.symbol_info sound.fits.tick_pos sound.fits.point_pos) at quiet in
      let given : overruns c tick_size
            (some sound.entry ∷ some sound.stop_loss ∷ some sound.take_profit ∷ [])
          ≡ false =
        rw (sound.has_entry, sound.has_stop, sound.has_target) at none_raised in
      let (one, h1) =
        overruns_elim c tick_size sound.entry (some sound.stop_loss ∷ some sound.take_profit ∷ [])
          sound.priced.entry_pos sound.fits.entry_aligned given in
      let (two, h2) =
        overruns_elim c tick_size sound.stop_loss (some sound.take_profit ∷ [])
          sound.priced.stop_pos sound.fits.stop_aligned h1 in
      let (three, h3) =
        overruns_elim c tick_size sound.take_profit [] sound.priced.target_pos
          sound.fits.target_aligned h2 in
      record {
        entry = subst (HasQuotient c tick_size) (sym sound.has_entry) one;
        stop_loss = subst (HasQuotient c tick_size) (sym sound.has_stop) two;
        take_profit = subst (HasQuotient c tick_size) (sym sound.has_target) three;
      }

  -- `validate` returns no reason exactly for the sound proposals whose quotients by the tick size are
  -- within the precision: those of the snapshot's trace and symbol whose positive prices lie on the
  -- right sides of the entry, are worth the risk, fit the broker's ticks and distances, and open a
  -- trade that the symbol and the account allow.
  pub validate_exact :
      (p : TradeProposal) (s : MarketSnapshot)
      → ((r : ProposalValidationResult) × (validate c settings p s ≡ ok r) × (valid r ≡ true))
        ↔ (IsSound c settings p s × HasQuotients c p s.symbol_info)
  validate_exact p s = (
    λ (r, returned, accepted_here).
        let same = validate-eq-ok p s r returned in
        let sound =
          (validation_exact c settings p s).0 (subst (λ v. valid v ≡ true) same accepted_here) in
        (sound, quotients_of p s r sound returned),
    λ (sound, quotients). (
      validation c settings p s,
      validate_returns p s quotients,
      (validation_exact c settings p s).1 sound,
    ),
  )
