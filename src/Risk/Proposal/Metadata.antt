-- ===== src/Risk/Proposal/Metadata.antt =====
-- The geometry of given prices and the broker-metadata block of `ProposalValidator.validate`: the block
-- adds no reason exactly when the prices fit the broker's grid and distances.
use my_team_tradding.Decimal.{Decimal, DecimalContext, of_int}
use my_team_tradding.Prelude.{Option, [], arith, false, refl, some, ◌≡◌}
use my_team_tradding.Prelude.Int.{
  eqb_ℤ_refl, eqb_ℤ→eq, ge→ltb_ℤ, gt→leb_ℤ, leb_ℤ, leb_ℤ→gt, ltb_ℤ, ltb_ℤ→ge, lt→ltb_ℤ, pos, ◌<ℤ◌,
}
use my_team_tradding.Risk.Proposal.{geometry, metadata_reasons, misaligned, priced_geometry}
use my_team_tradding.Risk.Proposal.Sound.{
  FitsBroker, IsAligned, IsPriced, reward_distance, risk_distance,
}
use my_team_tradding.Risk.Types.{RiskConstitutionSettings, SymbolInfo, TradeSide}

module _ (c : DecimalContext) (settings : RiskConstitutionSettings) where
  pub geometry_priced :
      (side : TradeSide) (oe ol ot : Option Decimal) (e l t : Decimal)
      → oe ≡ some e
      → ol ≡ some l
      → ot ≡ some t
      → pos 0 <ℤ e
      → pos 0 <ℤ l
      → pos 0 <ℤ t
      → geometry c settings.minimum_risk_reward side oe ol ot
        ≡ priced_geometry c settings.minimum_risk_reward side e l t
  unfolding geometry
  geometry_priced side oe ol ot e l t he hl ht pe pl pt =
      rw (he, hl, ht) (rw (lt→ltb_ℤ _ e pe, lt→ltb_ℤ _ l pl, lt→ltb_ℤ _ t pt) refl)

  pub metadata_tests :
      (info : SymbolInfo) (e l t sd rd : Decimal)
      → metadata_reasons c info (some e) (some l) (some t) (some sd) (some rd) ≡ []
      → (leb_ℤ info.trade_tick_size (pos 0) ≡ false)
        × (leb_ℤ info.point (pos 0) ≡ false)
        × (misaligned info.trade_tick_size (some e) ≡ false)
        × (misaligned info.trade_tick_size (some l) ≡ false)
        × (misaligned info.trade_tick_size (some t) ≡ false)
        × (ltb_ℤ sd (c.mul (of_int c info.trade_stops_level) info.point) ≡ false)
        × (ltb_ℤ rd (c.mul (of_int c info.trade_stops_level) info.point) ≡ false)
  unfolding metadata_reasons
  metadata_tests info e l t sd rd h = ground arith

  pub IsAligned-price :
      (tick price : Decimal)
      → pos 0 <ℤ price
      → misaligned tick (some price) ≡ false
      → IsAligned tick price
  unfolding misaligned
  IsAligned-price tick price h k = eqb_ℤ→eq _ _ (ground (arith, lt→ltb_ℤ (pos 0) price h))

  pub aligned_test :
      (tick price : Decimal) → IsAligned tick price → misaligned tick (some price) ≡ false
  unfolding misaligned
  aligned_test tick price h = rw h (rw (eqb_ℤ_refl (pos 0)) (ground arith))

  pub fits_of_metadata :
      (info : SymbolInfo) (side : TradeSide) (e l t : Decimal)
      → IsPriced c settings side e l t
      → metadata_reasons c info
          (some e)
          (some l)
          (some t)
          (some (risk_distance e l))
          (some (reward_distance e t))
        ≡ []
      → FitsBroker c settings info e l t
  fits_of_metadata info side e l t priced h =
      let (tick, point, ae, al, at_, stop, target) = metadata_tests info e l t _ _ h in
      record {
        tick_pos = leb_ℤ→gt _ _ tick;
        point_pos = leb_ℤ→gt _ _ point;
        entry_aligned = IsAligned-price _ e priced.entry_pos ae;
        stop_aligned = IsAligned-price _ l priced.stop_pos al;
        target_aligned = IsAligned-price _ t priced.target_pos at_;
        stop_room = ltb_ℤ→ge _ _ stop;
        target_room = ltb_ℤ→ge _ _ target;
      }

  pub metadata_of_fits :
      (info : SymbolInfo) (e l t : Decimal)
      → FitsBroker c settings info e l t
      → metadata_reasons c info
          (some e)
          (some l)
          (some t)
          (some (risk_distance e l))
          (some (reward_distance e t))
        ≡ []
  unfolding metadata_reasons
  metadata_of_fits info e l t f = ground (
    arith,
    gt→leb_ℤ info.trade_tick_size (pos 0) f.tick_pos,
    gt→leb_ℤ info.point (pos 0) f.point_pos,
    aligned_test _ e f.entry_aligned,
    aligned_test _ l f.stop_aligned,
    aligned_test _ t f.target_aligned,
    ge→ltb_ℤ (risk_distance e l) _ f.stop_room,
    ge→ltb_ℤ (reward_distance e t) _ f.target_room,
  )
