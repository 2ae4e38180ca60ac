-- ===== src/Risk/Proposal/Accept.antt =====
-- Which proposals `ProposalValidator.validate` accepts, and what it reports of them.
use my_team_tradding.Decimal.{Decimal, DecimalContext}
use my_team_tradding.Prelude.{
  List, Option, [], or-eq-false, refl, some, subst, sym, true, ◌↔◌, ◌∙◌, ◌≡◌,
}
use my_team_tradding.Prelude.Int.{ge→ltb_ℤ, pos, ◌<ℤ◌}
use my_team_tradding.Risk.Proposal.{
  ProposalValidationResult, account_reasons, geometry, identity_reasons, metadata_reasons,
  mode_reasons, priced_geometry, valid, validation,
}
use my_team_tradding.Risk.Proposal.Blocks.{
  IsPriced-eq-nil, account-eq-nil, account-nil, mode-eq-nil, mode-nil, price_given, price_given-nil,
  priced_distances, tests_directed,
}
use my_team_tradding.Risk.Proposal.Metadata.{fits_of_metadata, geometry_priced, metadata_of_fits}
use my_team_tradding.Risk.Proposal.Sound.{
  FitsBroker, IsPriced, IsSound, reward_distance, risk_distance,
}
use my_team_tradding.Risk.Reasons.{
  append-eq-nil, append-nil-nil, append_five-eq-nil, is_empty-eq-nil, reason_if-eq-nil,
  reason_if-nil, same_text, same_text-test,
}
use my_team_tradding.Risk.Types.{
  MarketSnapshot, RiskConstitutionSettings, RiskReason, TradeProposal,
}

module _ (c : DecimalContext) (settings : RiskConstitutionSettings) where
  -- The result of an accepted proposal: no reason, and the three figures.
  abbrev pub accepted : Decimal → Decimal → Decimal → ProposalValidationResult
  accepted e l t = record {
    reasons = [];
    stop_distance = some (risk_distance e l);
    reward_distance = some (reward_distance e t);
    risk_reward = some (c.div (reward_distance e t) (risk_distance e l));
  }

  identity_split :
      (p : TradeProposal) (s : MarketSnapshot)
      → identity_reasons p s ≡ []
      → (p.cycle_id ≡ s.cycle_id)
        × (p.snapshot_id ≡ s.snapshot_id)
        × (p.symbol ≡ s.symbol)
        × ((d : Decimal) × (p.entry ≡ some d) × (pos 0 <ℤ d))
        × ((d : Decimal) × (p.stop_loss ≡ some d) × (pos 0 <ℤ d))
        × ((d : Decimal) × (p.take_profit ≡ some d) × (pos 0 <ℤ d))
  unfolding identity_reasons
  identity_split p s h =
      let (trace, h) = append-eq-nil _ _ h in
      let (symbol, h) = append-eq-nil _ _ h in
      let (entry, h) = append-eq-nil _ _ h in
      let (stop, target) = append-eq-nil _ _ h in
      let (cycle, snapshot) = or-eq-false _ _ (reason_if-eq-nil _ _ _ trace) in
      (
        same_text _ _ cycle,
        same_text _ _ snapshot,
        same_text _ _ (reason_if-eq-nil _ _ _ symbol),
        price_given p.entry _ _ _ _ entry,
        price_given p.stop_loss _ _ _ _ stop,
        price_given p.take_profit _ _ _ _ target,
      )

  identity_join :
      (p : TradeProposal) (s : MarketSnapshot) → IsSound c settings p s → identity_reasons p s ≡ []
  unfolding identity_reasons
  identity_join p s h =
      append-nil-nil
        (reason_if-nil _ _ (rw (same_text-test h.same_cycle) (same_text-test h.same_snapshot)))
        (append-nil-nil (reason_if-nil _ _ (same_text-test h.same_symbol)) (
          append-nil-nil (price_given-nil p.entry h.entry _ _ _ _ h.has_entry h.priced.entry_pos) (
            append-nil-nil
              (price_given-nil p.stop_loss h.stop_loss _ _ _ _ h.has_stop h.priced.stop_pos)
              (price_given-nil p.take_profit h.take_profit _ _ _ _ h.has_target
                h.priced.target_pos))))

  -- The part of `validation` behind the identity block, at three given positive prices.
  abbrev RestReasons : TradeProposal → MarketSnapshot → Decimal → Decimal → Decimal → Type 0
  RestReasons p s e l t =
      let g = priced_geometry c settings.minimum_risk_reward p.side e l t in
      (g.reasons ≡ [])
      × (metadata_reasons c s.symbol_info (some e) (some l) (some t) g.stop_distance
            g.reward_distance
          ≡ [])

  validate_rest :
      (p : TradeProposal) (s : MarketSnapshot) (oe ol ot : Option Decimal) (e l t : Decimal)
      → oe ≡ some e
      → ol ≡ some l
      → ot ≡ some t
      → pos 0 <ℤ e
      → pos 0 <ℤ l
      → pos 0 <ℤ t
      → (let g = geometry c settings.minimum_risk_reward p.side oe ol ot in
          (g.reasons ≡ [])
          × (metadata_reasons c s.symbol_info oe ol ot g.stop_distance g.reward_distance ≡ []))
      → RestReasons p s e l t
  validate_rest p s oe ol ot e l t he hl ht pe pl pt h =
      rw
        (
          sym (geometry_priced c settings p.side oe ol ot e l t he hl ht pe pl pt),
          sym he,
          sym hl,
          sym ht,
        )
        h

  abbrev given_geometry : TradeProposal → ProposalValidationResult
  given_geometry p =
      geometry c settings.minimum_risk_reward p.side p.entry p.stop_loss p.take_profit

  abbrev given_metadata : TradeProposal → MarketSnapshot → List RiskReason
  given_metadata p s =
      metadata_reasons c s.symbol_info p.entry p.stop_loss p.take_profit
        (given_geometry p).stop_distance (given_geometry p).reward_distance

  validate_blocks :
      (p : TradeProposal) (s : MarketSnapshot)
      → (validation c settings p s).reasons ≡ []
      → (identity_reasons p s ≡ [])
        × ((given_geometry p).reasons ≡ [])
        × (given_metadata p s ≡ [])
        × (mode_reasons s.symbol_info.trading_mode p.side ≡ [])
        × (account_reasons s.account ≡ [])
  unfolding validation
  validate_blocks p s h =
      append_five-eq-nil (identity_reasons p s) (given_geometry p).reasons (given_metadata p s) _ _
        h

  -- The metadata block at three positive prices whose geometry block has no reason.
  rest_parts :
      (p : TradeProposal) (s : MarketSnapshot) (e l t : Decimal)
      → pos 0 <ℤ e
      → pos 0 <ℤ l
      → pos 0 <ℤ t
      → RestReasons p s e l t
      → IsPriced c settings p.side e l t × FitsBroker c settings s.symbol_info e l t
  rest_parts p s e l t pe pl pt (g, m) =
      let priced : IsPriced c settings p.side e l t =
        IsPriced-eq-nil c settings p.side e l t pe pl pt g in
      let (stop, target) = tests_directed c settings p.side e l t priced.directed in
      let shape =
        priced_distances c settings p.side e l t stop target (ge→ltb_ℤ _ _ priced.worth) in
      (
        priced,
        fits_of_metadata c settings s.symbol_info p.side e l t priced (
            subst
              (λ g.
                metadata_reasons c s.symbol_info (some e) (some l) (some t) g.stop_distance
                  g.reward_distance
                ≡ [])
              shape m),
      )

  sound_of_reasons :
      (p : TradeProposal) (s : MarketSnapshot)
      → (validation c settings p s).reasons ≡ []
      → IsSound c settings p s
  sound_of_reasons p s h =
      let (identity, prices, metadata, mode, account) = validate_blocks p s h in
      let (cycle, snapshot, symbol, (e, he, pe), (l, hl, pl), (t, ht, pt)) =
        identity_split p s identity in
      let rest =
        validate_rest p s p.entry p.stop_loss p.take_profit e l t he hl ht pe pl pt
          (prices, metadata) in
      let (priced, fits) = rest_parts p s e l t pe pl pt rest in
      let (allowed, by_program) = account-eq-nil s.account account in
      record {
        same_cycle = cycle;
        same_snapshot = snapshot;
        same_symbol = symbol;
        entry = e;
        stop_loss = l;
        take_profit = t;
        has_entry = he;
        has_stop = hl;
        has_target = ht;
        priced = priced;
        fits = fits;
        opens = mode-eq-nil s.symbol_info.trading_mode p.side mode;
        may_trade = allowed;
        may_trade_by_program = by_program;
      }

  sound_geometry :
      (p : TradeProposal) (s : MarketSnapshot) (h : IsSound c settings p s)
      → given_geometry p ≡ accepted h.entry h.stop_loss h.take_profit
  sound_geometry p s h =
      let (stop, target) =
        tests_directed c settings p.side h.entry h.stop_loss h.take_profit h.priced.directed in
      geometry_priced c settings p.side p.entry p.stop_loss p.take_profit h.entry h.stop_loss
        h.take_profit h.has_entry h.has_stop h.has_target h.priced.entry_pos h.priced.stop_pos
        h.priced.target_pos
      ∙ priced_distances c settings p.side h.entry h.stop_loss h.take_profit stop target
          (ge→ltb_ℤ _ _ h.priced.worth)

  sound_metadata :
      (s : MarketSnapshot) (g : ProposalValidationResult) (oe ol ot : Option Decimal)
      (e l t : Decimal)
      → g ≡ accepted e l t
      → oe ≡ some e
      → ol ≡ some l
      → ot ≡ some t
      → FitsBroker c settings s.symbol_info e l t
      → metadata_reasons c s.symbol_info oe ol ot g.stop_distance g.reward_distance ≡ []
  sound_metadata s g oe ol ot e l t hg he hl ht fits =
      rw (hg, he, hl, ht) (metadata_of_fits c settings s.symbol_info e l t fits)

  -- A sound proposal has no reason, and its distances are those between its prices.
  pub validate_sound :
      (p : TradeProposal) (s : MarketSnapshot) (h : IsSound c settings p s)
      → validation c settings p s ≡ accepted h.entry h.stop_loss h.take_profit
  unfolding validation
  validate_sound p s h =
      let g = sound_geometry p s h in
      let m =
        sound_metadata s (given_geometry p) p.entry p.stop_loss p.take_profit h.entry h.stop_loss
          h.take_profit g h.has_entry h.has_stop h.has_target h.fits in
      cc (
        g,
        m,
        identity_join p s h,
        mode-nil s.symbol_info.trading_mode p.side h.opens,
        account-nil s.account h.may_trade h.may_trade_by_program,
      )

  -- There is no reason exactly for the sound proposals: those of the snapshot's trace and
  -- symbol whose positive prices lie on the right sides of the entry, are worth the risk, fit the
  -- broker's ticks and distances, and open a trade that the symbol and the account allow.
  pub validation_exact :
      (p : TradeProposal) (s : MarketSnapshot)
      → (valid (validation c settings p s) ≡ true) ↔ IsSound c settings p s
  validation_exact p s =
      (λ h. sound_of_reasons p s (is_empty-eq-nil _ h), λ h. rw (validate_sound p s h) refl)
