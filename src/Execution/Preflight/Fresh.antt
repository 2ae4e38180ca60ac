-- ===== src/Execution/Preflight/Fresh.antt =====
-- What `validate_fresh_execution_observation` of src/ai_trading_team/execution/preflight.py has
-- established when it returns, and the facts it returns.
use my_team_tradding.Decimal.{Decimal, DecimalContext, rem}
use my_team_tradding.Execution.Authority.Sound.{first_failure-none, ltb→le, refused_text}
use my_team_tradding.Execution.Preflight.{
  DemoExecutionPreflight, FreshExecutionObservation, adverse_price, build_preflight,
  exact_deviation_points, freshness_checks, is_above_zero, passes, valid_when, validate_fresh,
}
use my_team_tradding.Execution.Records.{
  ContinuousDecisionRecord, DemoExecutionEnvironmentAcceptance, DemoExecutionPolicy, Digests,
  ShadowTradeIntent,
}
use my_team_tradding.Execution.Store.{value_error}
use my_team_tradding.Execution.Terminal.{reference_of}
use my_team_tradding.Execution.Terminal.Sound.{
  IsCapable, IsQuoted, capability_sound, demo_only, no_positions, quote_sound,
}
use my_team_tradding.Execution.Types.{DemoExecutionFailure, first_failure}
use my_team_tradding.Prelude.{
  Bool, Option, [], and_elim, arith, false, none, not, not-eq-false, or-eq-false, refl, some,
  str_eq, subst, sym, true, ℕ, ◌*◌, ◌+◌, ◌≡◌, ◌≤◌,
}
use my_team_tradding.Prelude.Int.{
  abs_ℤ, eqb_ℤ→eq, leb_ℤ→gt, ltb_ℤ→ge, ltb_ℤ→lt, pos, ◌+ℤ◌, ◌-ℤ◌, ◌<ℤ◌, ◌≤ℤ◌,
}
use my_team_tradding.Prelude.Result.{>>=-returned, ok, ok-injective, passed-eq-ok, refused-eq-ok}
use my_team_tradding.Risk.Account.{Fingerprinting, account_fingerprint}
use my_team_tradding.Risk.Types.{TradeSide, buy, demo, sell}

pub passes-none : (o : Option DemoExecutionFailure) (u : Unit {0}) → passes o ≡ ok u → o ≡ none
passes-none none u h = refl
passes-none (some failure) u h = cc (h)

pub valid_when-true : (test : Bool) (u : Unit {0}) → valid_when test ≡ ok u → test ≡ true
valid_when-true test u h = (passed-eq-ok test (ok tt) value_error u h).0

pub not-eq-true : (b : Bool) → not b ≡ true → b ≡ false
not-eq-true b h = ground arith

-- The price that a slippage against the order may reach: above the reference to buy, below it to sell.
abbrev pub IsReached : TradeSide → Decimal → Decimal → Decimal → Type 0
IsReached buy reference slippage price = price ≡ reference +ℤ slippage
IsReached sell reference slippage price = price ≡ reference -ℤ slippage

-- A number of points that MT5 can be given.
pub record IsDeviation (c : DecimalContext) (ticks tick_size point points : Decimal) : Type 0 where
  pub tick_size_pos : pos 0 <ℤ tick_size
  pub point_pos : pos 0 <ℤ point
  pub value : points ≡ c.div (c.mul ticks tick_size) point
  pub whole : rem points (pos c.one) ≡ pos 0
  pub nonneg : pos 0 ≤ℤ points

exact_deviation_points-IsDeviation :
    (c : DecimalContext) (ticks tick_size point points : Decimal)
    → exact_deviation_points c ticks tick_size point ≡ ok points
    → IsDeviation c ticks tick_size point points
unfolding exact_deviation_points
exact_deviation_points-IsDeviation c ticks tick_size point points h =
    let (sizes, h1) = refused-eq-ok _ value_error _ points h in
    let (value, h2) = refused-eq-ok _ value_error _ points h1 in
    let (tick_size_pos, point_pos) = or-eq-false _ _ sizes in
    let (whole, nonneg) = or-eq-false _ _ value in
    let same = ok-injective h2 in
    record {
      tick_size_pos = leb_ℤ→gt tick_size (pos 0) tick_size_pos;
      point_pos = leb_ℤ→gt point (pos 0) point_pos;
      value = sym same;
      whole = subst (λ x. rem x (pos c.one) ≡ pos 0) same (eqb_ℤ→eq _ _ (not-eq-false _ whole));
      nonneg =
          subst (λ x. pos 0 ≤ℤ x) same
            (ltb_ℤ→ge (c.div (c.mul ticks tick_size) point) (pos 0) nonneg);
    }

module _ (c : DecimalContext) (f : Fingerprinting) (d : Digests)
    (acceptance : DemoExecutionEnvironmentAcceptance) (policy : DemoExecutionPolicy)
    (analysed : ContinuousDecisionRecord) (shadow : ShadowTradeIntent)
    (observation : FreshExecutionObservation) (started completed : ℕ) where
  -- The observation is a later one of the analysed market and of the accepted demo account without
  -- positions, in time, quoted near the analysed entry; the facts are read off it.
  pub record IsFresh (facts : DemoExecutionPreflight) : Type 0 where
    pub another_snapshot : str_eq shadow.snapshot_id observation.snapshot.snapshot_id ≡ false
    pub in_order : started ≤ completed
    pub prompt : completed ≤ started + policy.maximum_preflight_seconds * 1000000
    pub recent : completed ≤ analysed.recorded_at + policy.maximum_decision_age_seconds * 1000000
    pub same_cycle : observation.snapshot.cycle_id ≡ shadow.cycle_id
    pub same_symbol : observation.snapshot.symbol ≡ shadow.proposal.symbol
    pub accepted_account :
        account_fingerprint f observation.snapshot.account.account_id
          observation.snapshot.account.server
        ≡ acceptance.account_ref
    pub accepted_context : observation.context.account_ref ≡ acceptance.account_ref
    pub accepted_environment : observation.environment_ref ≡ acceptance.environment_ref
    pub is_demo_account : observation.snapshot.account.trade_mode ≡ demo
    pub flat : observation.account_positions ≡ []
    pub capable :
        IsCapable d acceptance policy observation.snapshot.symbol_info observation.capabilities
    pub quoted :
        IsQuoted c policy observation.tick
          (reference_of shadow.proposal.side observation.tick)
          shadow.hypothetical_entry
          observation.snapshot.symbol_info.trade_tick_size
          completed
    pub analysis_snapshot : facts.analysis_snapshot_id ≡ shadow.snapshot_id
    pub execution_snapshot : facts.execution_snapshot_id ≡ observation.snapshot.snapshot_id
    pub started_then : facts.started_at ≡ started
    pub completed_then : facts.completed_at ≡ completed
    pub reference : facts.reference_price ≡ reference_of shadow.proposal.side observation.tick
    pub reference_pos : pos 0 <ℤ facts.reference_price
    pub spread_ticks :
        facts.spread_ticks
        ≡ c.div observation.tick.spread observation.snapshot.symbol_info.trade_tick_size
    pub drift_ticks :
        facts.price_drift_ticks
        ≡ c.div
            (abs_ℤ (facts.reference_price -ℤ shadow.hypothetical_entry))
            observation.snapshot.symbol_info.trade_tick_size
    pub reached :
        IsReached shadow.proposal.side facts.reference_price
          (c.mul policy.maximum_adverse_slippage_ticks
            observation.snapshot.symbol_info.trade_tick_size)
          facts.risk_validation_price
    pub reached_pos : pos 0 <ℤ facts.risk_validation_price
    pub deviation :
        IsDeviation c policy.maximum_adverse_slippage_ticks
          observation.snapshot.symbol_info.trade_tick_size observation.snapshot.symbol_info.point
          facts.maximum_deviation_points

  adverse_price-IsReached :
      (side : TradeSide) (reference slippage : Decimal)
      → IsReached side reference slippage
          (adverse_price c f d acceptance policy side reference slippage)
  adverse_price-IsReached buy reference slippage = refl
  adverse_price-IsReached sell reference slippage = refl

  built :
      (p q : DemoExecutionPreflight)
      → build_preflight c f d acceptance policy p ≡ ok q
      → (p ≡ q) × (pos 0 <ℤ p.reference_price) × (pos 0 <ℤ p.risk_validation_price)
  unfolding build_preflight
  built p q h =
      let (u, tests, same) = >>=-returned (valid_when _) _ h in
      let (one, rest) = and_elim (is_above_zero p.reference_price) _ (valid_when-true _ u tests) in
      let (two, rest') = and_elim (is_above_zero p.risk_validation_price) _ rest in
      (
        ok-injective same,
        ltb_ℤ→lt (pos 0) p.reference_price one,
        ltb_ℤ→lt (pos 0) p.risk_validation_price two,
      )

  -- When the preflight returns its facts, the observation was made in time, after a decision that is not
  -- too old; it is another snapshot of the analysed cycle and symbol, on the accepted demo account and
  -- environment and without positions; the symbol takes protected market orders, and the quote is
  -- fresh, with a spread and a drift from the analysed entry within the policy. The facts hold the
  -- identities and times of it, its price, its spread and its drift in ticks, the price that slippage
  -- may reach, and that slippage as a whole number of points.
  pub validate_fresh-IsFresh :
      (facts : DemoExecutionPreflight)
      → validate_fresh c f d acceptance policy analysed shadow observation started completed
        ≡ ok facts
      → IsFresh facts
  unfolding validate_fresh freshness_checks
  validate_fresh-IsFresh facts h =
      let checks =
        freshness_checks c f d acceptance policy analysed shadow observation started completed in
      let (u1, distinct, h1) = >>=-returned (valid_when _) _ h in
      let (u2, timely, h2) = >>=-returned (passes (first_failure checks)) _ h1 in
      let (u3, able, h3) = >>=-returned (passes _) _ h2 in
      let (u4, quoted, h4) = >>=-returned (passes _) _ h3 in
      let info = observation.snapshot.symbol_info in
      let price = reference_of shadow.proposal.side observation.tick in
      let slippage = c.mul policy.maximum_adverse_slippage_ticks info.trade_tick_size in
      let made : Decimal → DemoExecutionPreflight = λ points. record {
        analysis_snapshot_id = shadow.snapshot_id;
        execution_snapshot_id = observation.snapshot.snapshot_id;
        started_at = started;
        completed_at = completed;
        reference_price = price;
        risk_validation_price =
            adverse_price c f d acceptance policy shadow.proposal.side price slippage;
        spread_ticks = c.div observation.tick.spread info.trade_tick_size;
        price_drift_ticks = c.div (abs_ℤ (price -ℤ shadow.hypothetical_entry)) info.trade_tick_size;
        maximum_deviation_points = points;
      } in
      let (points, deviation, h5) =
        >>=-returned
          (exact_deviation_points c policy.maximum_adverse_slippage_ticks info.trade_tick_size
            info.point)
          (λ points. build_preflight c f d acceptance policy (made points)) h4 in
      let (same, reference_pos, reached_pos) = built (made points) facts h5 in
      let (t1, (t2, (t3, (t4, (t5, (t6, (t7, end))))))) =
        first_failure-none checks (passes-none _ u2 timely) in
      let (in_order, prompt) = or-eq-false _ _ t1 in
      let (same_cycle, same_symbol) = or-eq-false _ _ t3 in
      let (accepted_account, accepted_context) = or-eq-false _ _ t4 in
      subst IsFresh same (record {
        another_snapshot = not-eq-true _ (valid_when-true _ u1 distinct);
        in_order = ltb→le _ _ in_order;
        prompt = omega (arith, ltb→le _ _ in_order, ltb→le _ _ prompt);
        recent = omega (arith, ltb→le _ _ t2);
        same_cycle = refused_text same_cycle;
        same_symbol = refused_text same_symbol;
        accepted_account = refused_text accepted_account;
        accepted_context = refused_text accepted_context;
        accepted_environment = refused_text t5;
        is_demo_account = demo_only _ (not-eq-false _ t6);
        flat = no_positions _ t7;
        capable = capability_sound d acceptance policy _ _ (passes-none _ u3 able);
        quoted = quote_sound c policy observation.tick _ _ _ completed (passes-none _ u4 quoted);
        analysis_snapshot = refl;
        execution_snapshot = refl;
        started_then = refl;
        completed_then = refl;
        reference = refl;
        reference_pos = reference_pos;
        spread_ticks = refl;
        drift_ticks = refl;
        reached = adverse_price-IsReached shadow.proposal.side _ _;
        reached_pos = reached_pos;
        deviation = exact_deviation_points-IsDeviation c _ _ _ points deviation;
      })
