-- ===== src/Execution/Guard/Observed.antt =====
-- What the terminal is like when `_validate_observation` raises nothing.
use my_team_tradding.Decimal.{DecimalContext}
use my_team_tradding.Execution.Authority.Sound.{and_then-none, first_failure-none, refused_text}
use my_team_tradding.Execution.Guard.{validate_observation}
use my_team_tradding.Execution.Lifecycle.{DemoExecutionRecord}
use my_team_tradding.Execution.Records.{
  DemoExecutionApproval, DemoExecutionEnvironmentAcceptance, DemoExecutionPolicy, Digests,
  QualifiedDemoExecutionCandidate,
}
use my_team_tradding.Execution.Terminal.{
  FinalDispatchObservation, Mt5ConnectionState, account_checks, connected, disconnected,
  is_connected, is_not_false, quote_checks, reference_of,
}
use my_team_tradding.Execution.Terminal.Sound.{
  IsCapable, IsQuoted, capability_sound, demo_only, no_positions, quote_sound,
}
use my_team_tradding.Execution.Types.{first_failure}
use my_team_tradding.Prelude.{[], false, none, not-eq-false, or-eq-false, refl, true, ℕ, ◌≡◌}
use my_team_tradding.Risk.Types.{demo}

connected_only : (state : Mt5ConnectionState) → is_connected state ≡ true → state ≡ connected
connected_only connected h = refl
connected_only disconnected h = cc

module _ (c : DecimalContext) (d : Digests) (execution : DemoExecutionRecord)
    (candidate : QualifiedDemoExecutionCandidate) (acceptance : DemoExecutionEnvironmentAcceptance)
    (approval : DemoExecutionApproval) (policy : DemoExecutionPolicy) where
  -- The terminal as observed last: the accepted demo account without positions, a fresh tick of the
  -- intent's symbol near its reference price, and a symbol that takes protected market orders.
  pub record IsObserved (observation : FinalDispatchObservation) (now : ℕ) : Type 0 where
    pub is_demo_account : observation.account.trade_mode ≡ demo
    pub same_account : observation.account_ref ≡ execution.intent.account_ref
    pub accepted_account : observation.account_ref ≡ acceptance.account_ref
    pub same_environment : observation.environment_ref ≡ execution.intent.environment_ref
    pub accepted_environment : observation.environment_ref ≡ acceptance.environment_ref
    pub flat : observation.positions ≡ []
    pub online : observation.health.connection_state ≡ connected
    pub logged_in : observation.health.authenticated ≡ true
    pub trade_api : is_not_false observation.health.trade_api_disabled ≡ false
    pub same_symbol : observation.tick.symbol ≡ execution.intent.symbol
    pub quoted :
        IsQuoted c policy observation.tick
          (reference_of execution.intent.side observation.tick)
          execution.intent.reference_price
          observation.symbol_info.trade_tick_size
          now
    pub capable : IsCapable d acceptance policy observation.symbol_info observation.capabilities

  pub observation_sound :
      (observation : FinalDispatchObservation) (now : ℕ)
      → validate_observation c d execution candidate acceptance approval policy observation now
        ≡ none
      → IsObserved observation now
  unfolding validate_observation account_checks
  observation_sound observation now h =
      let accounts = account_checks d acceptance execution.intent observation in
      let (h1, h23) = and_then-none (first_failure accounts) _ h in
      let quotes =
        quote_checks c policy observation.tick (reference_of execution.intent.side observation.tick)
          execution.intent.reference_price observation.symbol_info.trade_tick_size now in
      let (h2, h3) = and_then-none (first_failure quotes) _ h23 in
      let (a1, (a2, (a3, (a4, (a5, (a6, a7)))))) = first_failure-none accounts h1 in
      let (same_account, accepted_account) = or-eq-false _ _ a2 in
      let (same_environment, accepted_environment) = or-eq-false _ _ a3 in
      let (online, rest) = or-eq-false _ _ a5 in
      let (logged_in, enabled_api) = or-eq-false _ _ rest in
      record {
        is_demo_account = demo_only _ (not-eq-false _ a1);
        same_account = refused_text same_account;
        accepted_account = refused_text accepted_account;
        same_environment = refused_text same_environment;
        accepted_environment = refused_text accepted_environment;
        flat = no_positions _ a4;
        online = connected_only _ (not-eq-false _ online);
        logged_in = not-eq-false _ logged_in;
        trade_api = enabled_api;
        same_symbol = refused_text a6;
        quoted = quote_sound c policy observation.tick _ _ _ now h2;
        capable =
            capability_sound d acceptance policy observation.symbol_info observation.capabilities
              h3;
      }
