-- ===== src/Lib.antt =====
-- A verification of the deterministic core of my-TeamTradding: the code that decides whether a trade
-- may be taken, how large it is, what the AI budget lets a model call spend, and when a demo order
-- counts as executed.
--
-- The parts and how they interact
--   Risk: an AI-originated proposal and a market snapshot enter `RiskEngine.evaluate`, which runs the
--     proposal validator and the account guard, sizes the position when neither objects, and builds
--     one decision. Each result is a record whose schema validates it again.
--   Budget: `BudgetGuard.reserve` checks a model call against its policy and reserves its maximal cost
--     in a ledger, in memory or in SQLite; the router then marks the attempt as dispatched and settles
--     it, releases it or leaves it uncertain.
--   Execution: right before a demo order `FinalDispatchGuard` checks the authority behind the sealed
--     intent, the terminal and the links between the records; behind it `reconcile_broker_evidence`
--     compares what the broker reports with the intent. The service claims an intent in the repository,
--     asks the guard, submits the intent, and reconciles; every move of a record is saved.
--   Features: facts about completed candles: their order, their geometry, the confirmed swings.
--   Outcomes: what became of a frozen proposal on the candles behind its decision.
--   Replay: a clock holds the instants at which history is replayed; a source shows a decision and its
--     outcome their parts of a dataset.
--   Orchestration: policies say what a failed agent does to a cycle and how far a debate may go.
--
-- Files and the code they model (paths from the repository's root)
--   Prelude and its children: Boolean tests, lists and integers over the native numbers, results.
--   Decimal, Decimal/RoundUp: `decimal.Decimal`; a context that meets the assumptions on it.
--   Time: aware and naive datetimes. An aware one is its number of microseconds in UTC.
--   Risk/Types: src/ai_trading_team/schemas/enums.py, risk.py, market.py, mt5.py, decisions.py, and
--     the constitution of src/ai_trading_team/config/settings.py with its validator.
--   Risk/Proposal: `ProposalValidator.validate` of src/ai_trading_team/risk/proposal.py. The long body
--     is cut into the functions that append to the list of reasons, in order. Proposal/Sound says what
--     a sound proposal is, Proposal/Exact which proposals are accepted and when the loop raises.
--   Risk/Account: `AccountRiskEvaluator.evaluate`, `_drawdown_state` and `account_fingerprint` of
--     src/ai_trading_team/risk/account.py.
--   Risk/Sizing: `PositionSizer.calculate` of src/ai_trading_team/risk/sizing.py and the validator of
--     `PositionSizingResult` in src/ai_trading_team/schemas/risk.py.
--   Risk/Engine: `RiskEngine.evaluate` of src/ai_trading_team/risk/engine.py and the validator of
--     `RiskDecision`.
--   Budget/Types: src/ai_trading_team/schemas/runtime.py and src/ai_trading_team/runtime/errors.py.
--   Budget/Ledger: `InMemoryBudgetLedger` of src/ai_trading_team/runtime/budget.py. Its state is the
--     dictionary from (invocation, attempt) to a reservation, an association list in insertion order.
--   Budget/Guard: `BudgetGuard.reserve` and the cost estimates of the same file.
--   Budget/Run: sequences of operations as a step relation, with its invariant; Run/Lifecycle follows
--     one reservation.
--   Budget/Sqlite: `SQLiteBudgetLedger` of src/ai_trading_team/storage/ai_budget.py. Its state is the
--     table, a list of rows; Sqlite/Calls compares it with the in-memory ledger, call by call.
--   Execution/Reconciliation: src/ai_trading_team/execution/reconciliation.py and its records in
--     src/ai_trading_team/schemas/execution.py.
--   Execution/Types, Records: the records of execution and qualification that are read there.
--   Execution/Authority: `validate_execution_authority` of src/ai_trading_team/execution/acceptance.py.
--   Execution/Terminal, Guard: `FinalDispatchGuard` of src/ai_trading_team/execution/preflight.py. A run
--     of `if …: raise …` is a list of checks; the first that holds is the error. Terminal/Sound and
--     Guard/Observed say what an observation is like that passes.
--   Execution/Lifecycle: `DemoExecutionRecord` of src/ai_trading_team/schemas/execution.py and `_advance`
--     of src/ai_trading_team/execution/service.py.
--   Replay/Clock, Source: `ReplayClock` of src/ai_trading_team/replay/clock.py, and the views of
--     src/ai_trading_team/replay/source.py for a decision and for its outcome.
--   Orchestration/Failures, Debate: `AgentFailurePolicy` and `DebatePolicy` of
--     src/ai_trading_team/orchestration/failures.py and debate.py.
--   Outcomes: the core of `OutcomeEvaluator.evaluate` of src/ai_trading_team/evaluation/outcomes.py. Its
--     loop is a recursion over the candles that ends where the source breaks; Outcomes/Touch says
--     by prices when a candle touches a level.
--   Execution/Store: `InMemoryDemoExecutionRepository` of src/ai_trading_team/storage/execution.py, each
--     method on the whole state; Store/Records has the records, Store/Recovery `recover_incomplete`.
--   Execution/Sqlite: `SQLiteDemoExecutionRepository` of the same file, the memory beside its tables;
--     Sqlite/Reload is `_load`, Sqlite/Calls has sequences of calls.
--   Execution/Service: `DemoExecutionService` of src/ai_trading_team/execution/service.py. A
--     method passes the repository, the number of clock readings and the log of sent intents;
--     the log is a ghost. Execution/Preflight, Service/Revalidation and Service/Prepare are
--     `execute` up to the claim; Preflight/Fresh is what the preflight establishes, and
--     Service/Sealed what the whole preparation does. Service/Dispatch is the rest of `execute`,
--     Service/Reconcile `_reconcile_record` and `reconcile_unknown`; Sent/Runs has runs of these
--     with restarts between.
--   Features: `validate_candles`, `candle_geometry`, the swings and the range of
--     src/ai_trading_team/features/validation.py, geometry.py and structure.py.
--   Runtime: `RuntimeRouter` of src/ai_trading_team/runtime/router.py and `validate_compatibility` of
--     validation.py. Runtime/Router has the loop over the attempts, Runtime/Invoke what is around it,
--     Runtime/Telemetry the results. The variables that the handler reads are a session.
--   Examples beside a component: concrete inputs on which its theorems are applied.
--
-- Abstractions
--   Decimals are integers, the number of quanta; sums and remainders are exact. Products and quotients
--     belong to a context, a parameter, so nothing rests on how they round. Where a sign matters the
--     theorem assumes `IsSignSafe`, which Decimal/RoundUp shows can be met. NaN and
--     infinities are excluded by the schemas of the inputs. A remainder whose quotient has more digits
--     than the precision raises `InvalidOperation`, as `%` does: the limit is a field of the context,
--     and the error a value. No result is taken to leave the range of the exponents.
--   SHA-256, `str.casefold` and the printing of a number are parameters of the account fingerprint, and
--     the month of a day is a parameter of the budget: no theorem assumes anything of them.
--   `content_digest` and its kin are a parameter of the guard: SHA-256 of the JSON that pydantic prints.
--     It is a function of the fields that a record here has; the other fields are held fixed.
--   A record holds the fields that the modelled code reads. The patterns and lengths of identifiers and
--     messages are checked by their schemas before the modelled code runs. Logging is left out.
--   An exception is a value. A method of a ledger or of the repository that raises leaves the state as
--     it was: it writes last, and a transaction is rolled back; `recover_incomplete` keeps the turns
--     before the error, and a method of the service keeps what it wrote. The stores hold a lock for a
--     whole method, so a method is one step. A method of the service holds no lock: a run of the
--     service is a sequence of whole calls, made by one caller at a time.
--   The broker, the clock, the source of observations and the content-derived identifiers are parameters
--     of the service: a call of the broker or of the source answers or raises, and nothing is assumed of
--     its answers. What an intent has beyond the fields that are read again is left out.
--   The router runs one invocation at a time, though the source may await several; the provider's calls,
--     the parsing of its response and both clocks are parameters.
--   A transaction of the execution repository commits or fails as a parameter says, and a row reads back
--     as the record that was written.
--   No function needs fuel: every loop is over a list, or over the attempts that a policy allows.
--
-- Not modelled: the rest of replay and of evaluation, the indicators, market data, observation,
-- qualification, the shadow cycle, agents, prompts, the MT5 adapter and the other stores.
-- The recovery of the SQLite execution repository and the reading of files are left out.
pub mod Prelude
pub mod Decimal
pub mod Time
pub mod Risk
pub mod Budget
pub mod Execution
pub mod Runtime
pub mod Features
pub mod Replay
pub mod Orchestration
pub mod Outcomes
