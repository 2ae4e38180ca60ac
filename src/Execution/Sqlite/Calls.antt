-- ===== src/Execution/Sqlite/Calls.antt =====
-- Calls of the repository of src/ai_trading_team/storage/execution.py, each with whether its transaction
-- commits. The recovery after a restart is not among them.
use my_team_tradding.Execution.Lifecycle.{DemoExecutionRecord}
use my_team_tradding.Execution.Records.{
  DemoExecutionApproval, DemoExecutionEnvironmentAcceptance, Digests,
}
use my_team_tradding.Execution.Sqlite.{
  SqliteRepository, empty_store, sqlite_add_approval, sqlite_add_environment_acceptance,
  sqlite_append_control_event, sqlite_claim, sqlite_revoke_approval, sqlite_save,
}
use my_team_tradding.Execution.Sqlite.Reload.{load, lookup-load}
use my_team_tradding.Execution.Sqlite.Rows.{IsSynced}
use my_team_tradding.Execution.Sqlite.Synced.{
  sqlite_add_approval-IsSynced, sqlite_add_environment_acceptance-IsSynced,
  sqlite_append_control_event-IsSynced, sqlite_claim-IsSynced, sqlite_revoke_approval-IsSynced,
  sqlite_save-IsSynced,
}
use my_team_tradding.Execution.Store.{
  DemoExecutionApprovalRevocation, ExecutionControlEvent, TextOrder,
}
use my_team_tradding.Execution.Store.Records.{get_record}
use my_team_tradding.Execution.Types.{DemoOrderIntent}
use my_team_tradding.Prelude.{Bool, List, String, [], ℕ, ◌∷◌, ◌≡◌}
use my_team_tradding.Prelude.Dict.{lookup}
use my_team_tradding.Risk.Engine.{RiskDecision}

pub data Call : Type 0 where
  claims : Bool → DemoOrderIntent → RiskDecision → String → ℕ → Call
  saves_record : Bool → DemoExecutionRecord → Call
  controls_execution : Bool → String → ExecutionControlEvent → Call
  accepts_environment : Bool → DemoExecutionEnvironmentAcceptance → Call
  approves : Bool → DemoExecutionApproval → Call
  revokes : Digests → Bool → DemoExecutionApprovalRevocation → Call

unfoldable pub makes : Call → SqliteRepository → SqliteRepository
unfolding sqlite_claim sqlite_save sqlite_append_control_event sqlite_add_environment_acceptance
    sqlite_add_approval sqlite_revoke_approval
makes (claims committed intent risk_revalidation owner at) s =
    (sqlite_claim committed intent risk_revalidation owner at s).0
makes (saves_record committed x) s = (sqlite_save committed x s).0
makes (controls_execution committed event_id event) s =
    (sqlite_append_control_event committed event_id event s).0
makes (accepts_environment committed item) s =
    (sqlite_add_environment_acceptance committed item s).0
makes (approves committed item) s = (sqlite_add_approval committed item s).0
makes (revokes d committed item) s = (sqlite_revoke_approval d committed item s).0

unfoldable pub run_calls : List Call → SqliteRepository → SqliteRepository
unfolding makes
run_calls [] s = s
run_calls (call ∷ rest) s = run_calls rest (makes call s)

makes-IsSynced : (call : Call) (s : SqliteRepository) → IsSynced s → IsSynced (makes call s)
unfolding makes
makes-IsSynced (claims committed intent risk_revalidation owner at) s h =
    sqlite_claim-IsSynced committed intent risk_revalidation owner at s h
makes-IsSynced (saves_record committed x) s h = sqlite_save-IsSynced committed x s h
makes-IsSynced (controls_execution committed event_id event) s h =
    sqlite_append_control_event-IsSynced committed event_id event s h
makes-IsSynced (accepts_environment committed item) s h =
    sqlite_add_environment_acceptance-IsSynced committed item s h
makes-IsSynced (approves committed item) s h = sqlite_add_approval-IsSynced committed item s h
makes-IsSynced (revokes d committed item) s h = sqlite_revoke_approval-IsSynced d committed item s h

run_calls-IsSynced :
    (calls : List Call) (s : SqliteRepository) → IsSynced s → IsSynced (run_calls calls s)
unfolding run_calls
run_calls-IsSynced [] s h = h
run_calls-IsSynced (call ∷ rest) s h =
    run_calls-IsSynced rest (makes call s) (makes-IsSynced call s h)

empty_store-IsSynced : IsSynced empty_store
unfolding lookup
empty_store-IsSynced id = tt

-- After any calls that claim, save, control, accept, approve or revoke, of which any transaction may fail, a restart reads back
-- under each identity the record that the memory has.
pub run_calls-reloads :
    (le : TextOrder) (calls : List Call) (id : String)
    → let s = run_calls calls empty_store in
      get_record id (load le s.database) ≡ get_record id s.memory
unfolding get_record
run_calls-reloads le calls id =
    let s = run_calls calls empty_store in
    lookup-load le id s.database (lookup id s.memory.records)
      (run_calls-IsSynced calls empty_store empty_store-IsSynced id)
