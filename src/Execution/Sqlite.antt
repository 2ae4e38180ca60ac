-- ===== src/Execution/Sqlite.antt =====
-- `SQLiteDemoExecutionRepository` of src/ai_trading_team/storage/execution.py: the memory of its base
-- class beside the tables. Whether a transaction commits is a parameter of each method, and a row reads
-- back as the record that was written.
pub mod Reload
pub mod Rows
pub mod Synced
pub mod Calls
use my_team_tradding.Execution.Lifecycle.{DemoExecutionRecord}
use my_team_tradding.Execution.Records.{
  DemoExecutionApproval, DemoExecutionEnvironmentAcceptance, Digests,
}
use my_team_tradding.Execution.Store.{
  DemoExecutionApprovalRevocation, ExecutionControlEvent, ExecutionFault, Repository, add_approval,
  add_environment_acceptance, append_control_event, empty_repository, revoke_approval,
}
use my_team_tradding.Execution.Store.Records.{claim, save}
use my_team_tradding.Execution.Types.{DemoOrderIntent}
use my_team_tradding.Prelude.{
  Bool, List, Option, String, [], any, if◌then◌else◌, length, none, not, some, str_eq, ℕ, ◌&&◌,
  ◌==◌, ◌||◌, ◌∷◌,
}
use my_team_tradding.Prelude.Dict.{has, insert, lookup, remove}
use my_team_tradding.Prelude.Result.{Result, err, ok}
use my_team_tradding.Risk.Engine.{RiskDecision}

-- A row holds a record as text and its key beside it; the newest row stands first.
pub record Database : Type 0 where
  pub m11_environment_acceptance : List (String × DemoExecutionEnvironmentAcceptance)
  pub m11_approval : List (String × DemoExecutionApproval)
  pub m11_approval_revocation : List (String × DemoExecutionApprovalRevocation)
  pub m11_control_event : List (String × ExecutionControlEvent)
  pub m11_intent : List DemoOrderIntent
  pub m11_record_revision : List DemoExecutionRecord

pub record SqliteRepository : Type 0 where
  pub memory : Repository
  pub database : Database

abbrev pub empty_database : Database
empty_database = record {
  m11_environment_acceptance = [];
  m11_approval = [];
  m11_approval_revocation = [];
  m11_control_event = [];
  m11_intent = [];
  m11_record_revision = [];
}

abbrev pub empty_store : SqliteRepository
empty_store = record { memory = empty_repository; database = empty_database }

-- What the base class raises, or an error of the database.
pub data SqliteFault : Type 0 where
  refused : ExecutionFault → SqliteFault
  database_error : SqliteFault

abbrev pub Outcome {ℓ} : Type ℓ → Type ℓ
Outcome A = SqliteRepository × Result SqliteFault A

-- A row under a primary key, in a transaction that commits or not.
unfoldable pub insert_row {ℓ} :
    {A : Type ℓ} → Bool → String → A → List (String × A) → Option (List (String × A))
unfolding has
insert_row committed key x rows =
    if committed && not (has key rows) then some ((key, x) ∷ rows) else none

abbrev pub revision_id : DemoExecutionRecord → String
revision_id x = x.intent.execution_intent_id

abbrev pub same_revision : DemoExecutionRecord → DemoExecutionRecord → Bool
same_revision x y =
    str_eq y.intent.execution_intent_id x.intent.execution_intent_id
    && length y.events == length x.events

-- `_insert_revision`
unfoldable pub insert_revision :
    Bool → DemoExecutionRecord → List DemoExecutionRecord → Option (List DemoExecutionRecord)
insert_revision committed x rows =
    if committed && not (any (same_revision x) rows) then some (x ∷ rows) else none

-- One of the three identities of an intent that a table keeps unique.
abbrev pub same_intent : DemoOrderIntent → DemoOrderIntent → Bool
same_intent x y =
    str_eq y.execution_intent_id x.execution_intent_id
    || (str_eq y.source_shadow_intent_digest x.source_shadow_intent_digest
        || str_eq y.client_trade_id x.client_trade_id)

abbrev pub with_intent :
    DemoOrderIntent → Database → Option (List DemoExecutionRecord) → Option Database
with_intent intent db none = none
with_intent intent db (some rows) =
    some (record db { m11_intent = intent ∷ db.m11_intent; m11_record_revision = rows })

-- The two inserts of a claim, in one transaction.
unfoldable pub insert_claim :
    Bool → DemoOrderIntent → DemoExecutionRecord → Database → Option Database
unfolding insert_revision
insert_claim committed intent x db =
    if any (same_intent intent) db.m11_intent
    then none
    else with_intent intent db (insert_revision committed x db.m11_record_revision)

abbrev pub claim_written :
    SqliteRepository
    → DemoOrderIntent
    → DemoExecutionRecord
    → Repository
    → Option Database
    → Outcome DemoExecutionRecord
claim_written s intent x memory none = (
  record s {
    memory = record memory {
      records = remove intent.execution_intent_id memory.records;
      source_index = remove intent.source_shadow_intent_digest memory.source_index;
      client_index = remove intent.client_trade_id memory.client_index;
    };
  },
  err database_error,
)
claim_written s intent x memory (some db) = (record { memory = memory; database = db }, ok x)

abbrev pub claim_attempted :
    Bool
    → SqliteRepository
    → DemoOrderIntent
    → Result ExecutionFault (DemoExecutionRecord × Repository)
    → Outcome DemoExecutionRecord
claim_attempted committed s intent (err fault) = (s, err (refused fault))
claim_attempted committed s intent (ok (x, memory)) =
    claim_written s intent x memory (insert_claim committed intent x s.database)

unfoldable pub sqlite_claim :
    Bool
    → DemoOrderIntent
    → RiskDecision
    → String
    → ℕ
    → SqliteRepository
    → Outcome DemoExecutionRecord
unfolding claim insert_claim remove
sqlite_claim committed intent risk_revalidation owner at s =
    claim_attempted committed s intent (claim intent risk_revalidation owner at s.memory)

abbrev pub put_back : Option DemoExecutionRecord → DemoExecutionRecord → Repository → Repository
put_back none x memory = memory
put_back (some current) x memory = record memory {
  records = insert x.intent.execution_intent_id current memory.records;
}

abbrev pub save_written :
    SqliteRepository
    → DemoExecutionRecord
    → Repository
    → Option (List DemoExecutionRecord)
    → Outcome (Unit {0})
save_written s x memory none = (
  record s { memory = put_back (lookup x.intent.execution_intent_id s.memory.records) x memory },
  err database_error,
)
save_written s x memory (some rows) =
    (record { memory = memory; database = record s.database { m11_record_revision = rows } }, ok tt)

abbrev pub save_attempted :
    Bool
    → SqliteRepository
    → DemoExecutionRecord
    → Result ExecutionFault Repository
    → Outcome (Unit {0})
save_attempted committed s x (err fault) = (s, err (refused fault))
save_attempted committed s x (ok memory) =
    save_written s x memory (insert_revision committed x s.database.m11_record_revision)

unfoldable pub sqlite_save : Bool → DemoExecutionRecord → SqliteRepository → Outcome (Unit {0})
unfolding save insert_revision lookup insert
sqlite_save committed x s = save_attempted committed s x (save x s.memory)

abbrev pub control_written :
    SqliteRepository
    → Repository
    → Option (List (String × ExecutionControlEvent))
    → Outcome (Unit {0})
control_written s memory none = (s, err database_error)
control_written s memory (some rows) =
    (record { memory = memory; database = record s.database { m11_control_event = rows } }, ok tt)

abbrev pub control_attempted :
    Bool
    → SqliteRepository
    → String
    → ExecutionControlEvent
    → Result ExecutionFault Repository
    → Outcome (Unit {0})
control_attempted committed s event_id event (err fault) = (s, err (refused fault))
control_attempted committed s event_id event (ok memory) =
    control_written s memory (insert_row committed event_id event s.database.m11_control_event)

-- Behind an error the base class's list has lost the event again.
unfoldable pub sqlite_append_control_event :
    Bool → String → ExecutionControlEvent → SqliteRepository → Outcome (Unit {0})
unfolding append_control_event insert_row
sqlite_append_control_event committed event_id event s =
    control_attempted committed s event_id event (append_control_event event s.memory)

abbrev pub environment_acceptance_written :
    SqliteRepository
    → DemoExecutionEnvironmentAcceptance
    → Repository
    → Option (List (String × DemoExecutionEnvironmentAcceptance))
    → Outcome (Unit {0})
environment_acceptance_written s item memory none = (
  record s {
    memory = record memory { acceptances = remove item.acceptance_id memory.acceptances };
  },
  err database_error,
)
environment_acceptance_written s item memory (some rows) = (
  record { memory = memory; database = record s.database { m11_environment_acceptance = rows } },
  ok tt,
)

abbrev pub environment_acceptance_attempted :
    Bool
    → SqliteRepository
    → DemoExecutionEnvironmentAcceptance
    → Result ExecutionFault Repository
    → Outcome (Unit {0})
environment_acceptance_attempted committed s item (err fault) = (s, err (refused fault))
environment_acceptance_attempted committed s item (ok memory) =
    environment_acceptance_written s item memory
      (insert_row committed item.acceptance_id item s.database.m11_environment_acceptance)

unfoldable pub sqlite_add_environment_acceptance :
    Bool → DemoExecutionEnvironmentAcceptance → SqliteRepository → Outcome (Unit {0})
unfolding add_environment_acceptance insert_row remove
sqlite_add_environment_acceptance committed item s =
    environment_acceptance_attempted committed s item (add_environment_acceptance item s.memory)

abbrev pub approval_written :
    SqliteRepository
    → DemoExecutionApproval
    → Repository
    → Option (List (String × DemoExecutionApproval))
    → Outcome (Unit {0})
approval_written s item memory none = (
  record s { memory = record memory { approvals = remove item.approval_id memory.approvals } },
  err database_error,
)
approval_written s item memory (some rows) =
    (record { memory = memory; database = record s.database { m11_approval = rows } }, ok tt)

abbrev pub approval_attempted :
    Bool
    → SqliteRepository
    → DemoExecutionApproval
    → Result ExecutionFault Repository
    → Outcome (Unit {0})
approval_attempted committed s item (err fault) = (s, err (refused fault))
approval_attempted committed s item (ok memory) =
    approval_written s item memory
      (insert_row committed item.approval_id item s.database.m11_approval)

unfoldable pub sqlite_add_approval :
    Bool → DemoExecutionApproval → SqliteRepository → Outcome (Unit {0})
unfolding add_approval insert_row remove
sqlite_add_approval committed item s =
    approval_attempted committed s item (add_approval item s.memory)

abbrev pub revocation_written :
    SqliteRepository
    → DemoExecutionApprovalRevocation
    → Repository
    → Option (List (String × DemoExecutionApprovalRevocation))
    → Outcome (Unit {0})
revocation_written s item memory none = (
  record s {
    memory = record memory { revocations = remove item.revocation_id memory.revocations };
  },
  err database_error,
)
revocation_written s item memory (some rows) = (
  record { memory = memory; database = record s.database { m11_approval_revocation = rows } },
  ok tt,
)

abbrev pub revocation_attempted :
    Bool
    → SqliteRepository
    → DemoExecutionApprovalRevocation
    → Result ExecutionFault Repository
    → Outcome (Unit {0})
revocation_attempted committed s item (err fault) = (s, err (refused fault))
revocation_attempted committed s item (ok memory) =
    revocation_written s item memory
      (insert_row committed item.revocation_id item s.database.m11_approval_revocation)

unfoldable pub sqlite_revoke_approval :
    Digests → Bool → DemoExecutionApprovalRevocation → SqliteRepository → Outcome (Unit {0})
unfolding revoke_approval insert_row remove
sqlite_revoke_approval d committed item s =
    revocation_attempted committed s item (revoke_approval d item s.memory)
