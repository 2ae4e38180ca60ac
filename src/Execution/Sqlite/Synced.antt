-- ===== src/Execution/Sqlite/Synced.antt =====
-- The methods of src/ai_trading_team/storage/execution.py on the records of the memory and their rows.
use my_team_tradding.Execution.Lifecycle.{DemoExecutionRecord}
use my_team_tradding.Execution.Records.{
  DemoExecutionApproval, DemoExecutionEnvironmentAcceptance, Digests,
}
use my_team_tradding.Execution.Service.Sent.{save-wrote}
use my_team_tradding.Execution.Sqlite.{
  SqliteRepository, insert_claim, insert_revision, insert_row, revision_id, sqlite_add_approval,
  sqlite_add_environment_acceptance, sqlite_append_control_event, sqlite_claim,
  sqlite_revoke_approval, sqlite_save,
}
use my_team_tradding.Execution.Sqlite.Reload.{IsLatest}
use my_team_tradding.Execution.Sqlite.Rows.{
  IsSynced, Tracks, Tracks-add, insert_claim-rows, insert_revision-rows, unknown-Precedes,
  update-Precedes,
}
use my_team_tradding.Execution.Store.{
  DemoExecutionApprovalRevocation, ExecutionControlEvent, add_approval, add_environment_acceptance,
  append_control_event, is_same_control, last_control, revoke_approval,
}
use my_team_tradding.Execution.Store.Claims.{claim-wrote}
use my_team_tradding.Execution.Store.Records.{
  DemoOrderIntent-discrete, claim, is_equal, is_update, owner-discrete, save,
}
use my_team_tradding.Execution.Types.{DemoOrderIntent}
use my_team_tradding.Prelude.{
  Bool, Bool-cases, List, Option-cases, String, and_elim, ap, arith, inl, inr, length, refl, some,
  str_eq, str_eq_iff, subst, sym, true, ℕ, ◌+◌, ◌<◌, ◌==◌, ◌∙◌, ◌∷◌, ◌≡◌,
}
use my_team_tradding.Prelude.Dict.{has, insert, lookup, lookup-insert, remove, remove-insert}
use my_team_tradding.Prelude.Result.{Result-cases}
use my_team_tradding.Risk.Engine.{RiskDecision}

pub sqlite_claim-IsSynced :
    (committed : Bool) (intent : DemoOrderIntent) (risk_revalidation : RiskDecision)
    (owner : String) (at : ℕ) (s : SqliteRepository)
    → IsSynced s
    → IsSynced (sqlite_claim committed intent risk_revalidation owner at s).0
unfolding sqlite_claim
sqlite_claim-IsSynced committed intent risk_revalidation owner at s h =
    elim (Result-cases (claim intent risk_revalidation owner at s.memory)) [
      | inr (fault, uncommitted) ↦ rw uncommitted h
      | inl ((x, memory), wrote) ↦
          let (same, stored, absent) =
            claim-wrote intent risk_revalidation owner at s.memory memory x wrote in
          let records : memory.records ≡ insert (revision_id x) x s.memory.records =
            ap (λ r. r.records) stored in
          let rows = s.database.m11_record_revision in
          elim (Option-cases (insert_claim committed intent x s.database)) [
            | inl uncommitted ↦
                let id : revision_id x ≡ intent.execution_intent_id = ap revision_id same in
                let restored : remove intent.execution_intent_id memory.records ≡ s.memory.records =
                  ap (λ i. remove i memory.records) (sym id)
                  ∙ ap (remove (revision_id x)) records
                  ∙ remove-insert (revision_id x) x s.memory.records absent in
                rw (wrote, uncommitted) (subst (Tracks rows) (sym restored) h)
            | inr (db, wrote_rows) ↦
                let grown = insert_claim-rows committed intent x s.database db wrote_rows in
                let older =
                  unknown-Precedes x rows
                    (subst (IsLatest (revision_id x) rows) absent (h (revision_id x))) in
                rw (wrote, wrote_rows)
                  (subst (λ l. Tracks l memory.records) (sym grown)
                    (subst (Tracks (x ∷ rows)) (sym records)
                      (Tracks-add x rows s.memory.records older h)))
          ]
    ]

put_back-lookup :
    (id : String) (current x : DemoExecutionRecord) (j : String)
    (records : List (String × DemoExecutionRecord))
    → lookup id records ≡ some current
    → lookup j (insert id current (insert id x records)) ≡ lookup j records
put_back-lookup id current x j records found =
    lookup-insert id j current (insert id x records) ∙ elim (Bool-cases (str_eq id j)) [
      | inl own ↦ rw own (sym found ∙ ap (λ i. lookup i records) ((str_eq_iff id j).0 own))
      | inr other ↦ rw other (lookup-insert id j x records ∙ rw other refl)
    ]

is_update-longer :
    (current x : DemoExecutionRecord)
    → is_update current x ≡ true
    → length current.events < length x.events
unfolding is_update
is_update-longer current x h =
    let (intent, h1) = and_elim (is_equal DemoOrderIntent-discrete x.intent current.intent) _ h in
    let (owner, h2) = and_elim (is_equal owner-discrete x.claim_owner current.claim_owner) _ h1 in
    let (size, events) = and_elim (length x.events == length current.events + 1) _ h2 in
    ground (arith, size)

pub sqlite_save-IsSynced :
    (committed : Bool) (x : DemoExecutionRecord) (s : SqliteRepository)
    → IsSynced s
    → IsSynced (sqlite_save committed x s).0
unfolding sqlite_save
sqlite_save-IsSynced committed x s h = elim (Result-cases (save x s.memory)) [
  | inr (fault, uncommitted) ↦ rw uncommitted h
  | inl (memory, wrote) ↦
      let (current, found, fits, same) = save-wrote x s.memory memory wrote in
      let records : memory.records ≡ insert (revision_id x) x s.memory.records =
        ap (λ r. r.records) same in
      let rows = s.database.m11_record_revision in
      elim (Option-cases (insert_revision committed x rows)) [
        | inl uncommitted ↦
            let restored : (j : String)
                → lookup j (insert (revision_id x) current memory.records)
                  ≡ lookup j s.memory.records =
              λ j.
                ap (λ m. lookup j (insert (revision_id x) current m)) records
                ∙ put_back-lookup (revision_id x) current x j s.memory.records found in
            rw (wrote, uncommitted, found) (λ j. subst (IsLatest j rows) (sym (restored j)) (h j))
        | inr (after, wrote_rows) ↦
            let grown = insert_revision-rows committed x rows after wrote_rows in
            let older =
              update-Precedes current x rows (is_update-longer current x fits)
                (subst (IsLatest (revision_id x) rows) found (h (revision_id x))) in
            rw (wrote, wrote_rows)
              (subst (λ l. Tracks l memory.records) (sym grown)
                (subst (Tracks (x ∷ rows)) (sym records)
                  (Tracks-add x rows s.memory.records older h)))
      ]
]

pub sqlite_append_control_event-IsSynced :
    (committed : Bool) (event_id : String) (event : ExecutionControlEvent) (s : SqliteRepository)
    → IsSynced s
    → IsSynced (sqlite_append_control_event committed event_id event s).0
unfolding sqlite_append_control_event append_control_event
sqlite_append_control_event-IsSynced committed event_id event s h =
    elim (Bool-cases
      (is_same_control event.previous_state (last_control s.memory.control_events))) [
        | inr other ↦ rw other h
        | inl next ↦
            elim (Option-cases (insert_row committed event_id event s.database.m11_control_event)) [
              | inl uncommitted ↦ rw (next, uncommitted) h
              | inr (rows, wrote_rows) ↦ rw (next, wrote_rows) h
            ]
      ]

pub sqlite_add_environment_acceptance-IsSynced :
    (committed : Bool) (item : DemoExecutionEnvironmentAcceptance) (s : SqliteRepository)
    → IsSynced s
    → IsSynced (sqlite_add_environment_acceptance committed item s).0
unfolding sqlite_add_environment_acceptance add_environment_acceptance
sqlite_add_environment_acceptance-IsSynced committed item s h =
    elim (Bool-cases (has item.acceptance_id s.memory.acceptances)) [
      | inl known ↦ rw known h
      | inr new ↦
          elim (Option-cases
            (insert_row committed item.acceptance_id item s.database.m11_environment_acceptance)) [
              | inl uncommitted ↦ rw (new, uncommitted) h
              | inr (rows, wrote_rows) ↦ rw (new, wrote_rows) h
            ]
    ]

pub sqlite_add_approval-IsSynced :
    (committed : Bool) (item : DemoExecutionApproval) (s : SqliteRepository)
    → IsSynced s
    → IsSynced (sqlite_add_approval committed item s).0
unfolding sqlite_add_approval add_approval
sqlite_add_approval-IsSynced committed item s h =
    elim (Bool-cases (has item.approval_id s.memory.approvals)) [
      | inl known ↦ rw known h
      | inr new ↦
          elim (Option-cases (insert_row committed item.approval_id item s.database.m11_approval)) [
            | inl uncommitted ↦ rw (new, uncommitted) h
            | inr (rows, wrote_rows) ↦ rw (new, wrote_rows) h
          ]
    ]

pub sqlite_revoke_approval-IsSynced :
    (d : Digests) (committed : Bool) (item : DemoExecutionApprovalRevocation) (s : SqliteRepository)
    → IsSynced s
    → IsSynced (sqlite_revoke_approval d committed item s).0
unfolding sqlite_revoke_approval revoke_approval
sqlite_revoke_approval-IsSynced d committed item s h =
    elim (Bool-cases (has item.revocation_id s.memory.revocations)) [
      | inl known ↦ rw known h
      | inr new ↦ elim (Option-cases (lookup item.approval_id s.memory.approvals)) [
        | inl absent ↦ rw (new, absent) h
        | inr (approval, found) ↦
            elim (Bool-cases (str_eq (d.of_approval approval) item.approval_digest)) [
              | inr other ↦ rw (new, found, other) h
              | inl same ↦
                  elim (Option-cases (
                    insert_row committed item.revocation_id item
                      s.database.m11_approval_revocation)) [
                        | inl uncommitted ↦ rw (new, found, same, uncommitted) h
                        | inr (rows, wrote_rows) ↦ rw (new, found, same, wrote_rows) h
                      ]
            ]
      ]
    ]
