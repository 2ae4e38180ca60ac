-- ===== src/Execution/Sqlite/Rows.antt =====
-- When the rows of src/ai_trading_team/storage/execution.py keep what its memory has.
-- The rows keep what the memory has under each identity.
use my_team_tradding.Execution.Lifecycle.{DemoExecutionRecord}
use my_team_tradding.Execution.Sqlite.{
  Database, SqliteRepository, insert_claim, insert_revision, revision_id, same_intent,
  same_revision, with_intent,
}
use my_team_tradding.Execution.Sqlite.Reload.{IsLatest, Precedes}
use my_team_tradding.Execution.Types.{DemoOrderIntent}
use my_team_tradding.Prelude.{
  All, Bool, Bool-cases, List, Option, String, [], any, ap, arith, false, inl, inr, length, none,
  not, refl, some, str_eq, str_eq_iff, subst, sym, ◌&&◌, ◌<◌, ◌∙◌, ◌∷◌, ◌≡◌,
}
use my_team_tradding.Prelude.Dict.{insert, lookup, lookup-insert}

abbrev pub Tracks : List DemoExecutionRecord → List (String × DemoExecutionRecord) → Type 0
Tracks rows records = (id : String) → IsLatest id rows (lookup id records)

abbrev pub IsSynced : SqliteRepository → Type 0
IsSynced s = Tracks s.database.m11_record_revision s.memory.records

IsLatest-skip :
    (id : String) (x : DemoExecutionRecord) (rows : List DemoExecutionRecord)
    (o : Option DemoExecutionRecord)
    → str_eq (revision_id x) id ≡ false
    → IsLatest id rows o
    → IsLatest id (x ∷ rows) o
IsLatest-skip id x rows none other h = (other, h)
IsLatest-skip id x rows (some y) other (own, present, older) =
    (own, inr present, (λ same. cc (rw same at other), older))

-- A row that supersedes every row of its identity.
pub Tracks-add :
    (x : DemoExecutionRecord) (rows : List DemoExecutionRecord)
    (records : List (String × DemoExecutionRecord))
    → All (Precedes (revision_id x) x) rows
    → Tracks rows records
    → Tracks (x ∷ rows) (insert (revision_id x) x records)
Tracks-add x rows records older h id =
    subst (IsLatest id (x ∷ rows)) (sym (lookup-insert (revision_id x) id x records))
      (elim (Bool-cases (str_eq (revision_id x) id)) [
        | inl own ↦
            let same : revision_id x ≡ id = (str_eq_iff (revision_id x) id).0 own in
            rw own
              (own, inl refl, (λ here. inl refl, subst (λ i. All (Precedes i x) rows) same older))
        | inr other ↦ rw other (IsLatest-skip id x rows (lookup id records) other (h id))
      ])

All-map {κ} :
    {P Q : DemoExecutionRecord → Type κ} (rows : List DemoExecutionRecord)
    → ((x : DemoExecutionRecord) → P x → Q x)
    → All P rows
    → All Q rows
All-map [] f h = tt
All-map (x ∷ rest) f (here, below) = (f x here, All-map rest f below)

pub unknown-Precedes :
    (x : DemoExecutionRecord) (rows : List DemoExecutionRecord)
    → IsLatest (revision_id x) rows none
    → All (Precedes (revision_id x) x) rows
unknown-Precedes x rows h = All-map rows (λ z other same. cc (rw same at other)) h

pub update-Precedes :
    (current x : DemoExecutionRecord) (rows : List DemoExecutionRecord)
    → length current.events < length x.events
    → IsLatest (revision_id x) rows (some current)
    → All (Precedes (revision_id x) x) rows
update-Precedes current x rows grows (own, present, older) =
    All-map rows
      (λ z precedes same. elim (precedes same) [
        | inl equal ↦ inr (omega (arith, grows, ap (λ y. length y.events) equal))
        | inr less ↦ inr (omega (arith, grows, less))
      ])
      older

pub insert_revision-rows :
    (committed : Bool) (x : DemoExecutionRecord) (rows after : List DemoExecutionRecord)
    → insert_revision committed x rows ≡ some after
    → after ≡ x ∷ rows
unfolding insert_revision
insert_revision-rows committed x rows after h =
    elim (Bool-cases (committed && not (any (same_revision x) rows))) [
      | inl inserts ↦ cc (rw inserts at h)
      | inr refuses ↦ cc (rw refuses at h)
    ]

with_intent-rows :
    (intent : DemoOrderIntent) (x : DemoExecutionRecord) (db after : Database)
    (o : Option (List DemoExecutionRecord))
    → ((rows : List DemoExecutionRecord) → o ≡ some rows → rows ≡ x ∷ db.m11_record_revision)
    → with_intent intent db o ≡ some after
    → after.m11_record_revision ≡ x ∷ db.m11_record_revision
with_intent-rows intent x db after none grown h = cc (h)
with_intent-rows intent x db after (some rows) grown h =
    let same : record db { m11_intent = intent ∷ db.m11_intent; m11_record_revision = rows }
        ≡ after =
      cc (h) in
    ap (λ d. d.m11_record_revision) (sym same) ∙ grown rows refl

pub insert_claim-rows :
    (committed : Bool) (intent : DemoOrderIntent) (x : DemoExecutionRecord) (db after : Database)
    → insert_claim committed intent x db ≡ some after
    → after.m11_record_revision ≡ x ∷ db.m11_record_revision
unfolding insert_claim
insert_claim-rows committed intent x db after h =
    elim (Bool-cases (any (same_intent intent) db.m11_intent)) [
      | inl known ↦ cc (rw known at h)
      | inr new ↦
          with_intent-rows intent x db after _
            (λ rows wrote. insert_revision-rows committed x db.m11_record_revision rows wrote)
            (rw new at h)
    ]
