-- ===== src/Execution/Sqlite/Reload.antt =====
-- `_load` of src/ai_trading_team/storage/execution.py: the memory that a restart reads back.
use my_team_tradding.Execution.Lifecycle.{DemoExecutionRecord}
use my_team_tradding.Execution.Sqlite.{Database, revision_id}
use my_team_tradding.Execution.Store.{ExecutionControlEvent, Repository, TextOrder}
use my_team_tradding.Prelude.{
  All, Bool, Bool-cases, List, Option, String, [], any, ap, arith, false, filter, if◌then◌else◌,
  inl, inr, length, ltb, map, none, not, refl, some, str_eq, str_eq_iff, subst, sym, true, ◌&&◌,
  ◌<◌, ◌==◌, ◌||◌, ◌∙◌, ◌∷◌, ◌≡◌, ◌⊎◌,
}
use my_team_tradding.Prelude.Dict.{insert, lookup, lookup-insert}

unfoldable pub load_table {ℓ} : {A : Type ℓ} → List (String × A) → List (String × A)
unfolding insert
load_table [] = []
load_table ((key, x) ∷ rest) = insert key x (load_table rest)

-- `ORDER BY occurred_at, event_id`
abbrev pub is_behind :
    TextOrder → String × ExecutionControlEvent → String × ExecutionControlEvent → Bool
is_behind le (id, event) (other_id, other) =
    ltb other.occurred_at event.occurred_at
    || (event.occurred_at == other.occurred_at && le other_id id)

unfoldable pub insert_ordered :
    TextOrder
    → String × ExecutionControlEvent
    → List (String × ExecutionControlEvent)
    → List (String × ExecutionControlEvent)
insert_ordered le row [] = row ∷ []
insert_ordered le row (other ∷ rest) =
    let behind = insert_ordered le row rest in
    if is_behind le row other then row ∷ (other ∷ rest) else other ∷ behind

-- The last of the order stands first.
unfoldable pub load_control_events :
    TextOrder → List (String × ExecutionControlEvent) → List (String × ExecutionControlEvent)
unfolding insert_ordered
load_control_events le [] = []
load_control_events le (row ∷ rest) = insert_ordered le row (load_control_events le rest)

-- The row has the greatest revision of its intent.
abbrev pub is_superseded_by : DemoExecutionRecord → DemoExecutionRecord → Bool
is_superseded_by x z =
    str_eq (revision_id z) (revision_id x) && ltb (length x.events) (length z.events)

unfoldable pub is_newest : List DemoExecutionRecord → DemoExecutionRecord → Bool
is_newest rows x = not (any (is_superseded_by x) rows)

unfoldable pub index_by {ℓ} :
    {A : Type ℓ}
    → (DemoExecutionRecord → String)
    → (DemoExecutionRecord → A)
    → List DemoExecutionRecord
    → List (String × A)
unfolding insert
index_by key value [] = []
index_by key value (x ∷ rest) = insert (key x) (value x) (index_by key value rest)

abbrev pub newest_rows : List DemoExecutionRecord → List DemoExecutionRecord
newest_rows rows = filter (is_newest rows) rows

unfoldable pub load : TextOrder → Database → Repository
unfolding load_table load_control_events is_newest index_by
load le db =
    let rows = newest_rows db.m11_record_revision in
    record {
      acceptances = load_table db.m11_environment_acceptance;
      approvals = load_table db.m11_approval;
      revocations = load_table db.m11_approval_revocation;
      control_events = map (λ row. row.1) (load_control_events le db.m11_control_event);
      records = index_by revision_id (λ x. x) rows;
      source_index = index_by (λ x. x.intent.source_shadow_intent_digest) revision_id rows;
      client_index = index_by (λ x. x.intent.client_trade_id) revision_id rows;
    }

-- A record is one of the rows.
abbrev pub Has : DemoExecutionRecord → List DemoExecutionRecord → Type 0
Has y [] = ⊥
Has y (x ∷ rest) = (x ≡ y) ⊎ Has y rest

-- Every row of an identity is the row `y` or an older one.
abbrev pub Precedes : String → DemoExecutionRecord → DemoExecutionRecord → Type 0
Precedes id y x = str_eq (revision_id x) id ≡ true → (x ≡ y) ⊎ (length x.events < length y.events)

-- The rows keep the given record of an identity, or have none of it.
abbrev pub IsLatest : String → List DemoExecutionRecord → Option DemoExecutionRecord → Type 0
IsLatest id rows none = All (λ x. str_eq (revision_id x) id ≡ false) rows
IsLatest id rows (some y) =
    (str_eq (revision_id y) id ≡ true) × Has y rows × All (Precedes id y) rows

All-filter {κ} :
    {P Q : DemoExecutionRecord → Type κ} (p : DemoExecutionRecord → Bool)
    (rows : List DemoExecutionRecord)
    → ((x : DemoExecutionRecord) → p x ≡ true → P x → Q x)
    → All P rows
    → All Q (filter p rows)
All-filter p [] f h = tt
All-filter p (x ∷ rest) f (here, below) = elim (Bool-cases (p x)) [
  | inl kept ↦ rw kept (f x kept here, All-filter p rest f below)
  | inr dropped ↦ rw dropped (All-filter p rest f below)
]

Has-filter :
    (p : DemoExecutionRecord → Bool) (y : DemoExecutionRecord) (rows : List DemoExecutionRecord)
    → p y ≡ true
    → Has y rows
    → Has y (filter p rows)
Has-filter p y [] kept absent = elim absent [ ]
Has-filter p y (x ∷ rest) kept (inl same) = rw (ap p same ∙ kept) (inl same)
Has-filter p y (x ∷ rest) kept (inr below) = elim (Bool-cases (p x)) [
  | inl also ↦ rw also (inr (Has-filter p y rest kept below))
  | inr dropped ↦ rw dropped (Has-filter p y rest kept below)
]

superseded :
    (x y : DemoExecutionRecord) (rows : List DemoExecutionRecord)
    → Has y rows
    → is_superseded_by x y ≡ true
    → any (is_superseded_by x) rows ≡ true
superseded x y [] absent h = elim absent [ ]
superseded x y (z ∷ rest) (inl same) h = rw (ap (is_superseded_by x) same ∙ h) refl
superseded x y (z ∷ rest) (inr below) h =
    let behind = superseded x y rest below h in ground (arith, behind)

not_superseded :
    (y : DemoExecutionRecord) (rows : List DemoExecutionRecord)
    → All (Precedes (revision_id y) y) rows
    → any (is_superseded_by y) rows ≡ false
not_superseded y [] h = refl
not_superseded y (x ∷ rest) (here, below) =
    let behind = not_superseded y rest below in
    elim (Bool-cases (str_eq (revision_id x) (revision_id y))) [
      | inr other ↦ rw (other, behind) refl
      | inl own ↦ elim (here own) [
        | inl same ↦
            rw (own, behind, ap (λ z. ltb (length y.events) (length z.events)) same)
              (ground (arith))
        | inr older ↦ rw (own, behind) (ground (arith, older))
      ]
    ]

lookup-index_by-none :
    (id : String) (rows : List DemoExecutionRecord)
    → All (λ x. str_eq (revision_id x) id ≡ false) rows
    → lookup id (index_by revision_id (λ x. x) rows) ≡ none
unfolding index_by lookup
lookup-index_by-none id [] h = refl
lookup-index_by-none id (x ∷ rest) (here, below) =
    lookup-insert (revision_id x) id x _ ∙ rw here (lookup-index_by-none id rest below)

lookup-index_by-some :
    (id : String) (y : DemoExecutionRecord) (rows : List DemoExecutionRecord)
    → str_eq (revision_id y) id ≡ true
    → Has y rows
    → All (λ x. str_eq (revision_id x) id ≡ true → x ≡ y) rows
    → lookup id (index_by revision_id (λ x. x) rows) ≡ some y
unfolding index_by lookup
lookup-index_by-some id y [] own absent all_same = elim absent [ ]
lookup-index_by-some id y (x ∷ rest) own (inl same) (here, below) =
    lookup-insert (revision_id x) id x _
    ∙ rw (ap (λ z. str_eq (revision_id z) id) same ∙ own) (ap some same)
lookup-index_by-some id y (x ∷ rest) own (inr elsewhere) (here, below) =
    let behind = lookup-index_by-some id y rest own elsewhere below in
    lookup-insert (revision_id x) id x _ ∙ elim (Bool-cases (str_eq (revision_id x) id)) [
      | inl also ↦ rw also (ap some (here also))
      | inr other ↦ rw other behind
    ]

-- The record that `_load` reads back under an identity.
pub lookup-load :
    (le : TextOrder) (id : String) (db : Database) (o : Option DemoExecutionRecord)
    → IsLatest id db.m11_record_revision o
    → lookup id (load le db).records ≡ o
unfolding load is_newest
lookup-load le id db none h =
    lookup-index_by-none id _ (
      All-filter (is_newest db.m11_record_revision) db.m11_record_revision (λ x kept other. other)
        h)
lookup-load le id db (some y) (own, present, older) =
    let rows = db.m11_record_revision in
    let same : revision_id y ≡ id = (str_eq_iff (revision_id y) id).0 own in
    let kept : is_newest rows y ≡ true =
      ap not (not_superseded y rows (subst (λ i. All (Precedes i y) rows) (sym same) older)) in
    let only : (x : DemoExecutionRecord)
        → is_newest rows x ≡ true
        → Precedes id y x
        → str_eq (revision_id x) id ≡ true
        → x ≡ y =
      λ x newest precedes here. elim (precedes here) [
        | inl equal ↦ equal
        | inr less ↦
            let one : str_eq (revision_id y) (revision_id x) ≡ true =
              (str_eq_iff (revision_id y) (revision_id x)).1
                (same ∙ sym ((str_eq_iff (revision_id x) id).0 here)) in
            let two : is_superseded_by x y ≡ true = rw one (ground (arith, less)) in
            cc (rw (superseded x y rows present two) at newest)
      ] in
    lookup-index_by-some id y _ own (Has-filter (is_newest rows) y rows kept present)
      (All-filter (is_newest rows) rows only older)
