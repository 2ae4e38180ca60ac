-- ===== src/Execution/Service/Sent.antt =====
-- How often the service of src/ai_trading_team/execution/service.py sends an intent to the broker.
pub mod Methods
pub mod Executions
pub mod Runs
use my_team_tradding.Execution.Lifecycle.{DemoExecutionEvent, DemoExecutionRecord}
use my_team_tradding.Execution.Lifecycle.Once.{dispatches_in}
use my_team_tradding.Execution.Service.{Method, World, appends, saves}
use my_team_tradding.Execution.Store.{
  ExecutionControlEvent, Repository, append_control_event, is_same_control, last_control,
}
use my_team_tradding.Execution.Store.Records.{
  DemoOrderIntent-discrete, all_but_last, events-discrete, is_equal, is_update, owner-discrete,
  save,
}
use my_team_tradding.Prelude.{
  Bool-cases, List, Option, Option-cases, String, [], and_elim, ap, arith, false, if◌then◌else◌,
  inl, inr, length, none, some, str_eq, str_eq_iff, subst, suc, sym, true, ℕ, ◌+◌, ◌==◌, ◌∙◌, ◌∷◌,
  ◌≡◌, ◌≤◌,
}
use my_team_tradding.Prelude.Dict.{insert, lookup, lookup-insert}
use my_team_tradding.Prelude.Result.{Result-cases, ok, ok-injective, passed-eq-ok}

abbrev pub times_sent : String → List String → ℕ
times_sent id [] = 0
times_sent id (sent ∷ rest) = (if str_eq sent id then 1 else 0) + times_sent id rest

abbrev pub dispatches_of : Option DemoExecutionRecord → ℕ
dispatches_of none = 0
dispatches_of (some x) = dispatches_in x.events

-- No intent was sent twice, and one that was sent has a stored record that tells of its dispatch.
abbrev pub IsOnce : World → Type 0
IsOnce w =
    (id : String)
    → (times_sent id w.sent ≤ 1)
      × (times_sent id w.sent ≤ dispatches_of (lookup id w.repository.records))

-- A method keeps a property of the world, whether it returns or raises.
pub record Keeps {ℓ} {A : Type ℓ} (P : World → Type 0) (m : Method A) : Type 0 where
  pub holds : (w : World) → P w → P (m w).1

-- The property is kept by what every method but the dispatch is made of.
pub record IsStable (P : World → Type 0) : Type 0 where
  pub saved : (x : DemoExecutionRecord) (w : World) → P w → P (saves x w).1
  pub controlled : (event : ExecutionControlEvent) (w : World) → P w → P (appends event w).1
  pub read : (w : World) → P w → P (record w { readings = suc w.readings })

dispatches-append :
    (events : List DemoExecutionEvent) → dispatches_in (all_but_last events) ≤ dispatches_in events
dispatches-append [] = omega arith
dispatches-append (event ∷ []) = omega arith
dispatches-append (event ∷ (next ∷ rest)) =
    let behind = dispatches-append (next ∷ rest) in ground arith

is_equal→eq {ℓ} : {A : Type ℓ} (d : Discrete A) (a b : A) → is_equal d a b ≡ true → a ≡ b
is_equal→eq d a b h =
    elim (d a b) as (λ x. elim x [ yes same ↦ true | no other ↦ false ] ≡ true → a ≡ b) [
      | yes same ↦ λ k. same
      | no other ↦ λ k. cc
    ]
      h

-- An update tells of no fewer dispatches.
is_update-grows :
    (current x : DemoExecutionRecord)
    → is_update current x ≡ true
    → dispatches_in current.events ≤ dispatches_in x.events
unfolding is_update
is_update-grows current x h =
    let (intent, h1) = and_elim (is_equal DemoOrderIntent-discrete x.intent current.intent) _ h in
    let (owner, h2) = and_elim (is_equal owner-discrete x.claim_owner current.claim_owner) _ h1 in
    let (size, events) = and_elim (length x.events == length current.events + 1) _ h2 in
    subst (λ l. dispatches_in l ≤ dispatches_in x.events)
      (is_equal→eq events-discrete (all_but_last x.events) current.events events)
      (dispatches-append x.events)

-- A save that returns has found the record that it replaces.
pub save-wrote :
    (x : DemoExecutionRecord) (r r' : Repository)
    → save x r ≡ ok r'
    → (current : DemoExecutionRecord) × (lookup x.intent.execution_intent_id r.records
        ≡ some current)
      × (is_update current x ≡ true)
      × (r' ≡ record r { records = insert x.intent.execution_intent_id x r.records })
unfolding save
save-wrote x r r' h = elim (Option-cases (lookup x.intent.execution_intent_id r.records)) [
  | inl absent ↦ cc (rw (absent, save) at h)
  | inr (current, found) ↦
      let (passes, same) = passed-eq-ok (is_update current x) _ _ r' (rw (found, save) at h) in
      (current, found, passes, sym (ok-injective same))
]

-- `IsOnce` behind a write under one identity that tells of no fewer dispatches.
pub write-IsOnce :
    (w : World) (id : String) (x : DemoExecutionRecord) (r' : Repository)
    → IsOnce w
    → dispatches_of (lookup id w.repository.records) ≤ dispatches_in x.events
    → r'.records ≡ insert id x w.repository.records
    → IsOnce (record w { repository = r' })
write-IsOnce w id x r' h grows same j =
    let here = h j in
    let after : lookup j r'.records
        ≡ (if str_eq id j then some x else lookup j w.repository.records) =
      ap (lookup j) same ∙ lookup-insert id j x w.repository.records in
    elim (Bool-cases (str_eq id j)) [
      | inl own ↦
          let e : lookup j w.repository.records ≡ lookup id w.repository.records =
            ap (λ k. lookup k w.repository.records) (sym ((str_eq_iff id j).0 own)) in
          let a : lookup j r'.records ≡ some x = rw own at after in
          (here.0, rw a (omega (arith, ap dispatches_of e, here.1, grows)))
      | inr other ↦
          let a : lookup j r'.records ≡ lookup j w.repository.records = rw other at after in
          (here.0, rw a here.1)
    ]

saves_keeps : (x : DemoExecutionRecord) (w : World) → IsOnce w → IsOnce (saves x w).1
saves_keeps x w h = elim (Result-cases (save x w.repository)) [
  | inl (r', wrote) ↦
      let (current, found, passes, same) = save-wrote x w.repository r' wrote in
      rw wrote (
        write-IsOnce w x.intent.execution_intent_id x r' h
          (rw found (is_update-grows current x passes)) (ap (λ r. r.records) same))
  | inr (fault, raised) ↦ rw raised h
]

appends_keeps : (event : ExecutionControlEvent) (w : World) → IsOnce w → IsOnce (appends event w).1
unfolding append_control_event
appends_keeps event w h =
    elim (Bool-cases
      (is_same_control event.previous_state (last_control w.repository.control_events))) [
        | inl next ↦ rw next h
        | inr other ↦ rw other h
      ]

pub IsOnce-IsStable : IsStable IsOnce
IsOnce-IsStable = record { saved = saves_keeps; controlled = appends_keeps; read = λ w h. h }
