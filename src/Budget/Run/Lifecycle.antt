-- ===== src/Budget/Run/Lifecycle.antt =====
-- The life of one reservation of src/ai_trading_team/runtime/budget.py in a run.
use mathlib.Core.Path.{subst₂}
use my_team_tradding.Budget.Ledger.{Key, Ledger, get, put, same_key}
use my_team_tradding.Budget.Ledger.Steps.{
  Moveable, Moves, Settles, dispatches, loses, releases, undoes,
}
use my_team_tradding.Budget.Ledger.Store.{get-put, same_key→eq}
use my_team_tradding.Budget.Run.{
  Effect, Run, Step, Step-Effect, added, charged, later, moved, start,
}
use my_team_tradding.Budget.Types.{
  AiBudgetPolicy, BudgetReservation, BudgetReservationState, Calendar, dispatched, released,
  settled, uncertain,
}
use my_team_tradding.Decimal.{Decimal, DecimalContext, IsSignSafe}
use my_team_tradding.Prelude.{
  Bool-cases, ap, inl, inr, none, refl, some, subst, sym, ℕ, ◌∙◌, ◌≡◌, ◌⊎◌,
}

pub data Lifecycle : BudgetReservationState → BudgetReservationState → Type 0 where
  moves : {from to : BudgetReservationState} → Moveable from to → Lifecycle from to
  pays : Lifecycle dispatched settled

pub record Advances (r v : BudgetReservation) : Type 0 where
  pub next : Lifecycle r.state v.state
  pub same_invocation : v.invocation_id ≡ r.invocation_id
  pub same_attempt : v.attempt_number ≡ r.attempt_number
  pub same_cycle : v.cycle_id ≡ r.cycle_id
  pub same_policy : v.policy_ref ≡ r.policy_ref
  pub same_amount : v.reserved_amount ≡ r.reserved_amount
  pub same_creation : v.created_at ≡ r.created_at

-- The item under a key after a step: the same, or advanced.
abbrev pub Continues : BudgetReservation → BudgetReservation → Type 0
Continues r v = (v ≡ r) ⊎ Advances r v

Moves-Advances :
    {from to : BudgetReservationState} {at : ℕ} {r v : BudgetReservation}
    → Moveable from to
    → Moves from to at r v
    → Advances r v
Moves-Advances {from} {to} {r = r} move m = record {
  next = subst₂ Lifecycle (sym m.before) (ap (λ x. x.state) (sym m.after)) (moves move);
  same_invocation = ap (λ x. x.invocation_id) m.after;
  same_attempt = ap (λ x. x.attempt_number) m.after;
  same_cycle = ap (λ x. x.cycle_id) m.after;
  same_policy = ap (λ x. x.policy_ref) m.after;
  same_amount = ap (λ x. x.reserved_amount) m.after;
  same_creation = ap (λ x. x.created_at) m.after;
}

Settles-Advances :
    {amount : Decimal} {at : ℕ} {r v : BudgetReservation} → Settles amount at r v → Advances r v
Settles-Advances m = record {
  next = subst₂ Lifecycle (sym m.before) (ap (λ x. x.state) (sym m.after)) pays;
  same_invocation = ap (λ x. x.invocation_id) m.after;
  same_attempt = ap (λ x. x.attempt_number) m.after;
  same_cycle = ap (λ x. x.cycle_id) m.after;
  same_policy = ap (λ x. x.policy_ref) m.after;
  same_amount = ap (λ x. x.reserved_amount) m.after;
  same_creation = ap (λ x. x.created_at) m.after;
}

-- A write over an item that is there, seen from any key.
wrote-Continues :
    (k j : Key) (r u v : BudgetReservation) (l : Ledger)
    → get k l ≡ some u
    → Advances u v
    → get j l ≡ some r
    → (w : BudgetReservation) × (get j (put k v l) ≡ some w) × Continues r w
wrote-Continues k j r u v l found change here = elim (Bool-cases (same_key k j)) [
  | inl same ↦
      let same_item : u ≡ r = cc (ap (λ x. get x l) (same_key→eq k j same)) in
      (v, rw (get-put k j v l) (rw same refl), inr (subst (λ x. Advances x v) same_item change))
  | inr other ↦ (r, rw (get-put k j v l) (rw other here), inl refl)
]

-- A new item hides no other: its key was free.
added-Continues :
    (k j : Key) (r v : BudgetReservation) (l : Ledger)
    → get k l ≡ none
    → get j l ≡ some r
    → (w : BudgetReservation) × (get j (put k v l) ≡ some w) × Continues r w
added-Continues k j r v l free here = elim (Bool-cases (same_key k j)) [
  | inl same ↦ cc (ap (λ x. get x l) (same_key→eq k j same))
  | inr other ↦ (r, rw (get-put k j v l) (rw other here), inl refl)
]

module _ (cal : Calendar) (governed : AiBudgetPolicy) where
  pub Effect-Continues :
      {l l' : Ledger} (j : Key) (r : BudgetReservation)
      → Effect cal governed l l'
      → get j l ≡ some r
      → (w : BudgetReservation) × (get j l' ≡ some w) × Continues r w
  Effect-Continues {l} j r (added v state amount fresh room written) here =
      rw written (added-Continues (v.invocation_id, v.attempt_number) j r v l fresh here)
  Effect-Continues {l} j r (moved k from to at move (u, v, found, change, written)) here =
      rw written (wrote-Continues k j r u v l found (Moves-Advances move change) here)
  Effect-Continues {l} j r (charged k amount at (u, v, found, change, written)) here =
      rw written (wrote-Continues k j r u v l found (Settles-Advances change) here)

-- Settled, released and uncertain reservations are final.
abbrev pub IsFinal : BudgetReservationState → Type 0
IsFinal settled = Unit
IsFinal released = Unit
IsFinal uncertain = Unit
IsFinal _ = ⊥

final_stops : {from to : BudgetReservationState} → Lifecycle from to → IsFinal from → ⊥
final_stops (moves dispatches) f = f
final_stops (moves releases) f = f
final_stops (moves loses) f = f
final_stops (moves undoes) f = f
final_stops pays f = f

module _ (c : DecimalContext) (safe : IsSignSafe c) (cal : Calendar)
    (governed : AiBudgetPolicy) where
  -- In arithmetic that keeps signs, a step leaves every item as it is or moves it one step along its
  -- lifecycle, with its invocation, attempt, cycle, policy, amount and creation unchanged.
  pub Step-Continues :
      {l l' : Ledger} (j : Key) (r : BudgetReservation)
      → Step c cal governed l l'
      → get j l ≡ some r
      → (w : BudgetReservation) × (get j l' ≡ some w) × Continues r w
  Step-Continues j r step here =
      Effect-Continues cal governed j r (Step-Effect c safe cal governed step) here

  -- In arithmetic that keeps signs, an item that is settled, released or uncertain stays as it is
  -- through any run.
  pub Run-final :
      {l l' : Ledger} (j : Key) (r : BudgetReservation)
      → Run c cal governed l l'
      → IsFinal r.state
      → get j l ≡ some r
      → get j l' ≡ some r
  Run-final j r start final here = here
  Run-final j r (later run step) final here =
      let (w, found, kept) = Step-Continues j r step (Run-final j r run final here) in
      elim kept [
        | inl same ↦ found ∙ ap some same
        | inr advance ↦ absurd (final_stops advance.next final)
      ]
