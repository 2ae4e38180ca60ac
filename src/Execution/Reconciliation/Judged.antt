-- ===== src/Execution/Reconciliation/Judged.antt =====
-- The checks that `reconcile_broker_evidence` makes of its only item, and what they establish.
use my_team_tradding.Decimal.{Decimal}
use my_team_tradding.Execution.Reconciliation.{
  CompositeBrokerEvidence, DemoSubmissionReceipt, dispatch_matches, is_adverse_fill, is_given,
  is_level, item_failure, party_matches,
}
use my_team_tradding.Execution.Types.{DemoExecutionFailure, DemoOrderIntent, all_true, same_side}
use my_team_tradding.Prelude.{
  Bool, List, Option, [], ap, arith, false, if◌then◌else◌, inl, inr, leb→le, le→leb, none, not,
  refl, some, str_eq_iff, subst, sym, true, ℕ, ◌&&◌, ◌++◌, ◌||◌, ◌↔◌, ◌∷◌, ◌≡◌, ◌≢◌, ◌≤◌, ◌⊎◌,
}
use my_team_tradding.Prelude.Int.{eqb_ℤ, eqb_ℤ_refl, eqb_ℤ→eq, ge→ltb_ℤ, ltb_ℤ→ge, ◌≤ℤ◌}
use my_team_tradding.Risk.Types.{TradeSide, buy, sell}

-- The broker filled the whole sealed intent, at a price no worse than the validated one, and keeps
-- its protective levels.
pub record IsExecutionOf (intent : DemoOrderIntent) (receipt : DemoSubmissionReceipt)
    (item : CompositeBrokerEvidence) : Type 0 where
  pub same_account : item.account_ref ≡ intent.account_ref
  pub same_environment : item.environment_ref ≡ intent.environment_ref
  pub same_symbol : item.symbol ≡ intent.symbol
  pub same_direction : item.side ≡ intent.side
  pub same_volume : item.volume ≡ intent.volume
  pub after_dispatch : receipt.dispatch_started_at ≤ item.dispatch_started_at
  pub observed_after : item.dispatch_completed_at ≤ item.observed_at
  pub identified : (item.broker_order_id ≢ none) ⊎ (item.broker_deal_id ≢ none)
  pub positioned : item.resulting_position_id ≢ none
  pub fill : Decimal
  pub filled : item.fill_price ≡ some fill
  pub no_worse_buy : intent.side ≡ buy → fill ≤ℤ intent.risk_validation_price
  pub no_worse_sell : intent.side ≡ sell → intent.risk_validation_price ≤ℤ fill
  pub stop_kept : item.stop_loss ≡ some intent.stop_loss
  pub target_kept : item.take_profit ≡ some intent.take_profit

some-injective : {a b : Decimal} → ◌≡◌ {A = Option Decimal} (some a) (some b) → a ≡ b
some-injective h = cc

eq→eqb_ℤ : {a b : Decimal} → a ≡ b → eqb_ℤ a b ≡ true
eq→eqb_ℤ {a} h = rw (← h) (eqb_ℤ_refl a)

is_level_iff :
    (level : Option Decimal) (price : Decimal)
    → (is_level level price ≡ true) ↔ (level ≡ some price)
is_level_iff none price = (λ h. cc, λ h. cc)
is_level_iff (some level) price =
    (λ h. ap some (eqb_ℤ→eq level price h), λ h. eq→eqb_ℤ (some-injective h))

is_given_iff : (n : Option ℕ) → (is_given n ≡ true) ↔ (n ≢ none)
is_given_iff none = (λ h. cc, λ h. absurd (h refl))
is_given_iff (some n) = (λ h q. cc, λ h. refl)

same_side_iff : (s t : TradeSide) → (same_side s t ≡ true) ↔ (s ≡ t)
same_side_iff buy buy = (λ h. refl, λ h. refl)
same_side_iff sell sell = (λ h. refl, λ h. refl)
same_side_iff buy sell = (λ h. cc, λ h. cc)
same_side_iff sell buy = (λ h. cc, λ h. cc)

all_true-append : (xs ys : List Bool) → all_true (xs ++ ys) ≡ (all_true xs && all_true ys)
all_true-append [] ys = refl
all_true-append (true ∷ xs) ys = all_true-append xs ys
all_true-append (false ∷ xs) ys = refl

-- The cascade passes exactly when each test does.
cascade :
    (party dispatch volume stop target : Bool) (price : Option Decimal) (adverse : Decimal → Bool)
    (e1 e2 e3 e4 e5 : DemoExecutionFailure)
    → ((if (party && dispatch) && not volume
          then some e1
          else if not (party && (volume && dispatch))
          then some e2
          else elim price [
            | none ↦ some e3
            | some fill ↦
                if adverse fill then some e4 else if not stop || not target then some e5 else none
          ])
        ≡ none)
      ↔ ((party ≡ true)
          × (dispatch ≡ true)
          × (volume ≡ true)
          × ((fill : Decimal) × (price ≡ some fill) × (adverse fill ≡ false))
          × (stop ≡ true)
          × (target ≡ true))
cascade party dispatch volume stop target none adverse e1 e2 e3 e4 e5 =
    (λ h. ground arith, λ h. ground arith)
cascade party dispatch volume stop target (some p) adverse e1 e2 e3 e4 e5 = (
  λ h. (
    ground arith,
    ground arith,
    ground arith,
    (p, refl, ground arith),
    ground arith,
    ground arith,
  ),
  λ (h1, h2, h3, (fill, given, good), h5, h6).
      let kind : adverse p ≡ false =
        subst (λ x. adverse x ≡ false) (sym (some-injective given)) good in
      ground arith,
)

-- The same for the lists of tests.
cascade_lists :
    (party dispatch : List Bool) (volume stop target : Bool) (price : Option Decimal)
    (adverse : Decimal → Bool) (e1 e2 e3 e4 e5 : DemoExecutionFailure)
    → ((if all_true (party ++ dispatch) && not volume
          then some e1
          else if not (all_true (party ++ (volume ∷ dispatch)))
          then some e2
          else elim price [
            | none ↦ some e3
            | some fill ↦
                if adverse fill then some e4 else if not stop || not target then some e5 else none
          ])
        ≡ none)
      ↔ ((all_true party ≡ true)
          × (all_true dispatch ≡ true)
          × (volume ≡ true)
          × ((fill : Decimal) × (price ≡ some fill) × (adverse fill ≡ false))
          × (stop ≡ true)
          × (target ≡ true))
cascade_lists party dispatch volume stop target price adverse e1 e2 e3 e4 e5 =
    rw (all_true-append party dispatch, all_true-append party (volume ∷ dispatch))
      (cascade (all_true party) (all_true dispatch) volume stop target price adverse e1 e2 e3 e4 e5)

module _ (intent : DemoOrderIntent) (receipt : DemoSubmissionReceipt)
    (item : CompositeBrokerEvidence) where
  abbrev pub Passes : Type 0
  Passes =
      (all_true (party_matches intent item) ≡ true)
      × (all_true (dispatch_matches receipt item) ≡ true)
      × (eqb_ℤ item.volume intent.volume ≡ true)
      × ((fill : Decimal) × (item.fill_price ≡ some fill)
          × (is_adverse_fill intent.side fill intent.risk_validation_price ≡ false))
      × (is_level item.stop_loss intent.stop_loss ≡ true)
      × (is_level item.take_profit intent.take_profit ≡ true)

  pub item_failure_iff : (item_failure intent receipt item ≡ none) ↔ Passes
  unfolding item_failure
  item_failure_iff =
      cascade_lists (party_matches intent item) (dispatch_matches receipt item)
        (eqb_ℤ item.volume intent.volume) (is_level item.stop_loss intent.stop_loss)
        (is_level item.take_profit intent.take_profit) item.fill_price
        (λ fill. is_adverse_fill intent.side fill intent.risk_validation_price) _ _ _ _ _

  no_worse :
      (side : TradeSide) (fill price : Decimal)
      → (is_adverse_fill side fill price ≡ false)
        ↔ ((side ≡ buy → fill ≤ℤ price) × (side ≡ sell → price ≤ℤ fill))
  no_worse buy fill price = (λ h. (λ b. ltb_ℤ→ge _ _ h, λ q. cc), λ (b, q). ge→ltb_ℤ _ _ (b refl))
  no_worse sell fill price = (λ h. (λ q. cc, λ b. ltb_ℤ→ge _ _ h), λ (q, b). ge→ltb_ℤ _ _ (b refl))

  four :
      (a b c d : Bool)
      → all_true (a ∷ b ∷ c ∷ d ∷ []) ≡ true ↔ ((a ≡ true) × (b ≡ true) × (c ≡ true) × (d ≡ true))
  four a b c d = (λ h. ground arith, λ h. ground arith)

  given_either : (m n : Option ℕ) → ((is_given m || is_given n) ≡ true) ↔ ((m ≢ none) ⊎ (n ≢ none))
  given_either none n = (
    λ h. inr ((is_given_iff n).0 h),
    λ h. elim h [ inl q ↦ absurd (q refl) | inr q ↦ (is_given_iff n).1 q ],
  )
  given_either (some m) n = (λ h. inl (λ q. cc), λ h. refl)

  pub passes_execution : Passes → IsExecutionOf intent receipt item
  passes_execution (party, dispatch, volume, (fill, filled, good), stop, target) =
      let (account, environment, symbol, side) = (four _ _ _ _).0 party in
      let (after, observed, identified, positioned) = (four _ _ _ _).0 dispatch in
      let (no_worse_buy, no_worse_sell) = (no_worse intent.side fill _).0 good in
      record {
        same_account = (str_eq_iff _ _).0 account;
        same_environment = (str_eq_iff _ _).0 environment;
        same_symbol = (str_eq_iff _ _).0 symbol;
        same_direction = (same_side_iff _ _).0 side;
        same_volume = eqb_ℤ→eq _ _ volume;
        after_dispatch = leb→le _ _ after;
        observed_after = leb→le _ _ observed;
        identified = (given_either _ _).0 identified;
        positioned = (is_given_iff _).0 positioned;
        fill = fill;
        filled = filled;
        no_worse_buy = no_worse_buy;
        no_worse_sell = no_worse_sell;
        stop_kept = (is_level_iff _ _).0 stop;
        target_kept = (is_level_iff _ _).0 target;
      }

  pub execution_passes : IsExecutionOf intent receipt item → Passes
  execution_passes h = (
    (four _ _ _ _).1 (
      (str_eq_iff _ _).1 h.same_account,
      (str_eq_iff _ _).1 h.same_environment,
      (str_eq_iff _ _).1 h.same_symbol,
      (same_side_iff _ _).1 h.same_direction,
    ),
    (four _ _ _ _).1 (
      le→leb _ _ h.after_dispatch,
      le→leb _ _ h.observed_after,
      (given_either _ _).1 h.identified,
      (is_given_iff _).1 h.positioned,
    ),
    eq→eqb_ℤ h.same_volume,
    (h.fill, h.filled, (no_worse intent.side h.fill _).1 (h.no_worse_buy, h.no_worse_sell)),
    (is_level_iff _ _).1 h.stop_kept,
    (is_level_iff _ _).1 h.target_kept,
  )
