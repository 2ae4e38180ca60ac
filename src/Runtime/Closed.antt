-- ===== src/Runtime/Closed.antt =====
-- The reservations of an invocation in the ledger, between its attempts and during one, and what the
-- writes of the router do to them.
pub mod Posts
pub mod Attempts
pub mod Invocations
use my_team_tradding.Budget.Ledger.{Key, Ledger, get, put, same_key}
use my_team_tradding.Budget.Ledger.Store.{get-put, same_key_refl}
use my_team_tradding.Budget.Types.{
  BudgetReservation, BudgetReservationState, released, settled, uncertain,
}
use my_team_tradding.Prelude.{
  Bool, String, arith, false, ltb, ltb→lt, refl, some, subst, suc, true, ℕ, ◌<◌, ◌∙◌, ◌≡◌, ◌≤◌,
}

abbrev pub is_final : BudgetReservationState → Bool
is_final settled = true
is_final released = true
is_final uncertain = true
is_final _ = false

-- Nothing is read differently but at the key.
abbrev pub Elsewhere : Key → Ledger → Ledger → Type 0
Elsewhere k l l' = (j : Key) → same_key k j ≡ false → get j l' ≡ get j l

pub put-Elsewhere : (k : Key) (v : BudgetReservation) (l : Ledger) → Elsewhere k l (put k v l)
put-Elsewhere k v l j other = rw (get-put k j v l, other) refl

pub get-put_self : (k : Key) (v : BudgetReservation) (l : Ledger) → get k (put k v l) ≡ some v
get-put_self k v l = rw (get-put k k v l, same_key_refl k) refl

module _ (id : String) (start : Ledger) where
  abbrev pub IsOwn : ℕ → Key → Type 0
  IsOwn a k = (n : ℕ) → 1 ≤ n → n ≤ a → same_key (id, n) k ≡ false

  abbrev pub Final : Ledger → ℕ → Type 0
  Final l n = (r : BudgetReservation) × (get (id, n) l ≡ some r) × (is_final r.state ≡ true)

  -- The first `a` attempts are over, and nothing else was touched.
  pub record Closed (l : Ledger) (a : ℕ) : Type 0 where
    pub each : (n : ℕ) → 1 ≤ n → n ≤ a → Final l n
    pub others : (k : Key) → IsOwn a k → get k l ≡ get k start

  -- The attempt `a` is under way, those before it are over.
  pub record Pending (l : Ledger) (a : ℕ) : Type 0 where
    pub each : (n : ℕ) → 1 ≤ n → n < a → Final l n
    pub others : (k : Key) → IsOwn a k → get k l ≡ get k start

  other_attempt : (n m : ℕ) → n < m → same_key (id, m) (id, n) ≡ false
  unfolding same_key
  other_attempt n m h = ground arith

  Final-kept :
      (k : Key) (l l' : Ledger) (n : ℕ)
      → Elsewhere k l l'
      → same_key k (id, n) ≡ false
      → Final l n
      → Final l' n
  Final-kept k l l' n elsewhere other (r, found, final) =
      (r, elsewhere (id, n) other ∙ found, final)

  pub opens : (l l' : Ledger) (a : ℕ) → Closed l a → Elsewhere (id, suc a) l l' → Pending l' (suc a)
  opens l l' a x elsewhere = record {
    each = λ n low_end top.
        Final-kept (id, suc a) l l' n elsewhere (other_attempt n (suc a) top)
          (x.each n low_end (omega arith));
    others = λ k own.
        elsewhere k (own (suc a) (omega arith) (omega arith))
        ∙ x.others k (λ n low_end top. own n low_end (omega arith));
  }

  pub moves_on :
      (l l' : Ledger) (a : ℕ) → Pending l a → 1 ≤ a → Elsewhere (id, a) l l' → Pending l' a
  moves_on l l' a x positive elsewhere = record {
    each = λ n low_end top.
        Final-kept (id, a) l l' n elsewhere (other_attempt n a top) (x.each n low_end top);
    others = λ k own. elsewhere k (own a positive (omega arith)) ∙ x.others k own;
  }

  last_by :
      (l l' : Ledger) (a n : ℕ) (last : Bool)
      → ltb n a ≡ last
      → Pending l' a
      → Final l' a
      → 1 ≤ n
      → n ≤ a
      → Final l' n
  last_by l l' a n true h x final low_end top = x.each n low_end (ltb→lt n a h)
  last_by l l' a n false h x final low_end top =
      let same : a ≡ n = ground arith in subst (Final l') same final

  pub closes_with :
      (l l' : Ledger) (a : ℕ)
      → Pending l a
      → 1 ≤ a
      → Elsewhere (id, a) l l'
      → Final l' a
      → Closed l' a
  closes_with l l' a x positive elsewhere final =
      let y = moves_on l l' a x positive elsewhere in
      record {
        each = λ n low_end top. last_by l l' a n _ refl y final low_end top;
        others = y.others;
      }

  pub start-Closed : Closed start 0
  start-Closed = record { each = λ n low_end top. absurd (omega arith); others = λ k own. refl }
