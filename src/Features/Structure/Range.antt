-- ===== src/Features/Structure/Range.antt =====
-- The window of `recent_range`.
use my_team_tradding.Decimal.{Decimal}
use my_team_tradding.Features.Candles.{MtCandle}
use my_team_tradding.Features.Structure.{extreme, maximum, minimum, range_of, recent_range}
use my_team_tradding.Prelude.{
  Bool, List, [], arith, drop, false, get_elem?, if◌then◌else◌, inl, inr, length, length-drop, ltb,
  lt→ltb, none, refl, some, subst, suc, true, zero, ℕ, ◌-◌, ◌<◌, ◌==◌, ◌∙◌, ◌∷◌, ◌≡◌, ◌≢◌, ◌≤◌, ◌⊎◌,
}
use my_team_tradding.Prelude.Int.{max_ℤ, max_ℤ_le, min_ℤ, ℤ, ◌≤ℤ◌}
use my_team_tradding.Prelude.Result.{ok}

-- The value stands in the list.
abbrev pub Reached : (MtCandle → Decimal) → List MtCandle → Decimal → Type 0
Reached of items value =
    (i : ℕ) × ((item : MtCandle) × ((get_elem? items i ≡ some item) × (value ≡ of item)))

module _ (pick : Decimal → Decimal → Decimal) (of : MtCandle → Decimal)
    (Within : Decimal → Decimal → Type 0) (reflexive : (a : Decimal) → Within a a)
    (transitive : (a b c : Decimal) → Within a b → Within b c → Within a c)
    (covers : (a b : Decimal) → Within a (pick a b) × Within b (pick a b))
    (chooses : (a b : Decimal) → (pick a b ≡ a) ⊎ (pick a b ≡ b)) where
  extreme_over : (best : Decimal) (items : List MtCandle) → Within best (extreme pick of best items)
  unfolding extreme
  extreme_over best [] = reflexive best
  extreme_over best (x ∷ rest) =
      transitive best (pick best (of x)) _ (covers best (of x)).0
        (extreme_over (pick best (of x)) rest)

  extreme_each :
      (best : Decimal) (items : List MtCandle) (i : ℕ) (item : MtCandle)
      → get_elem? items i ≡ some item
      → Within (of item) (extreme pick of best items)
  unfolding extreme
  extreme_each best [] i item found = absurd (cc (found))
  extreme_each best (x ∷ rest) zero item found =
      let same : x ≡ item = cc (found) in
      subst (λ y. Within (of y) (extreme pick of (pick best (of x)) rest)) same
        (transitive (of x) (pick best (of x)) _ (covers best (of x)).1
          (extreme_over (pick best (of x)) rest))
  extreme_each best (x ∷ rest) (suc i) item found =
      extreme_each (pick best (of x)) rest i item found

  extreme-Reached :
      (best : Decimal) (items : List MtCandle)
      → (extreme pick of best items ≡ best) ⊎ Reached of items (extreme pick of best items)
  unfolding extreme
  extreme-Reached best [] = inl refl
  extreme-Reached best (x ∷ rest) = elim (extreme-Reached (pick best (of x)) rest) [
    | inr (i, (item, (found, top))) ↦ inr (suc i, (item, (found, top)))
    | inl same ↦ elim (chooses best (of x)) [
      | inl kept ↦ inl (same ∙ kept)
      | inr taken ↦ inr (0, (x, (refl, same ∙ taken)))
    ]
  ]

  first_bound :
      (first : MtCandle) (rest : List MtCandle) (i : ℕ) (item : MtCandle)
      → get_elem? (first ∷ rest) i ≡ some item
      → Within (of item) (extreme pick of (of first) rest)
  first_bound first rest zero item found =
      let same : first ≡ item = cc (found) in
      subst (λ y. Within (of y) (extreme pick of (of first) rest)) same
        (extreme_over (of first) rest)
  first_bound first rest (suc i) item found = extreme_each (of first) rest i item found

  -- An extreme of a list that starts from its first element bounds the list and is reached in it.
  extreme_first :
      (first : MtCandle) (rest : List MtCandle)
      → ((i : ℕ) (item : MtCandle)
          → get_elem? (first ∷ rest) i ≡ some item
          → Within (of item) (extreme pick of (of first) rest))
        × Reached of (first ∷ rest) (extreme pick of (of first) rest)
  extreme_first first rest = (
    first_bound first rest,
    elim (extreme-Reached (of first) rest) [
      | inl same ↦ (0, (first, (refl, same)))
      | inr (i, (item, (found, top))) ↦ (suc i, (item, (found, top)))
    ],
  )

choice_of : (test : Bool) (a b : ℤ) → ((if test then b else a) ≡ a) ⊎ ((if test then b else a) ≡ b)
choice_of true a b = inr refl
choice_of false a b = inl refl

max_chooses : (a b : ℤ) → (max_ℤ a b ≡ a) ⊎ (max_ℤ a b ≡ b)
unfolding max_ℤ
max_chooses a b = choice_of _ a b

min_chooses : (a b : ℤ) → (min_ℤ a b ≡ a) ⊎ (min_ℤ a b ≡ b)
unfolding min_ℤ
min_chooses a b = choice_of _ a b

min_covers : (a b : ℤ) → (min_ℤ a b ≤ℤ a) × (min_ℤ a b ≤ℤ b)
unfolding min_ℤ
min_covers a b = ground arith

-- The two numbers bound a window and are reached in it.
pub record IsRange (window : List MtCandle) (top bottom : Decimal) : Type 0 where
  pub below_top : (i : ℕ) (item : MtCandle) → get_elem? window i ≡ some item → item.high ≤ℤ top
  pub above_bottom : (i : ℕ) (item : MtCandle) → get_elem? window i ≡ some item → bottom ≤ℤ item.low
  pub top_reached : Reached (λ item. item.high) window top
  pub bottom_reached : Reached (λ item. item.low) window bottom

first-IsRange :
    (first : MtCandle) (rest : List MtCandle)
    → IsRange (first ∷ rest) (maximum first.high rest) (minimum first.low rest)
first-IsRange first rest =
    let highest =
      extreme_first max_ℤ (λ item. item.high) (λ a b. a ≤ℤ b) (λ a. omega arith)
        (λ a b c p q. omega arith) max_ℤ_le max_chooses first rest in
    let lowest =
      extreme_first min_ℤ (λ item. item.low) (λ a b. b ≤ℤ a) (λ a. omega arith)
        (λ a b c p q. omega arith) min_covers min_chooses first rest in
    record {
      below_top = highest.0;
      above_bottom = lowest.0;
      top_reached = highest.1;
      bottom_reached = lowest.1;
    }

range_of-IsRange :
    (window : List MtCandle)
    → length window ≢ 0
    → (top bottom : Decimal) × ((range_of window ≡ some (top, bottom)) × IsRange window top bottom)
range_of-IsRange [] h = absurd (h refl)
range_of-IsRange (first ∷ rest) h = (_, _, (refl, first-IsRange first rest))

-- With a positive lookback and enough candles the range is returned: it bounds each of the latest
-- candles that the lookback counts, and both of its ends are reached in them. With fewer candles there
-- is no range.
pub recent_range-IsRange :
    (candles : List MtCandle) (lookback : ℕ)
    → lookback ≢ 0
    → ((lookback ≤ length candles)
        → (top bottom : Decimal) × ((recent_range candles lookback ≡ ok (some (top, bottom)))
            × IsRange (drop (length candles - lookback) candles) top bottom))
      × (length candles < lookback → recent_range candles lookback ≡ ok none)
unfolding recent_range
recent_range-IsRange candles lookback positive =
    let a : (lookback == 0) ≡ false = ground arith in
    (
      λ enough.
          let b : ltb (length candles) lookback ≡ false = ground arith in
          let (top, bottom, (same, range)) =
            range_of-IsRange (drop (length candles - lookback) candles) (λ empty.
              absurd (
                omega (arith, length-drop (length candles - lookback) candles, empty, positive))) in
          (top, bottom, (rw (a, b, same) refl, range)),
      λ short. rw (a, lt→ltb (length candles) lookback short) refl,
    )
