-- ===== src/Features/Structure/Pivots.antt =====
-- What the comparison of a pivot with its windows says of each candle around it.
use my_team_tradding.Features.Candles.{MtCandle}
use my_team_tradding.Features.Structure.{exceeds, is_pivot, level}
use my_team_tradding.Prelude.{
  Bool, List, all, all-get, and_elim, and_intro, ap, arith, false, get-all, get-drop, get-take,
  get-take-none, get_elem?, ltb, ltb→lt, refl, slice, some, subst, take, true, ℕ, ◌+◌, ◌-◌, ◌<◌,
  ◌∙◌, ◌≡◌, ◌≢◌, ◌≤◌,
}

module _ (high : Bool) (left_bars right_bars : ℕ) (candles : List MtCandle) where
  -- The candle at the index exceeds every other one from `left_bars` before it to `right_bars` behind it.
  pub record IsPivot (index : ℕ) : Type 0 where
    pub pivot : MtCandle
    pub present : get_elem? candles index ≡ some pivot
    pub above :
        (k : ℕ) (item : MtCandle)
        → index ≤ k + left_bars
        → k ≤ index + right_bars
        → k ≢ index
        → get_elem? candles k ≡ some item
        → exceeds high (level high pivot) (level high item) ≡ true

  shifted : (a k : ℕ) → a ≤ k → k - a + a ≡ k
  shifted a k h = omega arith

  -- A window of the candles, candle by candle.
  window_elim :
      (p : MtCandle → Bool) (a b k : ℕ) (item : MtCandle)
      → all p (slice a b candles) ≡ true
      → a ≤ k
      → k < b
      → get_elem? candles k ≡ some item
      → p item ≡ true
  window_elim p a b k item h low_end top found = all-get p (slice a b candles) (k - a) item h (
      get-drop a (take b candles) (k - a)
      ∙ (ap (λ n. get_elem? (take b candles) n) (shifted a k low_end)
          ∙ (get-take b candles k top ∙ found)))

  -- An index of a window, in the list.
  place_by :
      (a b i : ℕ) (item : MtCandle) (below : Bool)
      → ltb (i + a) b ≡ below
      → get_elem? (slice a b candles) i ≡ some item
      → (i + a < b) × (get_elem? candles (i + a) ≡ some item)
  place_by a b i item true h found = (
    ltb→lt (i + a) b h,
    cc (get-drop a (take b candles) i, get-take b candles (i + a) (ltb→lt (i + a) b h), found),
  )
  place_by a b i item false h found =
      absurd
        (cc (get-drop a (take b candles) i, get-take-none b candles (i + a) (ground arith), found))

  window_intro :
      (p : MtCandle → Bool) (a b : ℕ)
      → ((k : ℕ) (item : MtCandle)
          → a ≤ k
          → k < b
          → get_elem? candles k ≡ some item
          → p item ≡ true)
      → all p (slice a b candles) ≡ true
  window_intro p a b h = get-all p (slice a b candles) (λ i item found.
      let placed = place_by a b i item _ refl found in
      h (i + a) item (omega arith) placed.0 placed.1)

  abbrev above_all : MtCandle → MtCandle → Bool
  above_all pivot item = exceeds high (level high pivot) (level high item)

  -- What is asked of the candle on either side of the pivot.
  above_by :
      (index k : ℕ) (pivot item : MtCandle) (before : Bool)
      → ltb k index ≡ before
      → all (above_all pivot) (slice (index - left_bars) index candles) ≡ true
      → all (above_all pivot) (slice (index + 1) (index + right_bars + 1) candles) ≡ true
      → index ≤ k + left_bars
      → k ≤ index + right_bars
      → k ≢ index
      → get_elem? candles k ≡ some item
      → exceeds high (level high pivot) (level high item) ≡ true
  above_by index k pivot item true h left right near_left near_right other found =
      window_elim (above_all pivot) (index - left_bars) index k item left (omega arith)
        (ground arith) found
  above_by index k pivot item false h left right near_left near_right other found =
      window_elim (above_all pivot) (index + 1) (index + right_bars + 1) k item right (ground arith)
        (omega arith) found

  -- The comparison of the source is the one with every candle of the windows.
  pub is_pivot-IsPivot :
      (index : ℕ) (pivot : MtCandle)
      → get_elem? candles index ≡ some pivot
      → is_pivot high left_bars right_bars candles index pivot ≡ true
      → IsPivot index
  unfolding is_pivot
  is_pivot-IsPivot index pivot present h = record {
    pivot = pivot;
    present = present;
    above = λ k item near_left near_right other found.
        let sides = and_elim _ _ h in
        above_by index k pivot item _ refl sides.0 sides.1 near_left near_right other found;
  }

  pub IsPivot-is_pivot :
      (index : ℕ) (pivot : MtCandle)
      → left_bars ≤ index
      → get_elem? candles index ≡ some pivot
      → IsPivot index
      → is_pivot high left_bars right_bars candles index pivot ≡ true
  unfolding is_pivot
  IsPivot-is_pivot index pivot room present x =
      let same : x.pivot ≡ pivot = cc (x.present, present) in
      let over : (k : ℕ) (item : MtCandle)
          → index ≤ k + left_bars
          → k ≤ index + right_bars
          → k ≢ index
          → get_elem? candles k ≡ some item
          → above_all pivot item ≡ true =
        λ k item l r other found.
          subst (λ p. above_all p item ≡ true) same (x.above k item l r other found) in
      and_intro
        (window_intro (above_all pivot) (index - left_bars) index (λ k item low_end top found.
          over k item (omega arith) (omega arith) (λ p. absurd (omega (arith, p))) found))
        (window_intro (above_all pivot) (index + 1) (index + right_bars + 1)
          (λ k item low_end top found.
            over k item (omega arith) (omega arith) (λ p. absurd (omega (arith, p))) found))
