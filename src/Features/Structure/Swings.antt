-- ===== src/Features/Structure/Swings.antt =====
-- The latest confirmed swing, and what it means: the scan from the end returns the last index at which
-- a pivot stands.
use my_team_tradding.Features.Candles.{MtCandle}
use my_team_tradding.Features.Structure.{pivot_at, scan}
use my_team_tradding.Features.Structure.Pivots.{IsPivot, IsPivot-is_pivot, is_pivot-IsPivot}
use my_team_tradding.Prelude.{
  Bool, List, Option, arith, false, get_elem?, if◌then◌else◌, none, refl, some, subst, suc, true,
  zero, ℕ, ℕ_discrete, ◌+◌, ◌<◌, ◌≡◌, ◌≤◌,
}

module _ (high : Bool) (left_bars right_bars : ℕ) (candles : List MtCandle) where
  -- The last pivot among the indices from `left_bars` on, of which there are `n`.
  pub record IsLast (n index : ℕ) : Type 0 where
    pub room : left_bars ≤ index
    pub inside : index < left_bars + n
    pub pivotal : IsPivot high left_bars right_bars candles index
    pub last :
        (k : ℕ) → index < k → k < left_bars + n → ¬ IsPivot high left_bars right_bars candles k

  abbrev pub Scanned : ℕ → Option ℕ → Type 0
  Scanned n none =
      (k : ℕ) → left_bars ≤ k → k < left_bars + n → ¬ IsPivot high left_bars right_bars candles k
  Scanned n (some index) = IsLast n index

  IsPivot-of :
      (index : ℕ) (found : Option MtCandle)
      → get_elem? candles index ≡ found
      → pivot_at high left_bars right_bars candles index found ≡ true
      → IsPivot high left_bars right_bars candles index
  IsPivot-of index none present h = absurd (cc (h))
  IsPivot-of index (some pivot) present h =
      is_pivot-IsPivot high left_bars right_bars candles index pivot present h

  no-IsPivot_of :
      (index : ℕ) (found : Option MtCandle)
      → left_bars ≤ index
      → get_elem? candles index ≡ found
      → pivot_at high left_bars right_bars candles index found ≡ false
      → ¬ IsPivot high left_bars right_bars candles index
  no-IsPivot_of index none room absent h x = cc (absent, x.present)
  no-IsPivot_of index (some pivot) room present h x =
      cc (h, IsPivot-is_pivot high left_bars right_bars candles index pivot room present x)

  -- An index below `n + 1` is below `n`, or is the index that was just refused.
  past_by :
      (n k : ℕ)
      → ¬ IsPivot high left_bars right_bars candles (left_bars + n)
      → (k < left_bars + n → ¬ IsPivot high left_bars right_bars candles k)
      → k < left_bars + suc n
      → ¬ IsPivot high left_bars right_bars candles k
  past_by n k here below inside x = elim (ℕ_discrete k (left_bars + n)) [
    | yes same ↦ here (subst (IsPivot high left_bars right_bars candles) same x)
    | no other ↦ below (ground arith) x
  ]

  step_past :
      (n : ℕ) (rest : Option ℕ)
      → ¬ IsPivot high left_bars right_bars candles (left_bars + n)
      → Scanned n rest
      → Scanned (suc n) rest
  step_past n none here below = λ k room. past_by n k here (below k room)
  step_past n (some index) here below = record {
    room = below.room;
    inside = omega (arith, below.inside);
    pivotal = below.pivotal;
    last = λ k behind. past_by n k here (below.last k behind);
  }

  -- One turn of the scan, by what it sees.
  turn_of :
      (n : ℕ) (rest : Option ℕ) (here : Bool)
      → pivot_at high left_bars right_bars candles
          (left_bars + n)
          (get_elem? candles (left_bars + n))
        ≡ here
      → Scanned n rest
      → Scanned (suc n) (if here then some (left_bars + n) else rest)
  turn_of n rest true here below = record {
    room = omega arith;
    inside = omega arith;
    pivotal = IsPivot-of (left_bars + n) _ refl here;
    last = λ k behind inside x. absurd (omega arith);
  }
  turn_of n rest false here below =
      step_past n rest (no-IsPivot_of (left_bars + n) _ (omega arith) refl here) below

  pub scan-Scanned : (n : ℕ) → Scanned n (scan high left_bars right_bars candles n)
  unfolding scan
  scan-Scanned zero = λ k room inside x. absurd (omega arith)
  scan-Scanned (suc n) = turn_of n _ _ refl (scan-Scanned n)
