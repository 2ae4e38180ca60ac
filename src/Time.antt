-- ===== src/Time.antt =====
-- `datetime` values. An aware one is the number of microseconds since the first instant in UTC, so
-- `astimezone(UTC)` keeps the number; a naive one has no such number.
use my_team_tradding.Prelude.{ℕ}
use my_team_tradding.Prelude.Result.{Result, ok, err}

pub data Datetime : Type 0 where
  aware : ℕ → Datetime
  naive : ℕ → Datetime

-- The guard of the timestamp validators: a naive value raises, an aware one is normalised to UTC.
unfoldable pub normalize_utc {ℓ} : {E : Type ℓ} → E → Datetime → Result E ℕ
normalize_utc e (aware t) = ok t
normalize_utc e (naive t) = err e
