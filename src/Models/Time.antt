-- ===== src/Models/Time.antt =====
-- Python's `datetime`, in microseconds of UTC, with or without a time zone. A row that SQLite gives
-- back has lost its zone, which is why the services put it back before they compare.
use identity_access_service.Base.{ℕ, ◌*◌}

pub data Datetime : Type 0 where
  naive : ℕ → Datetime
  aware : ℕ → Datetime

-- `if value.tzinfo is None: value = value.replace(tzinfo=UTC)`
abbrev pub as_utc : Datetime → Datetime
as_utc (naive t) = aware t
as_utc (aware t) = aware t

abbrev pub instant : Datetime → ℕ
instant (naive t) = t
instant (aware t) = t

-- `timedelta(minutes=n)` and `timedelta(days=n)`
abbrev pub minutes : ℕ → ℕ
minutes n = n * 60_000_000

abbrev pub days : ℕ → ℕ
days n = n * 86_400_000_000
