-- ===== src/Domain/Time.antt =====
-- Python's datetime. An instant is a number of microseconds since the epoch, in UTC. A datetime
-- carries a zone (`aware`, kept as its instant) or carries none (`naive`, kept as its clock reading).
use starkbank_backend_challe.Base.{ℕ, ◌*◌}

-- `timedelta(seconds=…)` and `timedelta(hours=…)`
abbrev pub seconds : ℕ → ℕ
seconds n = n * 1000000

abbrev pub hours : ℕ → ℕ
hours n = n * 3600000000

pub data Datetime : Type 0 where
  naive : ℕ → Datetime
  aware : ℕ → Datetime

-- `value.replace(tzinfo=UTC) if value.tzinfo is None else value.astimezone(UTC)`, as an instant
unfoldable pub as_utc : Datetime → ℕ
as_utc (naive reading) = reading
as_utc (aware instant) = instant
