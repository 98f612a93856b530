-- ===== src/Clock.antt =====
-- `_as_utc_aware` of app/services/auth.py and app/services/logs.py: a naive time is read as UTC, an
-- aware one is converted. `none` is the `OverflowError` of a time outside the years 1 to 9999.
use loglens_api.Base.{ℕ, ◌+◌, ◌-◌, ◌≡◌, Option, none, some, arith, ltb, if◌then◌else◌}
use loglens_api.Models.{Instant, Datetime, Offset, east, west}

-- The last microsecond of year 9999.
abbrev max_instant : ℕ
max_instant = 315537897599999999

abbrev shift : ℕ → Option Offset → Option Instant
shift wall none = some wall
shift wall (some (east k)) = if ltb wall k then none else some (wall - k)
shift wall (some (west k)) = if ltb max_instant (wall + k) then none else some (wall + k)

unfoldable pub as_utc_aware : Datetime → Option Instant
as_utc_aware value = shift value.wall value.tzinfo

-- A time that is aware and in UTC, as `datetime.now(UTC)` and the database give it.
abbrev pub aware : Instant → Datetime
aware i = record { wall = i; tzinfo = some (east 0) }

pub as_utc_aware-aware : (i : Instant) → as_utc_aware (aware i) ≡ some i
unfolding as_utc_aware
as_utc_aware-aware i = ground arith
