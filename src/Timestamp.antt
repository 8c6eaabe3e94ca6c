-- ===== src/Timestamp.antt =====
-- etl/utils/datetime.py: the reading of timestamps and the conversions to UTC.
pub mod Laws
use mathlib.Core.Option
use nyc_taxi.Base.{
  ltb, if◌then◌else◌, ℤ, pos, negsuc, sub_ℕ, ltb_ℤ, ℕ, ◌+◌, ◌-◌, ◌*◌, ◌%◌, ◌^◌, String, Bool, false,
  ◌&&◌, not, Option, none, some, [], ◌∷◌,
}
use nyc_taxi.Python.{
  ◌>>=◌, infinity, finite, Datetime, Value, null, bool, int, float, datetime, instant, concat,
  value_error, Result, ok, or_raise, Runtime,
}

-- `dt if dt.tzinfo else dt.replace(tzinfo=UTC)`
unfoldable pub assume_utc : Datetime → Datetime
assume_utc d = record d { offset = some (or_utc d.offset) }
  where
    or_utc : Option ℤ → ℤ
    or_utc none = pos 0
    or_utc (some o) = o

-- Offset-aware datetimes are converted, naive ones are taken to be UTC.
unfoldable pub to_utc : Datetime → Datetime
unfolding instant
to_utc d = record { wall = instant d; offset = some (pos 0) }

abbrev pub day_micros : ℕ
day_micros = 86_400_000_000

abbrev pub hour_micros : ℕ
hour_micros = 3_600_000_000

-- The largest multiple of `unit` that is at most `n`.
abbrev pub floor_to : ℕ → ℤ → ℤ
floor_to unit (pos n) = pos (n - n % unit)
floor_to unit (negsuc n) = sub_ℕ 0 (n + unit - n % unit)

-- `utc.replace(minute=0, second=0, microsecond=0)`
unfoldable pub truncate_to_hour : Datetime → Datetime
unfolding to_utc
truncate_to_hour dt = let utc = to_utc dt in record utc { wall = floor_to hour_micros utc.wall }

unfoldable pub truncate_to_day : Datetime → Datetime
unfolding to_utc
truncate_to_day dt = let utc = to_utc dt in record utc { wall = floor_to day_micros utc.wall }

-- `format_for_clickhouse`; the strftime of a datetime in UTC, to the second, is given.
unfoldable pub format_for_clickhouse : (Datetime → String) → Datetime → String
unfolding to_utc
format_for_clickhouse strftime dt = strftime (to_utc dt)

-- `value > 1e12`
unfoldable pub above_1e12 : Value → Bool
above_1e12 (int n) = ltb_ℤ (pos 1_000_000_000_000) n
above_1e12 (float (infinity s)) = not s
above_1e12 (float (finite s m (pos k))) = not s && ltb 1_000_000_000_000 (m * 2 ^ k)
above_1e12 (float (finite s m (negsuc k))) = not s && ltb (1_000_000_000_000 * 2 ^ (k + 1)) m
above_1e12 v = false

module _ (rt : Runtime) where
  -- `_from_epoch`
  unfoldable pub from_epoch : Value → Result Datetime
  unfolding above_1e12
  from_epoch v = if above_1e12 v then rt.fromtimestamp_millis v else rt.fromtimestamp v

  -- The branches of `parse_timestamp` behind its tests for a missing value.
  unfoldable pub parse_present : Value → Result (Option Datetime)
  unfolding assume_utc
  parse_present (datetime d) = ok (some (assume_utc d))
  parse_present (bool b) = do d ← from_epoch (bool b); ok (some d)
  parse_present (int n) = do d ← from_epoch (int n); ok (some d)
  parse_present (float x) = do d ← from_epoch (float x); ok (some d)
  parse_present v = ok (Option.map assume_utc (rt.pd_timestamp v))

  unfoldable pub parse_timestamp : Value → Result (Option Datetime)
  unfolding parse_present
  parse_timestamp null = ok none
  parse_timestamp v = do missing ← rt.isna v; if missing then ok none else parse_present v

  unfoldable pub parse_timestamp_strict : Value → String → Result Datetime
  parse_timestamp_strict v field_name = do
    parsed ← parse_timestamp v
    or_raise
        (value_error (
          concat
            ("Cannot parse '" ∷ field_name ∷ "' value '" ∷ rt.text_of v ∷ "' as a datetime." ∷ [])))
        parsed
