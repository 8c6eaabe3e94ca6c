-- ===== src/Timestamp/Laws.antt =====
-- What the conversions give.
use mathlib.Core.Option
use nyc_taxi.Base.{
  String, ◌-◌, ◌%◌, ◌+◌, ℕ, sym, if◌then◌else◌, Bool-cases, ℤ, pos, negsuc, ◌+ℤ◌, ◌-ℤ◌, ◌≤ℤ◌, ◌<ℤ◌,
  ◌≡◌, refl, ap, ◌∙◌, subst, ◌⊎◌, inl, inr, Bool, true, false, Option, none, some, arith,
}
use nyc_taxi.Python.{
  Datetime, Value, null, bool, int, float, str, decimal, datetime, list, dict, instant, ok, ◌>>=◌,
  >>=-elim, ok-injective, Runtime,
}
use nyc_taxi.Timestamp.{
  format_for_clickhouse, assume_utc, to_utc, hour_micros, floor_to, truncate_to_hour, above_1e12,
  from_epoch, parse_present, parse_timestamp,
}

-- `datetime.fromtimestamp(v, tz=UTC)` returns a datetime in UTC.
abbrev pub EpochInUtc : Runtime → Type 0
EpochInUtc rt =
    (v : Value) (d : Datetime)
    → ((rt.fromtimestamp_millis v ≡ ok d) ⊎ (rt.fromtimestamp v ≡ ok d))
    → d.offset ≡ some (pos 0)

abbrev pub IsAware : Option Datetime → Type 0
IsAware none = Unit
IsAware (some d) = (o : ℤ) × (d.offset ≡ some o)

module _ (rt : Runtime) where
  epoch-IsAware :
      (v : Value) (r : Option Datetime)
      → EpochInUtc rt
      → (from_epoch rt v >>= λ d. ok (some d)) ≡ ok r
      → IsAware r
  unfolding from_epoch
  epoch-IsAware v r utc h = >>=-elim (from_epoch rt v) _ h λ d e made.
      subst IsAware (ok-injective made) (elim (Bool-cases (above_1e12 v)) [
        | inl large ↦ (pos 0, utc v d (inl (rw large at e)))
        | inr small ↦ (pos 0, utc v d (inr (rw small at e)))
      ])

  read-IsAware :
      (p : Option Datetime) (r : Option Datetime) → ok (Option.map assume_utc p) ≡ ok r → IsAware r
  unfolding assume_utc
  read-IsAware none r h = subst IsAware (ok-injective h) tt
  read-IsAware (some d) r h = subst IsAware (ok-injective h) (or_utc_there d.offset)
    where
      or_utc_there :
          (o : Option ℤ) → IsAware (some (assume_utc (record { wall = d.wall; offset = o })))
      or_utc_there none = (pos 0, refl)
      or_utc_there (some o) = (o, refl)

  parse_present-IsAware :
      (v : Value) (r : Option Datetime) → EpochInUtc rt → parse_present rt v ≡ ok r → IsAware r
  unfolding parse_present assume_utc
  parse_present-IsAware (datetime d) r utc h = read-IsAware (some d) r h
  parse_present-IsAware (bool b) r utc h = epoch-IsAware (bool b) r utc h
  parse_present-IsAware (int n) r utc h = epoch-IsAware (int n) r utc h
  parse_present-IsAware (float x) r utc h = epoch-IsAware (float x) r utc h
  parse_present-IsAware null r utc h = read-IsAware (rt.pd_timestamp null) r h
  parse_present-IsAware (str t) r utc h = read-IsAware (rt.pd_timestamp (str t)) r h
  parse_present-IsAware (decimal d) r utc h = read-IsAware (rt.pd_timestamp (decimal d)) r h
  parse_present-IsAware (list l) r utc h = read-IsAware (rt.pd_timestamp (list l)) r h
  parse_present-IsAware (dict d) r utc h = read-IsAware (rt.pd_timestamp (dict d)) r h

  tested-IsAware :
      (v : Value) (r : Option Datetime)
      → EpochInUtc rt
      → (rt.isna v >>= λ missing. if missing then ok none else parse_present rt v) ≡ ok r
      → IsAware r
  tested-IsAware v r utc h = >>=-elim (rt.isna v) _ h λ missing e made.
      elim missing
          as (λ (m : Bool). (if m then ok none else parse_present rt v) ≡ ok r → IsAware r) [
            | true ↦ λ k. subst IsAware (ok-injective k) tt
            | false ↦ λ k. parse_present-IsAware v r utc k
          ]
        made

  -- Whatever the value, a datetime that `parse_timestamp` returns has an offset from UTC.
  pub parse_timestamp-IsAware :
      (v : Value) (r : Option Datetime) → EpochInUtc rt → parse_timestamp rt v ≡ ok r → IsAware r
  unfolding parse_timestamp
  parse_timestamp-IsAware null r utc h = subst IsAware (ok-injective h) tt
  parse_timestamp-IsAware (bool x) r utc h = tested-IsAware (bool x) r utc h
  parse_timestamp-IsAware (int x) r utc h = tested-IsAware (int x) r utc h
  parse_timestamp-IsAware (float x) r utc h = tested-IsAware (float x) r utc h
  parse_timestamp-IsAware (str x) r utc h = tested-IsAware (str x) r utc h
  parse_timestamp-IsAware (decimal x) r utc h = tested-IsAware (decimal x) r utc h
  parse_timestamp-IsAware (datetime x) r utc h = tested-IsAware (datetime x) r utc h
  parse_timestamp-IsAware (list x) r utc h = tested-IsAware (list x) r utc h
  parse_timestamp-IsAware (dict x) r utc h = tested-IsAware (dict x) r utc h

abbrev hour : ℤ → ℤ
hour n = floor_to hour_micros n

hour_below : (n : ℤ) → hour n ≤ℤ n
hour_below (pos n) = ground arith
hour_below (negsuc n) = ground arith

hour_near : (n : ℤ) → n <ℤ hour n +ℤ pos hour_micros
unfolding ◌+ℤ◌
hour_near (pos n) = ground arith
hour_near (negsuc n) = ground arith

hour_again : (n : ℤ) → hour (hour n) ≡ hour n
hour_again (pos n) = ground arith
hour_again (negsuc n) =
    let k : ℕ = n + 3_600_000_000 - n % 3_600_000_000 - 1 in
    let e : hour (negsuc n) ≡ negsuc k = ground arith in
    let last : k % 3_600_000_000 ≡ 3_599_999_999 = omega arith in
    let f : hour (negsuc k) ≡ negsuc k = ground (arith, last) in ap hour e ∙ f ∙ sym e

minus_zero : (n : ℤ) → n -ℤ pos 0 ≡ n
unfolding ◌-ℤ◌
minus_zero (pos n) = ground arith
minus_zero (negsuc n) = ground arith

-- `truncate_to_hour` gives a time in UTC that is the given instant or less than an hour before it,
-- and truncating it again changes nothing.
pub truncate_to_hour_bounds :
    (d : Datetime)
    → ((truncate_to_hour d).offset ≡ some (pos 0))
      × ((truncate_to_hour d).wall ≤ℤ instant d)
      × (instant d <ℤ (truncate_to_hour d).wall +ℤ pos hour_micros)
      × (truncate_to_hour (truncate_to_hour d) ≡ truncate_to_hour d)
unfolding truncate_to_hour to_utc instant
truncate_to_hour_bounds d = (
  refl,
  hour_below (instant d),
  hour_near (instant d),
  ap (λ w. record { wall = w; offset = some (pos 0) })
      (ap hour (minus_zero (hour (instant d))) ∙ hour_again (instant d)),
)

-- Two datetimes of the same instant have the same text, whatever their offsets.
pub format_for_clickhouse-instant :
    (strftime : Datetime → String) (d e : Datetime)
    → instant d ≡ instant e
    → format_for_clickhouse strftime d ≡ format_for_clickhouse strftime e
unfolding format_for_clickhouse
format_for_clickhouse-instant strftime d e same =
    ap (λ w. strftime (record { wall = w; offset = some (pos 0) })) same
