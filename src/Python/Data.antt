-- ===== src/Python/Data.antt =====
-- The Python values that rows carry (etl/utils/json.py, etl/domain/trip/models.py: JSONValue,
-- RawValue), with the datetime and Decimal objects that ParquetReader and the pipeline put in.
use nyc_taxi.Base.{
  ℕ, ◌+◌, ◌*◌, ◌/◌, ◌^◌, String, Bool, true, false, ◌&&◌, Option, none, some, ℤ, pos, negsuc, sub_ℕ,
  ltb, str_eq, if◌then◌else◌, ◌-ℤ◌,
}

-- An IEEE double: `finite s m e` is (-1)^s * m * 2^e, so both zeros are there.
pub data Float : Type 0 where
  nan : Float
  infinity : Bool → Float
  finite : Bool → ℕ → ℤ → Float

-- A decimal.Decimal, as its `as_tuple()`: (-1)^s * m * 10^e.
pub data Decimal : Type 0 where
  nan : Decimal
  infinity : Bool → Decimal
  finite : Bool → ℕ → ℤ → Decimal

-- A datetime.datetime: the wall clock in microseconds since 1970-01-01 00:00, and `tzinfo` as an
-- offset from UTC in microseconds; `none` is a naive datetime.
pub record Datetime : Type 0 where
  pub wall : ℤ
  pub offset : Option ℤ

mutual
  pub data Value : Type 0 where
    null : Value
    bool : Bool → Value
    int : ℤ → Value
    float : Float → Value
    str : String → Value
    decimal : Decimal → Value
    datetime : Datetime → Value
    list : Items → Value
    dict : Dict → Value

  pub data Items : Type 0 where
    nil : Items
    cons : Value → Items → Items

  -- A dict with string keys, in insertion order.
  pub data Dict : Type 0 where
    empty : Dict
    entry : String → Value → Dict → Dict

-- `d.get(k)`, where a missing key is `none`.
unfoldable pub get? : String → Dict → Option Value
get? k empty = none
get? k (entry j v d) = if str_eq j k then some v else get? k d

abbrev pub or_default : Value → Option Value → Value
or_default v none = v
or_default v (some w) = w

-- `d.get(k, default)`
unfoldable pub get_or : String → Value → Dict → Value
unfolding get?
get_or k v d = or_default v (get? k d)

-- `d[k] = v`: a key that is there keeps its place.
unfoldable pub set : String → Value → Dict → Dict
set k v empty = entry k v empty
set k v (entry j w d) = if str_eq j k then entry k v d else entry j w (set k v d)

-- `x < 0` on a float: never for nan, and not for -0.0.
unfoldable pub float_negative : Float → Bool
float_negative nan = false
float_negative (infinity s) = s
float_negative (finite s m e) = s && ltb 0 m

-- The sign of a Decimal; comparing a NaN by `<` raises InvalidOperation, which is `none`.
unfoldable pub decimal_negative : Decimal → Option Bool
decimal_negative nan = none
decimal_negative (infinity s) = some s
decimal_negative (finite s m e) = some (s && ltb 0 m)

abbrev pub scaled : ℕ → ℕ → ℤ → ℕ
scaled base m (pos k) = m * base ^ k
scaled base m (negsuc k) = m / base ^ (k + 1)

abbrev pub signed : Bool → ℕ → ℤ
signed true n = sub_ℕ 0 n
signed false n = pos n

-- `int(x)` on a finite float drops the fraction.
unfoldable pub truncated : Bool → ℕ → ℤ → ℤ
truncated s m e = signed s (scaled 2 m e)

-- Whether `bool(v)` holds.
unfoldable pub truthy : Value → Bool
truthy null = false
truthy (bool b) = b
truthy (int (pos n)) = ltb 0 n
truthy (int (negsuc n)) = true
truthy (float (Float.finite s m e)) = ltb 0 m
truthy (float x) = true
truthy (str s) = if str_eq s "" then false else true
truthy (decimal (Decimal.finite s m e)) = ltb 0 m
truthy (decimal d) = true
truthy (datetime d) = true
truthy (list nil) = false
truthy (list (cons v vs)) = true
truthy (dict empty) = false
truthy (dict (entry k v d)) = true

-- The instant of a datetime in microseconds since the epoch, a naive one read as UTC.
unfoldable pub instant : Datetime → ℤ
instant d = elim d.offset [ none ↦ d.wall | some o ↦ d.wall -ℤ o ]
