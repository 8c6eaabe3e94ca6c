-- ===== src/Validation.antt =====
-- etl/application/services/validation_service.py: the schema check in front of the domain pipeline.
-- Pydantic's own work is a parameter; the validators that the program writes are modelled.
pub mod Schema
pub mod Sorted
use nyc_taxi.Base.{
  if◌then◌else◌, ℤ, pos, ltb_ℤ, leb_ℤ, String, ◌⊎◌, inl, inr, Bool, true, false, Option, none, some,
  List, [], ◌∷◌, str_eq,
}
use nyc_taxi.Python.{
  Datetime, Value, int, datetime, Dict, get?, concat, join, Error, value_error, type_error, Result,
  ok, err, ◌>>=◌, ◌>>◌, raise_if, Runtime, to_int, error_message,
}
use nyc_taxi.Trip.Model.{subtract}

-- What a validator of a field did: it returned, or raised what pydantic turns into an error text.
pub data Checked : Type 0 where
  absent : Checked
  passed : ℤ → Checked
  failed : String → Checked

-- `RawTripSchema.model_validate` around the validators: given what they did on the two location
-- ids, the texts `loc: msg` of the errors, or the two parsed datetimes.
pub record Pydantic : Type 0 where
  pub validate_fields : Dict → Checked → Checked → List String ⊎ (Datetime × Datetime)

-- Exceptions that pydantic turns into a ValidationError; others go on to the caller.
unfoldable pub is_value_error : Error → Bool
is_value_error (value_error m) = true
is_value_error e = false

module _ (rt : Runtime) (py : Pydantic) where
  -- `location_id_positive`
  unfoldable pub location_id_positive : Value → Result ℤ
  location_id_positive v = do
    val ← to_int rt v
    raise_if (leb_ℤ val (pos 0))
        (value_error (concat ("location_id must be positive, got " ∷ rt.text_of (int val) ∷ [])))
    ok val

  abbrev pub checked : Result ℤ → Result Checked
  checked (ok n) = ok (passed n)
  checked (err e) = if is_value_error e then ok (failed (error_message rt e)) else err e

  -- The validator runs on a key that is there.
  unfoldable pub check_location : String → Dict → Result Checked
  unfolding location_id_positive is_value_error get?
  check_location key row = elim (get? key row) [
    | none ↦ ok absent
    | some v ↦ checked (location_id_positive v)
  ]

  -- `self.dropoff_datetime < self.pickup_datetime`: it raises where subtraction would.
  unfoldable pub dropoff_first : Datetime → Datetime → Result Bool
  unfolding subtract
  dropoff_first pickup dropoff = compared (subtract dropoff pickup)
    where
      compared : Result ℤ → Result Bool
      compared (ok delta) = ok (ltb_ℤ delta (pos 0))
      compared (err e) = err (type_error "can't compare offset-naive and offset-aware datetimes")

  -- `dropoff_after_pickup`; its error has an empty location.
  unfoldable pub dropoff_after_pickup : Datetime → Datetime → Result (Option String)
  unfolding dropoff_first
  dropoff_after_pickup pickup dropoff = do
    wrong ← dropoff_first pickup dropoff
    ok (
        if wrong
        then some (
            concat (
              ": Value error, dropoff_datetime ("
              ∷ rt.text_of (datetime dropoff)
              ∷ ") must be after pickup_datetime ("
              ∷ rt.text_of (datetime pickup)
              ∷ ")"
              ∷ []))
        else none)

  abbrev pub after_fields : List String ⊎ (Datetime × Datetime) → Result (Option String)
  after_fields (inl errors) = ok (some (join "; " errors))
  after_fields (inr (pickup, dropoff)) = dropoff_after_pickup pickup dropoff

  -- `validate_raw`: `none` for a valid row, and the summary of its errors otherwise.
  unfoldable pub validate_raw : Dict → Result (Option String)
  unfolding check_location dropoff_after_pickup
  validate_raw row = do
    pickup ← check_location "pickup_location_id" row
    dropoff ← check_location "dropoff_location_id" row
    after_fields (py.validate_fields row pickup dropoff)

  abbrev pub sort_row :
      Dict → Option String → List Dict × List (Dict × String) → List Dict × List (Dict × String)
  sort_row row none (valid, invalid) = (row ∷ valid, invalid)
  sort_row row (some error) (valid, invalid) =
      (valid, (row, if str_eq error "" then "Validation failed" else error) ∷ invalid)

  -- `validate_batch`
  unfoldable pub validate_batch : List Dict → Result (List Dict × List (Dict × String))
  validate_batch [] = ok ([], [])
  validate_batch (row ∷ rows) = do
    error ← validate_raw row
    rest ← validate_batch rows
    ok (sort_row row error rest)
