-- ===== src/Validation/Schema.antt =====
-- What `validate_batch` does with its rows.
use nyc_taxi.Base.{String, ◌≡◌, subst, Option, none, some, List, [], ◌∷◌, ◌++◌, map}
use nyc_taxi.Python.{
  null, Dict, get?, Error, type_error, ok, err, >>=-elim, ok-injective, Runtime, to_int,
}
use nyc_taxi.Trip.Deduplicator.Split.{IsMerge, done, left, right}
use nyc_taxi.Validation.{
  Pydantic, location_id_positive, is_value_error, check_location, validate_raw, sort_row,
  validate_batch,
}

abbrev pub row_of : Dict × String → Dict
row_of p = p.0

-- What `int(None)` raises.
abbrev pub int_of_null : Error
int_of_null = type_error "int() argument must be a string, a bytes-like object or a real number"

module _ (rt : Runtime) (py : Pydantic) where
  sort_row-IsMerge :
      (row : Dict) (error : Option String) (rows : List Dict) (r : List Dict × List (Dict × String))
      → IsMerge r.0 (map row_of r.1) rows
      → let s = sort_row rt py row error r in IsMerge s.0 (map row_of s.1) (row ∷ rows)
  sort_row-IsMerge row none rows (v, i) m = left m
  sort_row-IsMerge row (some e) rows (v, i) m = right m

  -- When `validate_batch` returns, the valid rows and the rejected ones, each in their order and
  -- unchanged, make up the batch.
  pub validate_batch-IsMerge :
      (rows : List Dict) (r : List Dict × List (Dict × String))
      → validate_batch rt py rows ≡ ok r
      → IsMerge r.0 (map row_of r.1) rows
  unfolding validate_batch
  validate_batch-IsMerge [] r h =
      subst (λ (s : List Dict × List (Dict × String)). IsMerge s.0 (map row_of s.1) [])
        (ok-injective h) done
  validate_batch-IsMerge (row ∷ rows) r h = >>=-elim (validate_raw rt py row) _ h λ error _ h₁.
      >>=-elim (validate_batch rt py rows) _ h₁ λ rest er h₂.
        subst (λ (s : List Dict × List (Dict × String)). IsMerge s.0 (map row_of s.1) (row ∷ rows))
          (ok-injective h₂)
          (sort_row-IsMerge row error rows rest (validate_batch-IsMerge rows rest er))

  validate_raw-null_location :
      (row : Dict)
      → get? "pickup_location_id" row ≡ some null
      → validate_raw rt py row ≡ err int_of_null
  unfolding validate_raw location_id_positive to_int is_value_error
  validate_raw-null_location row h = rw (h, check_location)

  -- A row with a null pickup location makes `validate_batch` raise TypeError as soon as the rows
  -- before it are validated: nothing of the batch is returned, neither as valid nor as rejected.
  pub validate_batch-null_location :
      (before : List Dict) (row : Dict) (rest : List Dict) (r : List Dict × List (Dict × String))
      → validate_batch rt py before ≡ ok r
      → get? "pickup_location_id" row ≡ some null
      → validate_batch rt py (before ++ row ∷ rest) ≡ err int_of_null
  unfolding validate_batch
  validate_batch-null_location [] row rest r h n = rw (validate_raw-null_location row n)
  validate_batch-null_location (b ∷ before) row rest r h n =
      >>=-elim (validate_raw rt py b) _ h λ error eb h₁.
        >>=-elim (validate_batch rt py before) _ h₁
          λ s es _. rw (eb, validate_batch-null_location before row rest s es n)
