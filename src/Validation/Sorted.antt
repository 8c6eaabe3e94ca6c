-- ===== src/Validation/Sorted.antt =====
-- Which rows `validate_batch` lets through, and which it rejects.
use nyc_taxi.Base.{
  if◌then◌else◌, Bool-cases, ℤ, pos, leb_ℤ, String, ◌≡◌, refl, sym, subst, ◌⊎◌, inl, inr, true,
  false, Option, none, some, List, [], ◌∷◌, map, All, str_eq,
}
use nyc_taxi.Python.{
  Datetime, Value, Dict, get?, join, ok, >>=-elim, ok-injective, Result-cases, Runtime, to_int,
}
use nyc_taxi.Trip.Deduplicator.Split.{IsMerge}
use nyc_taxi.Validation.{
  Checked, failed, Pydantic, is_value_error, location_id_positive, checked, check_location,
  dropoff_first, dropoff_after_pickup, after_fields, validate_raw, sort_row, validate_batch,
}
use nyc_taxi.Validation.Schema.{row_of, validate_batch-IsMerge}

-- A ValueError of a validator of a field makes `model_validate` raise ValidationError.
abbrev pub ReportsFailures : Pydantic → Type 0
ReportsFailures py =
    (row : Dict) (pickup dropoff : Checked) (message : String)
    → (pickup ≡ failed message) ⊎ (dropoff ≡ failed message)
    → (errors : List String) × (py.validate_fields row pickup dropoff ≡ inl errors)

module _ (rt : Runtime) (py : Pydantic) where
  -- The location id of the row, if it has one, reads as a number above zero.
  abbrev pub HasPositive : String → Dict → Type 0
  HasPositive key row =
      (v : Value)
      → get? key row ≡ some v
      → (n : ℤ) × (to_int rt v ≡ ok n) × (leb_ℤ n (pos 0) ≡ false)

  -- The row has a pickup and a dropoff that pydantic parses, the dropoff not before the pickup.
  pub record IsAccepted (row : Dict) : Type 0 where
    pub pickup_positive : HasPositive "pickup_location_id" row
    pub dropoff_positive : HasPositive "dropoff_location_id" row
    pub pickup : Checked
    pub dropoff : Checked
    pub pickup_checked : check_location rt py "pickup_location_id" row ≡ ok pickup
    pub dropoff_checked : check_location rt py "dropoff_location_id" row ≡ ok dropoff
    pub times : Datetime × Datetime
    pub parsed : py.validate_fields row pickup dropoff ≡ inr times
    pub in_order : dropoff_first rt py times.0 times.1 ≡ ok false

  -- Pydantic has errors on the fields of the row, or its dropoff is before its pickup.
  pub record IsRejected (rejected : Dict × String) : Type 0 where
    pub pickup : Checked
    pub dropoff : Checked
    pub pickup_checked : check_location rt py "pickup_location_id" rejected.0 ≡ ok pickup
    pub dropoff_checked : check_location rt py "dropoff_location_id" rejected.0 ≡ ok dropoff
    pub reason :
        ((errors : List String) × (py.validate_fields rejected.0 pickup dropoff ≡ inl errors)
          × (rejected.1
              ≡ (if str_eq (join "; " errors) "" then "Validation failed" else join "; " errors)))
        ⊎ ((times : Datetime × Datetime) × (py.validate_fields rejected.0 pickup dropoff
              ≡ inr times)
            × (dropoff_first rt py times.0 times.1 ≡ ok true))

  pub record IsSorted (rows : List Dict) (r : List Dict × List (Dict × String)) : Type 0 where
    pub merged : IsMerge r.0 (map row_of r.1) rows
    pub accepted : All IsAccepted r.0
    pub rejected : All IsRejected r.1

  -- What a validator that did not fail says of its value.
  checked-passed :
      (v : Value) (c : Checked)
      → checked rt py (location_id_positive rt py v) ≡ ok c
      → ((message : String) → ¬ (c ≡ failed message))
      → (n : ℤ) × (to_int rt v ≡ ok n) × (leb_ℤ n (pos 0) ≡ false)
  unfolding location_id_positive
  checked-passed v c h sound = elim (Result-cases (location_id_positive rt py v)) [
    | inl (n, e) ↦ >>=-elim (to_int rt v) _ e λ val ev h₁. elim (Bool-cases (leb_ℤ val (pos 0))) [
      | inl low ↦ absurd (cc (rw low at h₁))
      | inr above ↦ (val, ev, above)
    ]
    | inr (x, e) ↦ elim (Bool-cases (is_value_error x)) [
      | inl reported ↦ absurd (sound _ (sym (ok-injective (rw (e, reported) at h))))
      | inr escapes ↦ absurd (cc (rw (e, escapes) at h))
    ]
  ]

  check_location-HasPositive :
      (key : String) (row : Dict) (c : Checked)
      → check_location rt py key row ≡ ok c
      → ((message : String) → ¬ (c ≡ failed message))
      → HasPositive key row
  unfolding check_location
  check_location-HasPositive key row c h sound v there =
      checked-passed v c (rw (there, check_location) at h) sound

  module _ (reports : ReportsFailures py) where
    parsed_sound :
        (row : Dict) (a b : Checked) (times : Datetime × Datetime)
        → py.validate_fields row a b ≡ inr times
        → (message : String) → ¬ ((a ≡ failed message) ⊎ (b ≡ failed message))
    parsed_sound row a b times parsed message bad =
        let (errors, found) = reports row a b message bad in absurd (cc (parsed, found))

    validate_raw-IsAccepted : (row : Dict) → validate_raw rt py row ≡ ok none → IsAccepted row
    unfolding validate_raw dropoff_after_pickup
    validate_raw-IsAccepted row h =
        >>=-elim (check_location rt py "pickup_location_id" row) _ h λ a ea h₁.
          >>=-elim (check_location rt py "dropoff_location_id" row) _ h₁
            λ b eb h₂. judged a b ea eb (py.validate_fields row a b) refl h₂
      where
        judged :
            (a b : Checked)
            → check_location rt py "pickup_location_id" row ≡ ok a
            → check_location rt py "dropoff_location_id" row ≡ ok b
            → (f : List String ⊎ (Datetime × Datetime)) → py.validate_fields row a b ≡ f
            → after_fields rt py f ≡ ok none
            → IsAccepted row
        judged a b ea eb (inl errors) ef k = absurd (cc (k))
        judged a b ea eb (inr (p, d)) ef k = >>=-elim (dropoff_first rt py p d) _ k λ wrong ew k₁.
            elim (Bool-cases wrong) [
              | inl first ↦ absurd (cc (rw first at k₁))
              | inr fine ↦ record {
                pickup_positive =
                    check_location-HasPositive "pickup_location_id" row a ea
                      (λ m e. parsed_sound row a b (p, d) ef m (inl e));
                dropoff_positive =
                    check_location-HasPositive "dropoff_location_id" row b eb
                      (λ m e. parsed_sound row a b (p, d) ef m (inr e));
                pickup = a;
                dropoff = b;
                pickup_checked = ea;
                dropoff_checked = eb;
                times = (p, d);
                parsed = ef;
                in_order = rw fine at ew;
              }
            ]

    abbrev shown_error : String → String
    shown_error error = if str_eq error "" then "Validation failed" else error

    validate_raw-IsRejected :
        (row : Dict) (error : String)
        → validate_raw rt py row ≡ ok (some error)
        → IsRejected (row, shown_error error)
    unfolding validate_raw dropoff_after_pickup
    validate_raw-IsRejected row error h =
        >>=-elim (check_location rt py "pickup_location_id" row) _ h λ a ea h₁.
          >>=-elim (check_location rt py "dropoff_location_id" row) _ h₁
            λ b eb h₂. judged a b ea eb (py.validate_fields row a b) refl h₂
      where
        judged :
            (a b : Checked)
            → check_location rt py "pickup_location_id" row ≡ ok a
            → check_location rt py "dropoff_location_id" row ≡ ok b
            → (f : List String ⊎ (Datetime × Datetime)) → py.validate_fields row a b ≡ f
            → after_fields rt py f ≡ ok (some error)
            → IsRejected (row, shown_error error)
        judged a b ea eb (inl errors) ef k = record {
          pickup = a;
          dropoff = b;
          pickup_checked = ea;
          dropoff_checked = eb;
          reason = let same : join "; " errors ≡ error = cc (k) in inl (errors, ef, rw same refl);
        }
        judged a b ea eb (inr (p, d)) ef k = >>=-elim (dropoff_first rt py p d) _ k λ wrong ew k₁.
            elim (Bool-cases wrong) [
              | inl first ↦ record {
                pickup = a;
                dropoff = b;
                pickup_checked = ea;
                dropoff_checked = eb;
                reason = inr ((p, d), ef, rw first at ew);
              }
              | inr fine ↦ absurd (cc (rw fine at k₁))
            ]

    sort_row-IsAccepted :
        (row : Dict) (error : Option String) (s : List Dict × List (Dict × String))
        → validate_raw rt py row ≡ ok error
        → All IsAccepted s.0
        → All IsAccepted (sort_row rt py row error s).0
    sort_row-IsAccepted row none (v, i) h k = (validate_raw-IsAccepted row h, k)
    sort_row-IsAccepted row (some e) (v, i) h k = k

    sort_row-IsRejected :
        (row : Dict) (error : Option String) (s : List Dict × List (Dict × String))
        → validate_raw rt py row ≡ ok error
        → All IsRejected s.1
        → All IsRejected (sort_row rt py row error s).1
    sort_row-IsRejected row none (v, i) h k = k
    sort_row-IsRejected row (some e) (v, i) h k = (validate_raw-IsRejected row e h, k)

    abbrev AllJudged : List Dict × List (Dict × String) → Type 0
    AllJudged r = All IsAccepted r.0 × All IsRejected r.1

    validate_batch-AllJudged :
        (rows : List Dict) (r : List Dict × List (Dict × String))
        → validate_batch rt py rows ≡ ok r
        → AllJudged r
    unfolding validate_batch
    validate_batch-AllJudged [] r h = subst AllJudged (ok-injective h) (tt, tt)
    validate_batch-AllJudged (row ∷ rows) r h = >>=-elim (validate_raw rt py row) _ h λ error ev h₁.
        >>=-elim (validate_batch rt py rows) _ h₁ λ rest er h₂.
          let (accepted, rejected) = validate_batch-AllJudged rows rest er in
          subst AllJudged (ok-injective h₂) (
            sort_row-IsAccepted row error rest ev accepted,
            sort_row-IsRejected row error rest ev rejected,
          )

    -- If a ValueError of a validator makes pydantic reject the row: when `validate_batch` returns, the
    -- valid rows and the rejected ones, each in their order and unchanged, make up the batch. Each
    -- location id that a valid row has reads as a number above zero, and its dropoff is not before
    -- its pickup; pydantic has errors on the fields of a rejected row, which it is rejected with, or
    -- its dropoff is before its pickup.
    pub validate_batch-IsSorted :
        (rows : List Dict) (r : List Dict × List (Dict × String))
        → validate_batch rt py rows ≡ ok r
        → IsSorted rows r
    validate_batch-IsSorted rows r h =
        let (accepted, rejected) = validate_batch-AllJudged rows r h in
        record {
          merged = validate_batch-IsMerge rt py rows r h;
          accepted = accepted;
          rejected = rejected;
        }
