-- ===== src/Witnesses/StorageLaws.antt =====
-- The consumer with its repository: on a trip that can be held, and on one with a location id of 70000.
use nyc_taxi.Pipeline.Waiting.{Stores, wide_location-Waits}
use nyc_taxi.Consumer.Restarts.{Group, not_committed, process, lived, reborn, unborn, Lives}
use nyc_taxi.Timestamp.{parse_timestamp, parse_present, assume_utc}
use nyc_taxi.Trip.Model.{to_dict}
use mathlib.Core.List.{mem-cons_self, Permᴰ, Mem}
use mathlib.Core.List.Permᴰ
use nyc_taxi.Base.{
  sym, subst, ◌++◌, some, ◌≡◌, All, Bool-cases, arith, ltb, if◌then◌else◌, pos, negsuc, ◌^◌, String,
  refl, inl, inr, Bool, true, false, ◌&&◌, List, [], ◌∷◌,
}
use nyc_taxi.Python.{
  set, get_or, get?, to_int, to_float, dict, int, Value, null, int, Dict, get_or, other, ok, err,
}
use nyc_taxi.Json.{loads}
use nyc_taxi.Samples.{rt, row, consumer}
use nyc_taxi.Samples.Document.{document}
use nyc_taxi.ClickHouse.{
  insert, coerce_rows, coerce_row, coerce_fields, float_or_zero, datetime_or_null, int_or_zero,
  save_batch_from_dicts, ArrowType, uint, Driver, insert,
}
use nyc_taxi.Consumer.{
  turn, receive, should_flush, flush_and_yield, flush, flush_pending, persist, commit_offsets,
  message, Ports, started, none_if_undecodable, running, deserialize, consume,
}
use nyc_taxi.Consumer.Endings.{Brings, AllPersisted}
use nyc_taxi.Pipeline.Storage.{InRange, RefusesOverflow, storing}
use nyc_taxi.Pipeline.Stored.{IsTripRow, consume-storing}
use nyc_taxi.Witnesses.FlowLaws.{written_trip, driver, as_it_is, written_trip-IsStorable}
use nyc_taxi.Witnesses.ArrivalLaws.{trip_document, two_turns}

abbrev storing_consumer : Ports
storing_consumer = record (consumer false) {
  json = document trip_document;
  insert = storing rt (λ n. driver);
}

line_carries_trip : Brings storing_consumer (IsTripRow rt) (message "line")
unfolding deserialize loads none_if_undecodable
line_carries_trip = ((written_trip, refl, written_trip-IsStorable), tt)

consume-storing_example :
    AllPersisted storing_consumer (consume storing_consumer two_turns (running, started 0))
consume-storing_example =
    consume-storing rt storing_consumer (λ n. driver) as_it_is 0 two_turns refl (λ n. refl)
      (λ n rows fit. refl) (λ n. inr (other "NetworkError" "refused", refl, refl, inl ([], refl)))
      (line_carries_trip, (tt, tt))

-- A driver that looks at the width of every integer.
abbrev in_range : ArrowType → Value → Bool
in_range (uint bits) (int (pos n)) = ltb n (2 ^ bits)
in_range (uint bits) (int (negsuc n)) = false
in_range t v = true

abbrev row_in_range : List (String × ArrowType) → Dict → Bool
row_in_range [] _ = true
row_in_range (f ∷ fs) row = in_range f.1 (get_or f.0 null row) && row_in_range fs row

abbrev rows_in_range : List (String × ArrowType) → List Dict → Bool
rows_in_range schema [] = true
rows_in_range schema (row ∷ rows) = row_in_range schema row && rows_in_range schema rows

abbrev strict_driver : Driver
strict_driver = record driver {
  from_pylist = λ schema rows.
      if rows_in_range schema rows
      then ok []
      else err (other "ArrowInvalid" "Value 70000 too large to fit in C integer type");
}

in_range-InRange : (t : ArrowType) (v : Value) → in_range t v ≡ true → InRange t v
in_range-InRange (uint bits) (int (pos n)) h = ground (arith, h)
in_range-InRange (uint bits) (int (negsuc n)) h = cc
in_range-InRange t v h = ground (arith, h)

row_in_range-InRange :
    (fs : List (String × ArrowType)) (d : Dict)
    → row_in_range fs d ≡ true
    → All (λ f. InRange f.1 (get_or f.0 null d)) fs
row_in_range-InRange [] d h = tt
row_in_range-InRange (f ∷ fs) d h = (
  in_range-InRange f.1 (get_or f.0 null d) (ground (arith, h)),
  row_in_range-InRange fs d (ground (arith, h)),
)

rows_in_range-InRange :
    (schema : List (String × ArrowType)) (rows : List Dict)
    → rows_in_range schema rows ≡ true
    → All (λ d. All (λ f. InRange f.1 (get_or f.0 null d)) schema) rows
rows_in_range-InRange schema [] h = tt
rows_in_range-InRange schema (d ∷ rows) h = (
  row_in_range-InRange schema d (ground (arith, h)),
  rows_in_range-InRange schema rows (ground (arith, h)),
)

strict_driver-RefusesOverflow : RefusesOverflow strict_driver
strict_driver-RefusesOverflow schema rows table h = elim (Bool-cases (rows_in_range schema rows)) [
  | inl good ↦ rows_in_range-InRange schema rows good
  | inr bad ↦ absurd (cc (rw bad at h))
]

abbrev far_trip : Dict
far_trip = set "pickup_location_id" (int (pos 70_000)) (to_dict rt written_trip)

abbrev strict_consumer : Ports
strict_consumer = record (consumer false) {
  json = document (dict far_trip);
  insert = storing rt (λ n. strict_driver);
}

far_process :
    let s = process strict_consumer strict_consumer.insert strict_consumer.commit 0 two_turns in
    (s.received ≡ "line" ∷ []) × (s.inserted ≡ []) × (s.requested ≡ true)
unfolding consume turn receive deserialize loads none_if_undecodable should_flush flush_and_yield
    flush flush_pending persist commit_offsets storing save_batch_from_dicts insert coerce_rows
    coerce_row coerce_fields float_or_zero datetime_or_null int_or_zero to_dict set get_or get?
    parse_timestamp parse_present assume_utc to_int to_float
far_process = (refl, refl, refl)

carries_far_trip : deserialize strict_consumer "line" ≡ ok (some far_trip)
unfolding deserialize loads none_if_undecodable
carries_far_trip = refl

at_far_location : get_or "pickup_location_id" null far_trip ≡ int (pos 70_000)
unfolding get_or get? set to_dict
at_far_location = refl

abbrev at_first : Group
at_first = record { waiting = "line" ∷ []; table = [] }

abbrev at_last : Group
at_last =
    let s = process strict_consumer strict_consumer.insert strict_consumer.commit 0 two_turns in
    record { waiting = not_committed s ++ []; table = [] ++ s.inserted }

far_life : Lives strict_consumer (Stores rt strict_consumer) at_first at_last
far_life = reborn unborn (
    lived strict_consumer.insert strict_consumer.commit 0 two_turns []
      ((λ n. strict_driver), (λ n. strict_driver-RefusesOverflow), refl)
      (subst (λ l. Permᴰ (l ++ []) ("line" ∷ [])) (sym far_process.0) (Permᴰ.refl ("line" ∷ [])))
      refl refl)

wide_location-Waits_example : Mem "line" at_last.waiting
wide_location-Waits_example =
    wide_location-Waits rt strict_consumer "line" far_trip 70_000 carries_far_trip at_far_location
      (omega arith) far_life mem-cons_self
