-- ===== src/Replay/Record.antt =====
-- A record that is written to disk and read back by the replay.
use nyc_taxi.Base.{arith, ℕ, String, ◌≡◌, refl, Option, none, some}
use nyc_taxi.Python.{get?, get_or, ok, Runtime, to_int}
use nyc_taxi.Json.{jsonable_dict, dumps}
use nyc_taxi.Json.RoundTrip.{DictHasUniqueKeys, ReadsBack, loads-dumps}
use nyc_taxi.DeadLetter.{DeadLetterRecord, as_dict, stage_of_value-stage_value}
use nyc_taxi.DeadLetter.Publisher.{written}
use nyc_taxi.Replay.{Ports, text_field, optional_field, stage_field, record_of, read_line}

module _ (p : Ports) where
  record_of-as_dict :
      (n : ℕ) (r : DeadLetterRecord)
      → record_of p n (as_dict p.runtime r) ≡ ok (record r { failed_at = p.failed_at n })
  unfolding record_of text_field optional_field stage_field as_dict get_or get? to_int
  record_of-as_dict n r = of_id r.trip_id
    where
      of_id :
          (id : Option String)
          → record_of p n (as_dict p.runtime (record r { trip_id = id }))
            ≡ ok (record r { trip_id = id; failed_at = p.failed_at n })
      of_id none = rw stage_of_value-stage_value refl
      of_id (some s) = rw stage_of_value-stage_value refl

  jsonable_dict-as_dict :
      (rt : Runtime) (r : DeadLetterRecord)
      → jsonable_dict rt (as_dict rt r)
        ≡ as_dict rt (record r { original_record = jsonable_dict rt r.original_record })
  unfolding jsonable_dict as_dict
  jsonable_dict-as_dict rt r = of_id r.trip_id
    where
      of_id :
          (id : Option String)
          → jsonable_dict rt (as_dict rt (record r { trip_id = id }))
            ≡ as_dict rt
                (record r { trip_id = id; original_record = jsonable_dict rt r.original_record })
      of_id none = refl
      of_id (some s) = refl

  as_dict-DictHasUniqueKeys :
      (rt : Runtime) (r : DeadLetterRecord)
      → DictHasUniqueKeys r.original_record
      → DictHasUniqueKeys (as_dict rt r)
  unfolding as_dict get?
  as_dict-DictHasUniqueKeys rt r h = of_id r.trip_id
    where
      of_id : (id : Option String) → DictHasUniqueKeys (as_dict rt (record r { trip_id = id }))
      of_id none = ground (arith, h)
      of_id (some s) = ground (arith, h)

  -- A dead letter that `dumps` wrote as a line without white space around it is read back by the replay
  -- with all its fields, but for two: the datetimes of its raw row are ISO texts and the Decimals
  -- floats, and its time of failure is that of the reading.
  pub read_line-dumps :
      (n : ℕ) (r : DeadLetterRecord) (line : String)
      → ReadsBack p.outside.json
      → DictHasUniqueKeys r.original_record
      → p.strip line ≡ line
      → dumps p.runtime p.outside.json (as_dict p.runtime r) ≡ ok line
      → read_line p n line
        ≡ ok (record r {
          original_record = jsonable_dict p.runtime r.original_record;
          failed_at = p.failed_at n;
        })
  unfolding read_line
  read_line-dumps n r line back unique bare written =
      rw
        (
          bare,
          loads-dumps p.runtime p.outside.json (as_dict p.runtime r) line back
              (as_dict-DictHasUniqueKeys p.runtime r unique) written,
          jsonable_dict-as_dict p.runtime r,
        )
        (record_of-as_dict n
          (record r { original_record = jsonable_dict p.runtime r.original_record }))
