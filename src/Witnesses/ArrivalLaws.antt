-- ===== src/Witnesses/ArrivalLaws.antt =====
-- Trips on their way from the producer to the table, at concrete inputs.
use mathlib.Core.List.{Permᴰ}
use mathlib.Core.List.Permᴰ
use nyc_taxi.Base.{
  ◌==◌, if◌then◌else◌, ℕ, ◌≡◌, refl, sym, ap, subst, true, false, none, some, List, [], ◌∷◌,
}
use nyc_taxi.Python.{Value, dict, get?, get_or, ok}
use nyc_taxi.Json.{jsonable, dumps, loads}
use nyc_taxi.Samples.{rt, consumer, event_with}
use nyc_taxi.Samples.Document.{document, dumps-document, document-ReadsBack, document-WritesText}
use nyc_taxi.Trip.Model.{to_dict}
use nyc_taxi.Trip.Validator.Rules.{}
use nyc_taxi.Timestamp.{}
use nyc_taxi.ClickHouse.Rows.{}
use nyc_taxi.ClickHouse.Batch.{}
use nyc_taxi.ClickHouse.{}
use nyc_taxi.Parquet.{}
use nyc_taxi.Parquet.Rows.{}
use nyc_taxi.Producer.{Client, Taken, serialize, encoded}
use nyc_taxi.Producer.Queue
use nyc_taxi.Producer.Queue.{
  Buffered, Report, publish_buffered, publish_polled, poll, serve, take_at, delivery_callback,
}
use nyc_taxi.Producer.Queue.Drained.{flushed_after}
use nyc_taxi.Pipeline.{values}
use nyc_taxi.Pipeline.Delivered.{consume-publish_buffered}
use nyc_taxi.Retry.{retry}
use nyc_taxi.Consumer.{
  no_message, message, Event, Ports, started, none_if_undecodable, running, deserialize,
  should_flush, flush, commit_offsets, persist, flush_and_yield, flush_pending, receive, turn,
  consume,
}
use nyc_taxi.Pipeline.Arrival.{EndsInserted}
use nyc_taxi.Witnesses.FlowLaws.{written_trip}

-- A producer and a consumer that share the document of `written_trip`.
abbrev pub trip_document : Value
trip_document = dict (to_dict rt written_trip)

abbrev producer : Client
producer = record {
  runtime = rt;
  json = document trip_document;
  produce = λ n. none;
  times = λ a b. a;
}

abbrev receiver : nyc_taxi.Consumer.Ports
receiver = record (consumer false) { json = document trip_document }

abbrev no_topic : Taken
no_topic = record { enqueued = []; produce_calls = 0; sleeps = [] }

abbrev pub two_turns : List Event
two_turns = event_with false (message "line") ∷ event_with true no_message ∷ []

abbrev filled_topic : Taken
filled_topic = record {
  enqueued = (written_trip.trip_id, "line") ∷ [];
  produce_calls = 1;
  sleeps = [];
}

abbrev nothing_taken : Buffered
nothing_taken = record { taken = no_topic; queue = []; delivered = []; failed = []; polls = 0 }

-- The message is delivered at the third look.
abbrev late : ℕ → List Report
late n = if n == 2 then (0, none) ∷ [] else []

abbrev waiting : Buffered
waiting = record nothing_taken {
  taken = filled_topic;
  queue = (written_trip.trip_id, "line") ∷ [];
  polls = 2;
}

abbrev all_delivered : Buffered
all_delivered = record nothing_taken {
  taken = filled_topic;
  delivered = (written_trip.trip_id, "line") ∷ [];
  polls = 3;
}

dumps_trip : dumps rt (document trip_document) (to_dict rt written_trip) ≡ ok "line"
unfolding dumps jsonable to_dict
dumps_trip = dumps-document trip_document

serialize_trip : serialize producer (to_dict rt written_trip) ≡ ok "line"
unfolding serialize
serialize_trip = rw (serialize, dumps_trip) refl

encoded_trip : encoded producer (to_dict rt written_trip) ≡ ok (written_trip.trip_id, "line")
unfolding encoded get_or get? to_dict
encoded_trip = rw (encoded, serialize_trip) refl

attempted :
    publish_polled producer late (to_dict rt written_trip ∷ []) nothing_taken ≡ (ok tt, waiting)
unfolding publish_polled poll serve
attempted = rw (publish_polled, encoded_trip, encoded_trip) refl

published :
    publish_buffered producer late (to_dict rt written_trip ∷ []) nothing_taken
    ≡ (ok (some tt), waiting)
unfolding publish_buffered retry
published = rw (publish_buffered, retry, attempted, attempted) refl

drained :
    flushed_after producer late (to_dict rt written_trip ∷ []) nothing_taken ≡ (0, all_delivered)
unfolding Queue.flush poll serve take_at delivery_callback
drained = ap (λ r. Queue.flush producer late r.1) published

received : (consume receiver two_turns (running, started 0)).1.received ≡ "line" ∷ []
unfolding consume turn receive deserialize loads none_if_undecodable should_flush flush_and_yield
    flush flush_pending persist commit_offsets
received = refl

consume-publish_buffered_example :
    EndsInserted producer receiver refl
      (document-ReadsBack trip_document)
      (document-WritesText trip_document)
      (written_trip ∷ [])
      (consume receiver two_turns (running, started 0))
consume-publish_buffered_example =
    consume-publish_buffered producer late receiver refl (document-ReadsBack trip_document)
      (document-WritesText trip_document) (written_trip ∷ []) nothing_taken (some tt) 0 two_turns
      refl (Permᴰ.refl []) (ap (λ r. r.0) published) (ap (λ r. r.0) drained)
      (ap (λ r. r.1.failed) drained) (λ n rows. refl, λ n. refl)
      (subst
        (λ r.
          Permᴰ (values r.1.delivered) (consume receiver two_turns (running, started 0)).1.received)
        (sym drained) (subst (Permᴰ ("line" ∷ [])) (sym received) (Permᴰ.refl ("line" ∷ []))))
