-- ===== src/Witnesses/ServiceLaws.antt =====
-- The producer, the zones and the monitoring at concrete inputs.
use mathlib.Core.List.{Permᴰ}
use mathlib.Core.List.Permᴰ
use nyc_taxi.Producer.Queue.{
  Buffered, Report, publish_buffered, flush, publish_polled, poll, serve, take_at,
  delivery_callback,
}
use nyc_taxi.Producer.Queue.Drained.{flushed_after, flush-publish_buffered}
use nyc_taxi.Base.{
  ◌==◌, if◌then◌else◌, pos, ℕ, String, ◌≡◌, refl, true, false, Option, map, none, some, List, [],
  ◌∷◌, ◌++◌, str_eq,
}
use nyc_taxi.Python.{
  dict, str, Dict, empty, entry, get?, get_or, other, error_type, Result, ok, err, to_int,
}
use nyc_taxi.Json.{dumps}
use nyc_taxi.Trip.Model.{Zone}
use nyc_taxi.Samples.{message_of, rt, trip}
use nyc_taxi.Producer.{Client, Taken, serialize, encoded, publish_all, publish_batch}
use nyc_taxi.Producer.Attempts.{IsEnqueued, publish_batch-IsEnqueued}
use nyc_taxi.Retry.{retry}
use nyc_taxi.DeadLetter.Publisher.{is_kafka_error}
use nyc_taxi.Zones.{Text, ZoneRepository, location_of, stripped_field, zone_of, load, get_by_id}
use nyc_taxi.Zones.Enrichment.{enrich_batch, ensure_loaded, labelled, enrich_batch-load}
use nyc_taxi.Zones.Lookup.{}
use nyc_taxi.Monitoring.Polling.{
  Clients, fetch_partition_lags, timed_out, stop_set, alive, died, run, showing, run_lem,
}
use nyc_taxi.Monitoring.{PartitionLag}
use nyc_taxi.Monitoring.Laws.{}

-- A broker that refuses the second message once.
abbrev client : Client
client = record {
  runtime = rt;
  json = record { json_dumps = λ v. ok "value"; json_loads = λ s. ok (dict empty) };
  produce = λ n. if n == 1 then some (other "KafkaException" "queue full") else none;
  times = λ a b. a;
}

abbrev two_messages : List Dict
two_messages = message_of "a" ∷ message_of "b" ∷ []

abbrev no_topic : Taken
no_topic = record { enqueued = []; produce_calls = 0; sleeps = [] }

-- `publish_batch` with all that it calls.
run_publish : (c : Client) → List Dict → Taken → Result (Option (Unit {0})) × Taken
unfolding publish_batch retry publish_all encoded serialize dumps get_or get? is_kafka_error
    error_type
run_publish = publish_batch

-- The first message is published twice.
published_twice :
    (publish_batch client two_messages no_topic).1.enqueued
    ≡ ("a", "value") ∷ ("a", "value") ∷ ("b", "value") ∷ []
unfolding run_publish
published_twice = refl

publish_batch-IsEnqueued_example :
    IsEnqueued client two_messages 4 no_topic (publish_batch client two_messages no_topic)
publish_batch-IsEnqueued_example = publish_batch-IsEnqueued client two_messages no_topic

abbrev no_queue : Buffered
no_queue = record { taken = no_topic; queue = []; delivered = []; failed = []; polls = 0 }

-- All is delivered by the last poll, in another order.
abbrev late : ℕ → List Report
late n = if n == 4 then (1, none) ∷ (0, none) ∷ (0, none) ∷ [] else []

flush-publish_buffered_example :
    let u = (flushed_after client late two_messages no_queue).1 in
    (((publish_buffered client late two_messages no_queue).0, u.taken)
      ≡ publish_batch client two_messages no_topic)
    × Permᴰ u.delivered u.taken.enqueued
unfolding publish_buffered flush publish_polled poll serve take_at delivery_callback retry encoded
    serialize dumps get_or get? is_kafka_error error_type
flush-publish_buffered_example =
    flush-publish_buffered client late two_messages no_queue (Permᴰ.refl []) refl refl

abbrev text : Text
text = record {
  runtime = record rt { int_of_text = λ s. if str_eq s "132" then some (pos 132) else none };
  strip = λ s. s;
}

abbrev zone_row : String → String → Dict
zone_row id name = entry "LocationID" (str id) (entry "Zone" (str name) empty)

abbrev zone_rows : List Dict
zone_rows = zone_row "132" "Old" ∷ zone_row "x" "Bad" ∷ zone_row "132" "JFK Airport" ∷ []

abbrev jfk : Zone
jfk = record {
  location_id = pos 132;
  borough = "Unknown";
  zone = "JFK Airport";
  service_zone = "Unknown";
}

abbrev unloaded : ZoneRepository
unloaded = record { zones = []; loaded = false }

abbrev with_jfk : ZoneRepository
with_jfk = record { zones = (pos 132, jfk) ∷ []; loaded = true }

enrich_batch-load_example :
    (ensure_loaded with_jfk ≡ ok tt)
    × (enrich_batch (get_by_id with_jfk) (trip ∷ []) ≡ (ok tt, labelled text zone_rows trip ∷ []))
    × (enrich_batch (get_by_id with_jfk) (labelled text zone_rows trip ∷ [])
        ≡ (ok tt, labelled text zone_rows trip ∷ []))
unfolding load zone_of location_of stripped_field to_int get_or get?
enrich_batch-load_example =
    enrich_batch-load text "zones.csv" zone_rows unloaded with_jfk refl (trip ∷ [])

abbrev partition_lag : PartitionLag
partition_lag = record {
  topic = "nyc-taxi-trips";
  partition = pos 0;
  current_offset = pos 10;
  committed_offset = pos 4;
}

-- A broker that knows the partition 0 of the topic, with offsets, and brokers that raise.
abbrev listing : Clients
listing = record {
  list_topics = ok (some (pos 0 ∷ []));
  list_consumer_group_offsets = λ partitions. ok ((pos 0, pos 4) ∷ []);
  get_watermark_offsets = λ partition. ok (pos 0, pos 10);
}

abbrev raising_clients : String → Clients
raising_clients name = record listing { list_topics = err (other name "timed out") }

run_lem_example :
    let polls = listing ∷ raising_clients "KafkaException" ∷ [] in
    let last = showing (partition_lag ∷ []) in
    (run "nyc-taxi-trips" (map timed_out polls) (showing []) ≡ (alive, last))
    × (run "nyc-taxi-trips"
          (map timed_out polls ++ timed_out (raising_clients "TimeoutError") ∷ stop_set ∷ [])
          (showing [])
        ≡ (died (other "TimeoutError" "timed out"), last))
unfolding fetch_partition_lags error_type
run_lem_example =
    run_lem "nyc-taxi-trips" (listing ∷ raising_clients "KafkaException" ∷ []) []
      (raising_clients "TimeoutError") (other "TimeoutError" "timed out") (stop_set ∷ [])
      (tt, (refl, tt)) refl refl
