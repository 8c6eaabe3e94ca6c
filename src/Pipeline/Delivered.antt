-- ===== src/Pipeline/Delivered.antt =====
-- The trips on their way with the queue of the client library between the producer and the topic.
use mathlib.Core.List.{Permᴰ}
use mathlib.Core.List.Permᴰ
use nyc_taxi.Base.{ℕ, ◌≡◌, sym, ap, ◌∙◌, Option, List, []}
use nyc_taxi.Python.{ok}
use nyc_taxi.Json.RoundTrip.{ReadsBack}
use nyc_taxi.Trip.Model.{Trip}
use nyc_taxi.Producer.{Client}
use nyc_taxi.Producer.Queue.{Buffered, Report, publish_buffered}
use nyc_taxi.Producer.Queue.Reports.{IsAccounted}
use nyc_taxi.Producer.Queue.Drained.{flushed_after, flush-publish_buffered}
use nyc_taxi.Consumer.{Event, Ports, started, running, consume}
use nyc_taxi.Consumer.Endings.{NothingFails}
use nyc_taxi.Pipeline.{WritesText, values, rows}
use nyc_taxi.Pipeline.Arrival.{EndsInserted, consume-publish_batch}

module _ (c : Client) (reports : ℕ → List Report) (p : Ports) (same : p.json ≡ c.json)
    (back : ReadsBack c.json) (text : WritesText c.json) where
  -- When `publish_batch` returned for the rows of some trips, before which nothing was taken and each
  -- message is accounted for, the flush behind it returned 0 and no delivery failed, the consumer has
  -- received what was delivered, in any order, its inserts and commits return, and its loop was left:
  -- then the table holds the row of every trip as `to_dict` gave it, each once, beside those that at
  -- most four attempts that broke off had sent before.
  pub consume-publish_buffered :
      (trips : List Trip) (s : Buffered) (sent : Option (Unit {0})) (now : ℕ) (es : List Event)
      → s.taken.enqueued ≡ []
      → IsAccounted s
      → (publish_buffered c reports (rows c p same back text trips) s).0 ≡ ok sent
      → (flushed_after c reports (rows c p same back text trips) s).0 ≡ 0
      → (flushed_after c reports (rows c p same back text trips) s).1.failed ≡ []
      → NothingFails p
      → Permᴰ
          (values (flushed_after c reports (rows c p same back text trips) s).1.delivered)
          (consume p es (running, started now)).1.received
      → EndsInserted c p same back text trips (consume p es (running, started now))
  consume-publish_buffered trips s sent now es fresh accounted returned empty fine works came =
      let ms = rows c p same back text trips in
      let taken = (flushed_after c reports ms s).1.taken in
      let (as_without, delivered) = flush-publish_buffered c reports ms s accounted empty fine in
      consume-publish_batch c p same back text trips s.taken taken sent now es fresh
        (sym as_without ∙ ap (λ r. (r, taken)) returned) works
        (Permᴰ.trans (Permᴰ.map (λ m. m.1) (Permᴰ.symm delivered)) came)
