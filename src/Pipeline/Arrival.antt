-- ===== src/Pipeline/Arrival.antt =====
-- What of the trips published arrives in the table.
use mathlib.Core.List.{Permᴰ}
use nyc_taxi.Base.{ℕ, ◌≤◌, String, ◌≡◌, sym, ap, ◌∙◌, subst, Option, List, [], ◌++◌}
use nyc_taxi.Python.{Dict, Result, ok}
use nyc_taxi.Json.RoundTrip.{ReadsBack}
use nyc_taxi.Trip.Model.{Trip}
use nyc_taxi.Producer.{Client, Taken, publish_batch}
use nyc_taxi.Producer.Attempts.{Attempts, encode_all, IsEnqueued, publish_batch-IsEnqueued}
use nyc_taxi.Consumer.{
  Event, Ports, State, started, Progress, running, finished, raised, added, consume,
}
use nyc_taxi.Consumer.Persistence.{rows_of}
use nyc_taxi.Consumer.Order.{rows_of-Permᴰ}
use nyc_taxi.Consumer.Endings.{NothingFails, AllPersisted, consume-AllPersisted}
use nyc_taxi.Pipeline.{
  WritesText, values, read_from, read_from-Attempts, rows, read_from-encode_all,
}

module _ (c : Client) (p : Ports) (same : p.json ≡ c.json) (back : ReadsBack c.json)
    (text : WritesText c.json) where
  -- At most four attempts broke off, each of which published some first trips, and then every trip
  -- was: these are the rows in the table, in any order.
  abbrev pub IsInserted : List Trip → List Dict → Type 0
  IsInserted trips inserted =
      (k : ℕ) × (arrived : List Dict) × Attempts (rows c p same back text trips) k arrived
      × (k ≤ 4)
      × Permᴰ arrived inserted

  abbrev pub EndsInserted : List Trip → Progress × State → Type 0
  EndsInserted trips (running, u) = Unit
  EndsInserted trips (finished, u) = IsInserted trips u.inserted
  EndsInserted trips (raised e, u) = IsInserted trips u.inserted

  arrived-IsInserted :
      (trips : List Trip) (whole added : List (String × String)) (k : ℕ) (received : List String)
      (inserted : List Dict)
      → encode_all c (rows c p same back text trips) ≡ ok whole
      → Attempts whole k added
      → k ≤ 4
      → Permᴰ (values added) received
      → inserted ≡ rows_of p received
      → IsInserted trips inserted
  arrived-IsInserted trips whole added k received inserted enc tries few came all = (
    k,
    read_from c p same back text added,
    subst (λ w. Attempts w k (read_from c p same back text added))
        (read_from-encode_all c p same back text trips whole enc)
        (read_from-Attempts c p same back text tries),
    few,
    subst (Permᴰ (read_from c p same back text added)) (sym all) (rows_of-Permᴰ p came),
  )

  ends-IsInserted :
      (trips : List Trip) (whole added : List (String × String)) (k : ℕ) (u : Progress × State)
      → encode_all c (rows c p same back text trips) ≡ ok whole
      → Attempts whole k added
      → k ≤ 4
      → Permᴰ (values added) u.1.received
      → AllPersisted p u
      → EndsInserted trips u
  ends-IsInserted trips whole added k (running, u) enc tries few came all = tt
  ends-IsInserted trips whole added k (finished, u) enc tries few came all =
      arrived-IsInserted trips whole added k u.received u.inserted enc tries few came all.0
  ends-IsInserted trips whole added k (raised e, u) enc tries few came all =
      arrived-IsInserted trips whole added k u.received u.inserted enc tries few came all.0

  delivered-EndsInserted :
      (trips : List Trip) (s t : Taken) (sent : Option (Unit {0}))
      (r : Result (Option (Unit {0})) × Taken) (u : Progress × State)
      → s.enqueued ≡ []
      → r ≡ (ok sent, t)
      → IsEnqueued c (rows c p same back text trips) 4 s r
      → Permᴰ (values t.enqueued) u.1.received
      → AllPersisted p u
      → EndsInserted trips u
  delivered-EndsInserted trips s t sent r u fresh returned delivered came all =
      let (whole, k, added, enc, tries, there, few, naps) =
        subst (IsEnqueued c (rows c p same back text trips) 4 s) returned delivered in
      ends-IsInserted trips whole added k u enc tries few
        (subst (λ messages. Permᴰ (values messages) u.1.received)
          (there ∙ ap (λ l. l ++ added) fresh) came)
        all

  -- When `publish_batch`, before which nothing was enqueued, returned for the rows of some trips, the
  -- consumer has received all that was enqueued, in any order, its inserts and commits return, and its loop was
  -- left: then the table holds the row of every trip as `to_dict` gave it, each once, beside those
  -- that at most four attempts that broke off had sent before.
  pub consume-publish_batch :
      (trips : List Trip) (s t : Taken) (sent : Option (Unit {0})) (now : ℕ) (es : List Event)
      → s.enqueued ≡ []
      → publish_batch c (rows c p same back text trips) s ≡ (ok sent, t)
      → NothingFails p
      → Permᴰ (values t.enqueued) (consume p es (running, started now)).1.received
      → EndsInserted trips (consume p es (running, started now))
  consume-publish_batch trips s t sent now es fresh returned works came =
      delivered-EndsInserted trips s t sent (publish_batch c (rows c p same back text trips) s)
        (consume p es (running, started now)) fresh returned
        (publish_batch-IsEnqueued c (rows c p same back text trips) s) came
        (consume-AllPersisted p now es works)
