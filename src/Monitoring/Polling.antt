-- ===== src/Monitoring/Polling.antt =====
-- `_fetch_partition_lags` of etl/infrastructure/monitoring/kafka_lag.py, and the thread of
-- etl/runtime/lag_monitor_loop.py, which polls until it is stopped.
use mathlib.Core.List.{append-nil}
use nyc_taxi.Base.{
  ℤ, String, ◌≡◌, refl, subst, ◌∙◌, true, false, Option, none, some, List, [], ◌∷◌, ◌++◌, map, All,
  str_eq,
}
use nyc_taxi.Python.{Error, error_type, Result, ok, err, ◌>>=◌}
use nyc_taxi.Monitoring.{PartitionLag, total_lag, Monitor, poll}

-- What the clients of Kafka answer at a poll: the partitions of the topic, `none` if the metadata lacks
-- it; the partitions with the offsets that the group has committed; the low and the high watermark.
pub record Clients : Type 0 where
  pub list_topics : Result (Option (List ℤ))
  pub list_consumer_group_offsets : List ℤ → Result (List (ℤ × ℤ))
  pub get_watermark_offsets : ℤ → Result (ℤ × ℤ)

-- How `_stop_event.wait(interval)` returns: after the interval, with what the clients answer then, or
-- because the event is set.
pub data Wait : Type 0 where
  timed_out : Clients → Wait
  stop_set : Wait

pub data Thread : Type 0 where
  alive : Thread
  stopped : Thread
  died : Error → Thread

module _ (topic : String) where
  -- The loop over the committed offsets.
  unfoldable pub lags_of : (ℤ → Result (ℤ × ℤ)) → List (ℤ × ℤ) → Result (List PartitionLag)
  lags_of watermarks [] = ok []
  lags_of watermarks ((partition, offset) ∷ committed) = do
    (low, high) ← watermarks partition
    lags ← lags_of watermarks committed
    ok (
        record {
          topic = topic;
          partition = partition;
          current_offset = high;
          committed_offset = offset;
        }
        ∷ lags)

  abbrev pub lags_if_found : Clients → Option (List ℤ) → Result (List PartitionLag)
  lags_if_found c none = ok []
  lags_if_found c (some partitions) = do
    committed ← c.list_consumer_group_offsets partitions
    lags_of c.get_watermark_offsets committed

  -- `_fetch_partition_lags`
  unfoldable pub fetch_partition_lags : Clients → Result (List PartitionLag)
  unfolding lags_of
  fetch_partition_lags c = do found ← c.list_topics; lags_if_found c found

  -- `LagMonitorLoop._run`, over the waits so far.
  unfoldable pub run : List Wait → Monitor → Thread × Monitor
  unfolding fetch_partition_lags poll
  run [] m = (alive, m)
  run (stop_set ∷ waits) m = (stopped, m)
  run (timed_out c ∷ waits) m =
      let (answer, n) = poll (fetch_partition_lags c) m in
      elim answer [ ok total ↦ run waits n | err e ↦ (died e, n) ]

-- What a poll leaves in the monitor when nothing but a KafkaException can be raised.
abbrev pub kept_or : Result (List PartitionLag) → List PartitionLag → List PartitionLag
kept_or (ok lags) old = lags
kept_or (err e) old = old

abbrev pub IsTolerated : Result (List PartitionLag) → Type 0
IsTolerated (ok lags) = Unit
IsTolerated (err e) = str_eq (error_type e) "KafkaException" ≡ true

-- The monitor with these lags, and their sum in the gauge.
abbrev pub showing : List PartitionLag → Monitor
showing lags = record { partition_lags = lags; gauge = total_lag lags }

module _ (topic : String) where
  -- The lags of the last poll that could fetch them, if there was one.
  abbrev pub last_fetched : List Clients → List PartitionLag → List PartitionLag
  last_fetched [] lags = lags
  last_fetched (c ∷ polls) lags = last_fetched polls (kept_or (fetch_partition_lags topic c) lags)

  run-tolerated :
      (answer : Result (List PartitionLag)) (lags : List PartitionLag) (waits : List Wait)
      → IsTolerated answer
      → (let (result, n) = poll answer (showing lags) in
          elim result as (λ x. Thread × Monitor) [
            | ok total ↦ run topic waits n
            | err e ↦ (died e, n)
          ])
        ≡ run topic waits (showing (kept_or answer lags))
  unfolding poll
  run-tolerated (ok found) lags waits h = refl
  run-tolerated (err e) lags waits h = rw h refl

  run-died :
      (answer : Result (List PartitionLag)) (e : Error) (lags : List PartitionLag)
      (waits : List Wait)
      → answer ≡ err e
      → str_eq (error_type e) "KafkaException" ≡ false
      → (let (result, n) = poll answer (showing lags) in
          elim result as (λ x. Thread × Monitor) [
            | ok total ↦ run topic waits n
            | err x ↦ (died x, n)
          ])
        ≡ (died e, showing lags)
  unfolding poll
  run-died (ok found) e lags waits raised other_ = absurd (cc (raised))
  run-died (err x) e lags waits raised other_ =
      let same : x ≡ e = cc (raised) in rw (same, other_) refl

  run-append :
      (polls : List Clients) (more : List Wait) (lags : List PartitionLag)
      → All (λ c. IsTolerated (fetch_partition_lags topic c)) polls
      → run topic (map timed_out polls ++ more) (showing lags)
        ≡ run topic more (showing (last_fetched polls lags))
  unfolding run
  run-append [] more lags h = refl
  run-append (c ∷ polls) more lags h =
      run-tolerated (fetch_partition_lags topic c) lags (map timed_out polls ++ more) h.0
      ∙ run-append polls more (kept_or (fetch_partition_lags topic c) lags) h.1

  -- As long as polls return or fail with a KafkaException, the thread goes on, and the monitor has the lags
  -- of the last poll that could fetch them, with their sum in the gauge. The first poll that raises any
  -- other exception ends the thread, and the monitor stays like that, whatever would come later.
  pub run_lem :
      (polls : List Clients) (lags : List PartitionLag) (c : Clients) (e : Error)
      (later : List Wait)
      → All (λ p. IsTolerated (fetch_partition_lags topic p)) polls
      → fetch_partition_lags topic c ≡ err e
      → str_eq (error_type e) "KafkaException" ≡ false
      → (run topic (map timed_out polls) (showing lags)
          ≡ (alive, showing (last_fetched polls lags)))
        × (run topic (map timed_out polls ++ timed_out c ∷ later) (showing lags)
            ≡ (died e, showing (last_fetched polls lags)))
  unfolding run
  run_lem polls lags c e later tolerated raised other_ = (
    subst (λ waits. run topic waits (showing lags) ≡ (alive, showing (last_fetched polls lags)))
        (append-nil (map timed_out polls)) (run-append polls [] lags tolerated),
    run-append polls (timed_out c ∷ later) lags tolerated
        ∙ run-died (fetch_partition_lags topic c) e (last_fetched polls lags) later raised other_,
  )
