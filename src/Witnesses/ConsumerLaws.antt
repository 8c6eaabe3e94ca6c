-- ===== src/Witnesses/ConsumerLaws.antt =====
-- The consumer on six turns: the third fills a batch, the last is a shutdown.
use nyc_taxi.Base.{map, Option, none, ◌≡◌, refl, true, List, [], ◌∷◌}
use nyc_taxi.Json.{loads}
use nyc_taxi.Samples.{message_of, consumer, events}
use nyc_taxi.Consumer.{
  Event, Ports, State, started, none_if_undecodable, Progress, running, deserialize, should_flush,
  flush, commit_offsets, persist, flush_and_yield, flush_pending, receive, turn, consume,
}
use nyc_taxi.Consumer.Persistence.{IsSafe, consume-IsSafe}
use nyc_taxi.Python.{Error}
use nyc_taxi.Lifecycle.{
  Action, setup_logging, setup_tracing, connect_clickhouse, ping_clickhouse, load_zones,
  create_consumer, start_metrics, stop_lag_monitor, close_consumer, close_clickhouse, stop_metrics,
  startup, attempt, attempt_if, consumer_main, release, shutdown,
}
use nyc_taxi.Pipeline.Consuming.{Exit, main, LosesNothing, main-LosesNothing}

-- The process with all that it calls.
run_consumer : (p : Ports) → List Event → Progress × State → Progress × State
unfolding consume turn receive deserialize loads none_if_undecodable should_flush flush_and_yield
    flush flush_pending persist commit_offsets
run_consumer = consume

-- The second insert fails: what the first batch brought stays committed, the row "c" is not.
broken_run :
    let s = (consume (consumer true) events (running, started 0)).1 in
    (s.committed ≡ "a" ∷ "bad" ∷ "b" ∷ []) × (s.inserted ≡ message_of "a" ∷ message_of "b" ∷ [])
unfolding run_consumer
broken_run = (refl, refl)

consume-IsSafe_example :
    IsSafe (consumer true) (consume (consumer true) events (running, started 0)).1
consume-IsSafe_example = consume-IsSafe (consumer true) 0 events

abbrev all_well : Action → Option Error
all_well a = none

-- The process whose second insert fails.
abbrev exit : Exit
exit = (
  (
    0,
    map (λ a. (a, none))
        (setup_logging ∷ setup_tracing ∷ connect_clickhouse ∷ ping_clickhouse ∷ load_zones
          ∷ create_consumer ∷ start_metrics ∷ stop_lag_monitor ∷ close_consumer ∷ close_clickhouse
          ∷ stop_metrics ∷ []),
  ),
  (consume (consumer true) events (running, started 0)).1,
)

main-LosesNothing_example :
    LosesNothing all_well none
      (consumer true)
      (consume (consumer true) events (running, started 0))
      exit
unfolding run_consumer main startup attempt attempt_if consumer_main release shutdown
main-LosesNothing_example = main-LosesNothing all_well none (consumer true) 0 events exit refl
