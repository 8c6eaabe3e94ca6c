-- ===== src/Lifecycle/Release.antt =====
-- What the processes start, they release.
use mathlib.Core.List.{append_assoc}
use nyc_taxi.Base.{
  ℕ, ◌≡◌, refl, sym, ◌∙◌, subst, Bool, true, false, Option, none, some, List, [], ◌∷◌, ◌++◌, map,
}
use nyc_taxi.Python.{Error, ok, err}
use nyc_taxi.Lifecycle.{
  Action, flush_producer, close_consumer, close_clickhouse, stop_metrics, stop_lag_monitor, Calls,
  Started, Ending, failed, startup, caught, release, shutdown, exit_code, run_producer,
  producer_main, finished_by, run_consumer, consumer_main,
}
use nyc_taxi.Lifecycle.Startup.{components_of, OnlyStarts, Sets, startup-Sets}

module _ (raises : Action → Option Error) where
  -- A step of the shutdown that raises does not keep the others from being made.
  caught-ok : (o : Option Error) → caught raises o ≡ ok tt
  caught-ok none = refl
  caught-ok (some e) = refl

  abbrev pub called : List Action → Calls
  called actions = map (λ a. (a, raises a)) actions

  -- How a process ends that `startup` gave `s`: after an exception of `startup` it exits with 1 and
  -- releases nothing; else with 1 just when the work raised, behind the calls `last`.
  abbrev pub IsEnd : Calls → Ending → Started → ℕ × Calls → Type 0
  IsEnd last work (err e, calls) end = (end.0 ≡ 1) × (end.1 ≡ calls) × OnlyStarts calls
  IsEnd last work (ok c, calls) end =
      (end.0 ≡ exit_code raises work) × (end.1 ≡ calls ++ last) × OnlyStarts calls

  release-caught :
      (a : Action) (rest : Calls → Calls) (calls : Calls)
      → release raises true a rest calls ≡ rest (calls ++ (a, raises a) ∷ [])
  unfolding release
  release-caught a rest calls = rw (release, caught-ok (raises a)) refl

  abbrev stop_server : Calls → Calls
  stop_server = release raises true stop_metrics (λ calls. calls)

  shutdown-producer :
      (calls : Calls)
      → shutdown raises (components_of "producer") calls
        ≡ calls ++ called (flush_producer ∷ stop_metrics ∷ [])
  unfolding shutdown release
  shutdown-producer calls =
      release-caught flush_producer stop_server calls
      ∙ release-caught stop_metrics (λ calls. calls) _
      ∙ append_assoc calls (called (flush_producer ∷ [])) _

  shutdown-consumer :
      (calls : Calls)
      → shutdown raises (components_of "consumer") calls
        ≡ calls ++ called (close_consumer ∷ close_clickhouse ∷ stop_metrics ∷ [])
  unfolding shutdown release
  shutdown-consumer calls =
      release-caught close_consumer (release raises true close_clickhouse stop_server) calls
      ∙ release-caught close_clickhouse stop_server _
      ∙ release-caught stop_metrics (λ calls. calls) _
      ∙ append_assoc (calls ++ called (close_consumer ∷ [])) (called (close_clickhouse ∷ [])) _
      ∙ append_assoc calls (called (close_consumer ∷ [])) _

  run_producer-IsEnd :
      (work : Ending) (s : Started)
      → Sets raises (components_of "producer") s
      → IsEnd (called (flush_producer ∷ stop_metrics ∷ [])) work s (run_producer raises work s)
  run_producer-IsEnd work (err e, calls) h = (refl, refl, h.1)
  run_producer-IsEnd work (ok c, calls) (sets, only) =
      subst
        (λ c.
          IsEnd (called (flush_producer ∷ stop_metrics ∷ [])) work (ok c, calls)
            (run_producer raises work (ok c, calls)))
        (sym (sets c refl)) (refl, shutdown-producer calls, only)

  -- The releases of the consumer, where an exception of the monitor's stop keeps the others from
  -- being made.
  abbrev stops_with : Option Error → Calls
  stops_with none =
      (stop_lag_monitor, none) ∷ called (close_consumer ∷ close_clickhouse ∷ stop_metrics ∷ [])
  stops_with (some e) = (stop_lag_monitor, some e) ∷ []

  abbrev pub consumer_stops : Bool → Calls
  consumer_stops false = called (close_consumer ∷ close_clickhouse ∷ stop_metrics ∷ [])
  consumer_stops true = stops_with (raises stop_lag_monitor)

  abbrev failed_or : Ending → Option Error → Ending
  failed_or work none = work
  failed_or work (some e) = failed e

  -- What the consumer ends with: an exception of the monitor's stop takes the place of the rest.
  abbrev pub consumer_work : Bool → Ending → Ending
  consumer_work false work = work
  consumer_work true work = failed_or work (raises stop_lag_monitor)

  run_consumer-IsEnd :
      (monitored : Bool) (work : Ending) (s : Started)
      → Sets raises (components_of "consumer") s
      → IsEnd
          (consumer_stops monitored)
          (consumer_work monitored work)
          s
          (run_consumer raises monitored work s)
  run_consumer-IsEnd monitored work (err e, calls) h = (refl, refl, h.1)
  run_consumer-IsEnd monitored work (ok c, calls) (sets, only) =
      subst
        (λ c.
          IsEnd (consumer_stops monitored) (consumer_work monitored work) (ok c, calls)
            (run_consumer raises monitored work (ok c, calls)))
        (sym (sets c refl)) (split monitored)
    where
      monitor_split :
          (o : Option Error)
          → IsEnd
              (stops_with o)
              (failed_or work o)
              (ok (components_of "consumer"), calls)
              (finished_by raises o (components_of "consumer") (exit_code raises work, calls))
      monitor_split none = (
        refl,
        shutdown-consumer (calls ++ (stop_lag_monitor, none) ∷ [])
            ∙ append_assoc calls ((stop_lag_monitor, none) ∷ []) _,
        only,
      )
      monitor_split (some e) = (refl, refl, only)

      split :
          (monitored : Bool)
          → IsEnd
              (consumer_stops monitored)
              (consumer_work monitored work)
              (ok (components_of "consumer"), calls)
              (run_consumer raises monitored work (ok (components_of "consumer"), calls))
      split true = monitor_split (raises stop_lag_monitor)
      split false = (refl, shutdown-consumer calls, only)

  -- Whatever the calls raise: a process that `startup` fails exits with 1 and releases nothing. Else it
  -- exits with 1 just when its work, or the stop of the consumer's lag monitor, raised, and releases
  -- what was started, in order: the producer flushes and stops the metrics server; the consumer stops
  -- the lag monitor, if there is one, closes the Kafka consumer and then ClickHouse, and stops the
  -- metrics server, but when the stop of the lag monitor raises it releases nothing else.
  pub main-IsEnd :
      (work : Ending) (monitored : Bool)
      → IsEnd
          (called (flush_producer ∷ stop_metrics ∷ []))
          work
          (startup raises "producer" [])
          (producer_main raises work)
        × IsEnd
            (consumer_stops monitored)
            (consumer_work monitored work)
            (startup raises "consumer" [])
            (consumer_main raises monitored work)
  unfolding producer_main consumer_main
  main-IsEnd work monitored = (
    run_producer-IsEnd work (startup raises "producer" []) (startup-Sets raises "producer"),
    run_consumer-IsEnd monitored work (startup raises "consumer" [])
        (startup-Sets raises "consumer"),
  )
