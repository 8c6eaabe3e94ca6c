-- ===== src/Witnesses/RestartLaws.antt =====
-- A consumer group on three messages that carry rows, and a driver that refuses a location id.
use mathlib.Core.List.{Permᴰ}
use mathlib.Core.List.Permᴰ
use nyc_taxi.Base.{ℕ, String, ◌≡◌, refl, sym, subst, true, false, Option, List, [], ◌∷◌, ◌++◌}
use nyc_taxi.Python.{Dict, Error}
use nyc_taxi.Json.{loads}
use nyc_taxi.Samples.{message_of, consumer, event_with, events}
use nyc_taxi.Consumer.{
  no_message, message, Event, Ports, State, started, none_if_undecodable, running, finished,
  deserialize, should_flush, flush, commit_offsets, persist, flush_and_yield, flush_pending,
  receive, turn, consume,
}
use nyc_taxi.Consumer.Restarts.{Group, process, lived, Lives, unborn, reborn}
use nyc_taxi.Consumer.Restarts.Delivery.{IsRepeated, Lives-IsRepeated, HoldsAll, Lives-HoldsAll}

abbrev Any : (ℕ → List Dict → Option Error) → Type 0
Any insert = Unit

abbrev group : List String → List Dict → Group
group waiting table = record { waiting = waiting; table = table }

abbrev broken : Ports
broken = consumer true

abbrev second_events : List Event
second_events = event_with false (message "c") ∷ event_with true no_message ∷ []

abbrev all_messages : List String
all_messages = "a" ∷ "bad" ∷ "b" ∷ "c" ∷ []

-- The second insert of the first process fails.
first_process :
    let s = process broken broken.insert broken.commit 0 events in
    (s.received ≡ all_messages)
    × (s.committed ≡ "a" ∷ "bad" ∷ "b" ∷ [])
    × (s.inserted ≡ message_of "a" ∷ message_of "b" ∷ [])
unfolding consume turn receive deserialize loads none_if_undecodable should_flush flush_and_yield
    flush flush_pending persist commit_offsets
first_process = (refl, refl, refl)

second_process :
    let q = consumer false in
    ((process broken q.insert q.commit 0 second_events).received ≡ "c" ∷ [])
    × ((consume
          (record broken { insert = q.insert; commit = q.commit })
          second_events
          (running, started 0)).0
        ≡ finished)
unfolding consume turn receive deserialize loads none_if_undecodable should_flush flush_and_yield
    flush flush_pending persist commit_offsets
second_process = (refl, refl)

one_process :
    Lives broken Any
      (group all_messages [])
      (group ("c" ∷ []) (message_of "a" ∷ message_of "b" ∷ []))
one_process =
    let s : State = process broken broken.insert broken.commit 0 events in
    let (received, committed, inserted) = first_process in
    reborn unborn (
      lived broken.insert broken.commit 0 events [] tt
        (subst (λ l. Permᴰ (l ++ []) all_messages) (sym received) (Permᴰ.refl all_messages))
        (rw (received, committed) refl) (sym inserted))

Lives-IsRepeated_example :
    IsRepeated broken Any
      (group all_messages [])
      (group ("c" ∷ []) (message_of "a" ∷ message_of "b" ∷ []))
Lives-IsRepeated_example = Lives-IsRepeated broken Any one_process

Lives-HoldsAll_example : HoldsAll broken Any (group all_messages []) (
    (message_of "a" ∷ message_of "b" ∷ [])
    ++ (process broken (consumer false).insert (consumer false).commit 0 second_events).inserted)
Lives-HoldsAll_example =
    Lives-HoldsAll broken Any (consumer false).insert (consumer false).commit 0 second_events
      one_process tt (λ n rows. refl, λ n. refl)
      (subst (λ l. Permᴰ l ("c" ∷ [])) (sym second_process.0) (Permᴰ.refl ("c" ∷ [])))
      (λ still. cc (still, second_process.1))
