-- ===== src/Witnesses/ProcessLaws.antt =====
-- A broker on which two instances make topics, and the start and stop of the processes, at concrete
-- inputs.
use text.Mathlib.TextPositions.{eq_refl}
use nyc_taxi.Base.{
  All, String, ◌≡◌, refl, sym, ap, true, Option, none, some, List, [], ◌∷◌, ◌++◌, map, arith,
}
use nyc_taxi.Python.{Error, other, ok, ok-injective}
use nyc_taxi.Samples.{}
use nyc_taxi.Topics.{NewTopic, AdminClient, member}
use nyc_taxi.Topics.Laws.{IsThere, IsAdmin}
use nyc_taxi.Lifecycle.{
  Action, flush_producer, close_consumer, close_clickhouse, stop_metrics, stop_lag_monitor, Ending,
  failed, startup, producer_main, consumer_main,
}
use nyc_taxi.Lifecycle.Release.{IsEnd, main-IsEnd}

-- A broker is the names of its topics; another instance makes the second topic of each request first.
abbrev names_made : List NewTopic → List String
names_made topics = map NewTopic.topic topics

abbrev futures_of : List NewTopic → List (String × Option Error)
futures_of topics =
    map (λ t. (t.topic, some (other "KafkaException" "TOPIC_ALREADY_EXISTS"))) topics

abbrev pub racing : AdminClient (List String)
racing = record {
  list_topics = λ b. ok b;
  create_topics = λ topics b. (futures_of topics, names_made topics ++ b);
  is_kafka_exception = λ e. true;
  says_already_exists = λ e. true;
}

member-append_left :
    (name : String) (xs ys : List String) → member name xs ≡ true → member name (xs ++ ys) ≡ true
member-append_left name [] ys h = absurd (cc)
member-append_left name (x ∷ xs) ys h = ground (arith, h, member-append_left name xs ys)

member-append_right :
    (name : String) (xs ys : List String) → member name ys ≡ true → member name (xs ++ ys) ≡ true
member-append_right name [] ys h = h
member-append_right name (x ∷ xs) ys h = ground (arith, h, member-append_right name xs ys)

same_names : (topics : List NewTopic) → map (λ f. f.0) (futures_of topics) ≡ names_made topics
same_names [] = refl
same_names (t ∷ topics) = ap (λ l. t.topic ∷ l) (same_names topics)

futures_of-All :
    (topics : List NewTopic) (b : List String)
    → ((name : String) → member name (names_made topics) ≡ true → member name b ≡ true)
    → All (λ f. IsThere racing f.1 → member f.0 b ≡ true) (futures_of topics)
futures_of-All [] b h = tt
futures_of-All (t ∷ topics) b h = (
  λ there. h t.topic (rw (eq_refl t.topic) refl),
  futures_of-All topics b (λ name e. h name (ground (arith, e))),
)

pub racing-IsAdmin : IsAdmin racing (λ b. b)
racing-IsAdmin = record {
  lists = λ b existing h. sym (ok-injective h);
  answers = λ topics b. same_names topics;
  creates = λ topics b.
      futures_of-All topics (names_made topics ++ b)
        (λ name h. member-append_left name (names_made topics) b h);
  keeps = λ topics b name h. member-append_right name (names_made topics) b h;
}

-- ClickHouse cannot be closed, and the work of both processes failed.
abbrev unclosable : Action → Option Error
unclosable close_clickhouse = some (other "OSError" "connection reset")
unclosable a = none

abbrev broken : Ending
broken = failed (other "KafkaException" "broker is gone")

main-IsEnd_example :
    IsEnd unclosable
      ((flush_producer, none) ∷ (stop_metrics, none) ∷ [])
      broken
      (startup unclosable "producer" [])
      (producer_main unclosable broken)
    × IsEnd unclosable
        ((stop_lag_monitor, none)
          ∷ (close_consumer, none)
          ∷ (close_clickhouse, some (other "OSError" "connection reset"))
          ∷ (stop_metrics, none)
          ∷ [])
        broken
        (startup unclosable "consumer" [])
        (consumer_main unclosable true broken)
main-IsEnd_example = main-IsEnd unclosable broken true
