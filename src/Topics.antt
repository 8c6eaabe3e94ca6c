-- ===== src/Topics.antt =====
-- etl/infrastructure/kafka/topic_manager.py. The broker is a parameter.
pub mod Laws
use nyc_taxi.Base.{
  if◌then◌else◌, pos, ℕ, String, Bool, false, ◌&&◌, ◌||◌, Option, none, some, List, [], ◌∷◌, map,
  str_eq,
}
use nyc_taxi.Python.{int, Error, Result, ok, err, ◌>>=◌, ◌>>◌, Runtime}

pub record TopicConfig : Type 0 where
  pub name : String
  pub num_partitions : ℕ
  pub replication_factor : ℕ
  pub retention_ms : ℕ
  pub cleanup_policy : String
  pub compression_type : String
  pub max_message_bytes : ℕ

-- The defaults of the dataclass.
abbrev pub topic_config : String → ℕ → ℕ → TopicConfig
topic_config name partitions retention = record {
  name = name;
  num_partitions = partitions;
  replication_factor = 1;
  retention_ms = retention;
  cleanup_policy = "delete";
  compression_type = "lz4";
  max_message_bytes = 10_485_760;
}

-- `DEFAULT_TOPICS`
abbrev pub default_topics : List TopicConfig
default_topics =
    topic_config "nyc-taxi-trips" 4 604_800_000
    ∷ topic_config "nyc-taxi-trips-dlq" 1 1_209_600_000
    ∷ []

-- What `NewTopic` is made of.
pub record NewTopic : Type 0 where
  pub topic : String
  pub num_partitions : ℕ
  pub replication_factor : ℕ
  pub config : List (String × String)

-- The admin client of confluent_kafka, on brokers of any kind: the names of the topics; the creation
-- of topics, with what each future raises, if anything; and the test that an exception is a
-- KafkaException, and that its text has TOPIC_ALREADY_EXISTS in it.
pub record AdminClient {ℓ} (Broker : Type ℓ) : Type ℓ where
  pub list_topics : Broker → Result (List String)
  pub create_topics : List NewTopic → Broker → List (String × Option Error) × Broker
  pub is_kafka_exception : Error → Bool
  pub says_already_exists : Error → Bool

abbrev pub member : String → List String → Bool
member name [] = false
member name (n ∷ names) = str_eq n name || member name names

-- `[t for t in configs if t.name not in existing]`
unfoldable pub absent : List String → List TopicConfig → List TopicConfig
absent existing [] = []
absent existing (t ∷ configs) =
    if member t.name existing then absent existing configs else t ∷ absent existing configs

module _ (rt : Runtime) where
  abbrev pub number_text : ℕ → String
  number_text n = rt.text_of (int (pos n))

  unfoldable pub new_topic : TopicConfig → NewTopic
  new_topic t = record {
    topic = t.name;
    num_partitions = t.num_partitions;
    replication_factor = t.replication_factor;
    config =
        ("retention.ms", number_text t.retention_ms)
        ∷ ("cleanup.policy", t.cleanup_policy)
        ∷ ("compression.type", t.compression_type)
        ∷ ("max.message.bytes", number_text t.max_message_bytes)
        ∷ [];
  }

  module _ {ℓ} {Broker : Type ℓ} (admin : AdminClient Broker) where
    -- The loop over the futures: a topic that another instance made in between is no failure.
    unfoldable pub await_futures : List (String × Option Error) → Result (Unit {0})
    await_futures [] = ok tt
    await_futures ((name, none) ∷ futures) = await_futures futures
    await_futures ((name, some e) ∷ futures) =
        let rest = await_futures futures in
        if admin.is_kafka_exception e && admin.says_already_exists e then rest else err e

    abbrev pub create : List TopicConfig → Broker → Result (Unit {0}) × Broker
    create [] b = (ok tt, b)
    create (t ∷ configs) b =
        let (futures, after) = admin.create_topics (map new_topic (t ∷ configs)) b in
        (await_futures futures, after)

    abbrev pub create_absent :
        List TopicConfig → Result (List String) → Broker → Result (Unit {0}) × Broker
    create_absent configs (ok existing) b = create (absent existing configs) b
    create_absent configs (err e) b = (err e, b)

    -- `topics or DEFAULT_TOPICS`
    abbrev pub or_default_topics : List TopicConfig → List TopicConfig
    or_default_topics [] = default_topics
    or_default_topics (t ∷ configs) = t ∷ configs

    -- `ensure_topics_exist`, where no topics is the empty list.
    unfoldable pub ensure_topics_exist : List TopicConfig → Broker → Result (Unit {0}) × Broker
    unfolding absent new_topic await_futures
    ensure_topics_exist configs b =
        create_absent (or_default_topics configs) (admin.list_topics b) b

    -- `list_topics`, which sorts the names.
    unfoldable pub list_topics : (List String → List String) → Broker → Result (List String)
    list_topics sorted b = do existing ← admin.list_topics b; ok (sorted existing)

    -- `topic_exists`
    unfoldable pub topic_exists : String → Broker → Result Bool
    topic_exists name b = do existing ← admin.list_topics b; ok (member name existing)
