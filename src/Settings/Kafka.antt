-- ===== src/Settings/Kafka.antt =====
-- The settings for Kafka.
use nyc_taxi.Base.{refl, ℤ, ◌≡◌, String, ◌∙◌, sym, subst, arith, pos, ◌≤ℤ◌}
use nyc_taxi.Settings.{
  text_field, int_field, ◌⊛◌, valid, Source, KafkaSettings, ge, ge_le, kafka_settings,
}
use nyc_taxi.Settings.Laws.{
  IsValid, valid-injective, IsValid-parts, int_field-InBounds, int_field_iff, text_field-IsValid,
  IsGoodInt,
}

pub record IsUsableKafka (k : KafkaSettings) : Type 0 where
  pub timeout : pos 100 ≤ℤ k.consumer_timeout_ms
  pub retries : pos 0 ≤ℤ k.producer_retries
  pub least_size : pos 1 ≤ℤ k.batch_size
  pub greatest_size : k.batch_size ≤ℤ pos 10_000
  pub wait : pos 1 ≤ℤ k.batch_timeout_seconds

module _ (s : Source) where
  -- Each variable of the Kafka settings that is set has a value that is accepted.
  pub record IsGoodKafka : Type 0 where
    pub timeout : IsGoodInt s "KAFKA_CONSUMER_TIMEOUT_MS" (ge (pos 100))
    pub retries : IsGoodInt s "KAFKA_PRODUCER_RETRIES" (ge (pos 0))
    pub size : IsGoodInt s "KAFKA_BATCH_SIZE" (ge_le (pos 1) (pos 10_000))
    pub wait : IsGoodInt s "KAFKA_BATCH_TIMEOUT_SECONDS" (ge (pos 1))

  kafka_settings-built :
      (bootstrap_servers : String) (topic : String) (dlq_topic : String)
      (consumer_group_id : String) (consumer_timeout_ms : ℤ) (producer_acks : String)
      (producer_retries : ℤ) (batch_size : ℤ) (batch_timeout_seconds : ℤ)
      → text_field s "KAFKA_BOOTSTRAP_SERVERS" "localhost:9092" ≡ valid bootstrap_servers
      → text_field s "KAFKA_TOPIC" "nyc-taxi-trips" ≡ valid topic
      → text_field s "KAFKA_DLQ_TOPIC" "nyc-taxi-trips-dlq" ≡ valid dlq_topic
      → text_field s "KAFKA_CONSUMER_GROUP_ID" "nyc-taxi-etl-consumer" ≡ valid consumer_group_id
      → int_field s "KAFKA_CONSUMER_TIMEOUT_MS" (ge (pos 100)) (pos 5_000)
        ≡ valid consumer_timeout_ms
      → text_field s "KAFKA_PRODUCER_ACKS" "all" ≡ valid producer_acks
      → int_field s "KAFKA_PRODUCER_RETRIES" (ge (pos 0)) (pos 5) ≡ valid producer_retries
      → int_field s "KAFKA_BATCH_SIZE" (ge_le (pos 1) (pos 10_000)) (pos 500) ≡ valid batch_size
      → int_field s "KAFKA_BATCH_TIMEOUT_SECONDS" (ge (pos 1)) (pos 10)
        ≡ valid batch_timeout_seconds
      → kafka_settings s
        ≡ valid (record {
          bootstrap_servers = bootstrap_servers;
          topic = topic;
          dlq_topic = dlq_topic;
          consumer_group_id = consumer_group_id;
          consumer_timeout_ms = consumer_timeout_ms;
          producer_acks = producer_acks;
          producer_retries = producer_retries;
          batch_size = batch_size;
          batch_timeout_seconds = batch_timeout_seconds;
        })
  unfolding kafka_settings ◌⊛◌
  kafka_settings-built bootstrap_servers topic dlq_topic consumer_group_id consumer_timeout_ms
        producer_acks producer_retries batch_size batch_timeout_seconds e0 e1 e2 e3 e4 e5 e6 e7 e8 =
      rw (e0, e1, e2, e3, e4, e5, e6, e7, e8) refl

  pub kafka_settings-valid :
      (v : KafkaSettings) → kafka_settings s ≡ valid v → IsGoodKafka × IsUsableKafka v
  unfolding kafka_settings
  kafka_settings-valid v h =
      let (h8, (batch_timeout_seconds, e8)) = IsValid-parts _ _ (v, h) in
      let (h7, (batch_size, e7)) = IsValid-parts _ _ h8 in
      let (h6, (producer_retries, e6)) = IsValid-parts _ _ h7 in
      let (h5, (producer_acks, e5)) = IsValid-parts _ _ h6 in
      let (h4, (consumer_timeout_ms, e4)) = IsValid-parts _ _ h5 in
      let (h3, (consumer_group_id, e3)) = IsValid-parts _ _ h4 in
      let (h2, (dlq_topic, e2)) = IsValid-parts _ _ h3 in
      let (h1, (topic, e1)) = IsValid-parts _ _ h2 in
      let (h0, (bootstrap_servers, e0)) = IsValid-parts _ _ h1 in
      let same : record {
        bootstrap_servers = bootstrap_servers;
        topic = topic;
        dlq_topic = dlq_topic;
        consumer_group_id = consumer_group_id;
        consumer_timeout_ms = consumer_timeout_ms;
        producer_acks = producer_acks;
        producer_retries = producer_retries;
        batch_size = batch_size;
        batch_timeout_seconds = batch_timeout_seconds;
      }
          ≡ v =
        valid-injective (
          sym (
            kafka_settings-built bootstrap_servers topic dlq_topic consumer_group_id
              consumer_timeout_ms producer_acks producer_retries batch_size batch_timeout_seconds e0
              e1 e2 e3 e4 e5 e6 e7 e8)
          ∙ h) in
      (
        record {
          timeout =
              (int_field_iff s "KAFKA_CONSUMER_TIMEOUT_MS" (ge (pos 100)) (pos 5_000)).0
                (consumer_timeout_ms, e4);
          retries =
              (int_field_iff s "KAFKA_PRODUCER_RETRIES" (ge (pos 0)) (pos 5)).0
                (producer_retries, e6);
          size =
              (int_field_iff s "KAFKA_BATCH_SIZE" (ge_le (pos 1) (pos 10_000)) (pos 500)).0
                (batch_size, e7);
          wait =
              (int_field_iff s "KAFKA_BATCH_TIMEOUT_SECONDS" (ge (pos 1)) (pos 10)).0
                (batch_timeout_seconds, e8);
        },
        subst IsUsableKafka same (record {
          timeout =
              (int_field-InBounds s "KAFKA_CONSUMER_TIMEOUT_MS" (ge (pos 100)) (pos 5_000)
                consumer_timeout_ms (ground arith) e4);
          retries =
              (int_field-InBounds s "KAFKA_PRODUCER_RETRIES" (ge (pos 0)) (pos 5) producer_retries
                (ground arith) e6);
          least_size =
              (int_field-InBounds s "KAFKA_BATCH_SIZE" (ge_le (pos 1) (pos 10_000)) (pos 500)
                batch_size (ground arith) e7).0;
          greatest_size =
              (int_field-InBounds s "KAFKA_BATCH_SIZE" (ge_le (pos 1) (pos 10_000)) (pos 500)
                batch_size (ground arith) e7).1;
          wait =
              (int_field-InBounds s "KAFKA_BATCH_TIMEOUT_SECONDS" (ge (pos 1)) (pos 10)
                batch_timeout_seconds (ground arith) e8);
        }),
      )

  pub kafka_settings-made : IsGoodKafka → IsValid (kafka_settings s)
  kafka_settings-made good =
      let (bootstrap_servers, e0) =
        text_field-IsValid s "KAFKA_BOOTSTRAP_SERVERS" "localhost:9092" in
      let (topic, e1) = text_field-IsValid s "KAFKA_TOPIC" "nyc-taxi-trips" in
      let (dlq_topic, e2) = text_field-IsValid s "KAFKA_DLQ_TOPIC" "nyc-taxi-trips-dlq" in
      let (consumer_group_id, e3) =
        text_field-IsValid s "KAFKA_CONSUMER_GROUP_ID" "nyc-taxi-etl-consumer" in
      let (consumer_timeout_ms, e4) =
        (int_field_iff s "KAFKA_CONSUMER_TIMEOUT_MS" (ge (pos 100)) (pos 5_000)).1 good.timeout in
      let (producer_acks, e5) = text_field-IsValid s "KAFKA_PRODUCER_ACKS" "all" in
      let (producer_retries, e6) =
        (int_field_iff s "KAFKA_PRODUCER_RETRIES" (ge (pos 0)) (pos 5)).1 good.retries in
      let (batch_size, e7) =
        (int_field_iff s "KAFKA_BATCH_SIZE" (ge_le (pos 1) (pos 10_000)) (pos 500)).1 good.size in
      let (batch_timeout_seconds, e8) =
        (int_field_iff s "KAFKA_BATCH_TIMEOUT_SECONDS" (ge (pos 1)) (pos 10)).1 good.wait in
      (
        _,
        kafka_settings-built bootstrap_servers topic dlq_topic consumer_group_id consumer_timeout_ms
            producer_acks producer_retries batch_size batch_timeout_seconds e0 e1 e2 e3 e4 e5 e6 e7
            e8,
      )
