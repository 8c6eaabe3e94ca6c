-- ===== src/Lib.antt =====
-- NYC Taxi ETL: a model of the pipeline of etl/, and what is proved of it.
--
-- The producer reads batches of raw rows, checks each row against a schema, and runs the accepted
-- rows through the domain pipeline (normalise, parse, enrich, validate, deduplicate). Trips go to a
-- Kafka topic, rejected rows to the dead letter service, which writes each to a topic and to a file.
-- The consumer gathers messages into batches, inserts them and commits the offset. Dead letters on
-- disk can be replayed through the pipeline.
--
-- Which file models what:
--   Base                 numbers, lists, tests and signed integers that all files share
--   Python               values, dicts, exceptions, int() and float(); `Runtime` holds what the
--                        interpreter and pandas do: text of numbers, SHA-256, parsing of dates
--   Json                 etl/utils/json.py; its child Files has the files of etl/utils/compression.py
--   Timestamp            etl/utils/datetime.py
--   Trip.Model           etl/domain/trip/models.py
--   Trip.Events          etl/domain/trip/events.py, and `_stage_from_exception` of services.py
--   Trip.Normalizer      etl/domain/trip/normalizers.py
--   Trip.Validator       etl/domain/trip/validators.py
--   Trip.Deduplicator    etl/domain/trip/deduplicator.py
--   Trip.Hashing         etl/utils/hashing.py
--   Trip.Service         etl/domain/trip/services.py, and `enrich` of enrichers.py; its child Build has
--                        `_build_trip`
--   Validation           etl/application/services/validation_service.py
--   Ingestion            etl/application/services/ingestion_service.py, ingestion/process_batch.py and
--                        ingestion/process_trip.py; its child Summary has the rates of the summaries
--   DeadLetter           etl/domain/dead_letter/models.py; its child Publisher has
--                        etl/infrastructure/kafka/dead_letter_publisher.py and utils/compression.py
--   Consumer             etl/runtime/batching.py, etl/infrastructure/kafka/consumer.py, and the loop of
--                        etl/entrypoints/consumer.py; its child Restarts has a group whose process dies
--                        and is started again
--   Replay               etl/application/ingestion/replay_dlq.py; its child Run has `handle` with the
--                        choice of the files
--   Retry                etl/runtime/retry.py
--   Producer             etl/infrastructure/kafka/producer.py, and `serialize` of serializer.py; its child
--                        Queue has the delivery of what the client library took, and `flush`
--   Zones                etl/infrastructure/storage/zone_lookup.py; its child Enrichment has
--                        etl/application/services/enrichment_service.py
--   Migrations           etl/infrastructure/clickhouse/schema_manager.py; its child Apply has
--                        etl/entrypoints/schema_apply.py
--   ClickHouse           client.py, inserter.py and repository.py of etl/infrastructure/clickhouse
--   Parquet              etl/infrastructure/storage/parquet_reader.py
--   Topics               etl/infrastructure/kafka/topic_manager.py
--   Lifecycle            etl/runtime/lifecycle.py and shutdown.py, and `main` of etl/entrypoints/producer.py and
--                        etl/entrypoints/consumer.py around their work
--   Pipeline             what the producer and the consumer do together; its child Storage puts the
--                        repository of ClickHouse in the place of the consumer's insert, and Process
--                        and Consuming have `main` of etl/entrypoints/producer.py and consumer.py with
--                        what they call
--   Monitoring           health.py and kafka_lag.py of etl/infrastructure/monitoring; its children
--                        Endpoint and Server have etl/entrypoints/health_server.py, and Polling
--                        etl/runtime/lag_monitor_loop.py
--   Settings             etl/config/settings.py; its child Process makes the consumer's limits from them
--   Observability        correlation.py, structured_logging.py and tracing.py of etl/observability
-- The children of these files hold the proofs. Samples and Witnesses have concrete inputs.
--
-- A method keeps its name. An exception is a value of `Error` and a function that can raise returns a
-- `Result`; what it changes is a state that is passed on, and what was done before an exception
-- stays done. Brokers, disk, database, clocks, ids, signals and the encoders are parameters, mostly
-- functions of how often they were called, so that each call may fail or not by itself. Integers are
-- Python's, without bounds; a float is a sign, a mantissa and an exponent, or nan or infinite.
-- What the other parts log and trace, and metrics other than the counters, are left out.
--
-- The loops recurse on the list of what they read. The one exception is the replay of a file, which
-- can grow while it is read: it takes fuel, one unit for each line that it comes to and one for the
-- end, and `none` is a replay that needs more.
--
-- Not modelled: pydantic's own field checks (a parameter of Validation) and how it reads an int from a
-- variable (a parameter of Settings); pyarrow and the drivers of Kafka and ClickHouse, of which
-- ClickHouse, Parquet and Topics state what they rely on; the registration of signal handlers, the
-- start of threads, the HTTP server of the health report, and the declarations of the metrics.
pub mod Base
pub mod Python
pub mod Timestamp
pub mod Json
pub mod ClickHouse
pub mod Pipeline
pub mod Parquet
pub mod Topics
pub mod Lifecycle
pub mod Trip
pub mod Validation
pub mod DeadLetter
pub mod Ingestion
pub mod Consumer
pub mod Retry
pub mod Settings
pub mod Observability
pub mod Producer
pub mod Monitoring
pub mod Zones
pub mod Migrations
pub mod Replay
pub mod Samples
pub mod Witnesses
