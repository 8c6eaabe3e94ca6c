-- ===== src/DeadLetter/Publisher.antt =====
-- etl/infrastructure/kafka/dead_letter_publisher.py: each record is enqueued for the
-- DLQ topic and written to a file of its batch. What the broker and the disk do is given by how often
-- they were called.
pub mod Delivery
use nyc_taxi.Base.{
  if◌then◌else◌, ℕ, ◌+◌, String, Bool, ◌||◌, Option, none, some, List, [], ◌∷◌, ◌++◌, str_eq,
}
use nyc_taxi.Python.{Dict, concat, Error, error_type, Result, ok, err, Runtime}
use nyc_taxi.Json.{JsonModule, dumps}
use nyc_taxi.DeadLetter.{DeadLetterStage, DeadLetterRecord, as_dict}

-- The json module; what the n-th `produce` and the n-th write raise, if anything.
pub record Outside : Type 0 where
  pub json : JsonModule
  pub produce : ℕ → Option Error
  pub write : ℕ → Option Error

-- What `produce` enqueued for the DLQ topic, as (key, payload), the files as lines by name, and
-- `dlq_records_total`.
pub record Dlq : Type 0 where
  pub enqueued : List (String × String)
  pub files : List (String × List String)
  pub produce_calls : ℕ
  pub write_calls : ℕ
  pub counted : List DeadLetterStage

-- `rejected_file_path` (etl/utils/compression.py), below the directory of rejected files.
unfoldable pub rejected_file_path : String → String
unfolding concat
rejected_file_path batch_id = concat (batch_id ∷ ".jsonl.gz" ∷ [])

-- The lines of a file; a file that is not there has none.
unfoldable pub lines_of : String → List (String × List String) → List String
lines_of path [] = []
lines_of path ((p, lines) ∷ files) = if str_eq p path then lines else lines_of path files

-- `write_jsonl_gz`: append a line, in a new file if there is none.
unfoldable pub append_line :
    String → String → List (String × List String) → List (String × List String)
append_line path line [] = (path, line ∷ []) ∷ []
append_line path line ((p, lines) ∷ files) =
    if str_eq p path
    then (p, lines ++ line ∷ []) ∷ files
    else (p, lines) ∷ append_line path line files

-- `except (KafkaException, BufferError)`
unfoldable pub is_kafka_error : Error → Bool
unfolding error_type
is_kafka_error e = str_eq (error_type e) "KafkaException" || str_eq (error_type e) "BufferError"

-- `(record.trip_id or record.batch_id)`
unfoldable pub message_key : DeadLetterRecord → String
message_key r = key_of r.trip_id
  where
    key_of : Option String → String
    key_of none = r.batch_id
    key_of (some id) = if str_eq id "" then r.batch_id else id

abbrev pub Step : Type 0
Step = Result (Unit {0}) × Dlq

abbrev pub caught_kafka : Error → Dlq → Step
caught_kafka e s = (if is_kafka_error e then ok tt else err e, s)

module _ (rt : Runtime) (o : Outside) where
  abbrev pub produced : DeadLetterRecord → String → Option Error → Dlq → Step
  produced r payload none s = (
    ok tt,
    record s {
      enqueued = s.enqueued ++ (message_key r, payload) ∷ [];
      produce_calls = s.produce_calls + 1;
    },
  )
  produced r payload (some e) s = caught_kafka e (record s { produce_calls = s.produce_calls + 1 })

  abbrev pub produce_payload : DeadLetterRecord → Result String → Dlq → Step
  produce_payload r (ok payload) s = produced r payload (o.produce s.produce_calls) s
  produce_payload r (err e) s = caught_kafka e s

  -- `_write_to_kafka`
  unfoldable pub write_to_kafka : DeadLetterRecord → Dlq → Step
  unfolding is_kafka_error
  write_to_kafka r s = produce_payload r (dumps rt o.json (as_dict rt r)) s

  abbrev pub written : DeadLetterRecord → String → Option Error → Dlq → Dlq
  written r line none s = record s {
    files = append_line (rejected_file_path r.batch_id) line s.files;
    write_calls = s.write_calls + 1;
  }
  written r line (some e) s = record s { write_calls = s.write_calls + 1 }

  abbrev pub write_line : DeadLetterRecord → Result String → Dlq → Dlq
  write_line r (ok line) s = written r line (o.write s.write_calls) s
  write_line r (err e) s = s

  -- `_write_to_disk`: every exception is caught.
  unfoldable pub write_to_disk : DeadLetterRecord → Dlq → Dlq
  write_to_disk r s = write_line r (dumps rt o.json (as_dict rt r)) s

  abbrev pub after_kafka : DeadLetterRecord → Step → Step
  after_kafka r (ok u, s) =
      let t = write_to_disk r s in (ok tt, record t { counted = t.counted ++ r.stage ∷ [] })
  after_kafka r (err e, s) = (err e, s)

  unfoldable pub send : DeadLetterRecord → Dlq → Step
  unfolding write_to_kafka write_to_disk
  send r s = after_kafka r (write_to_kafka r s)

  -- `send_batch`: the loop ends at the first record whose `send` raises.
  unfoldable pub send_batch : List DeadLetterRecord → Dlq → Step
  send_batch [] s = (ok tt, s)
  send_batch (r ∷ rs) s = let (result, t) = send r s in next result (send_batch rs t) t
    where
      next : Result (Unit {0}) → Step → Dlq → Step
      next (ok u) rest t = rest
      next (err e) rest t = (err e, t)

-- `flush`, given how many messages the client says are left or what it raises. Both are logged, but for
-- an exception other than KafkaException.
unfoldable pub flush : Result ℕ → Result (Unit {0})
unfolding error_type
flush (ok remaining) = ok tt
flush (err e) = if str_eq (error_type e) "KafkaException" then ok tt else err e
