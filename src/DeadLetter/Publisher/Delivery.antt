-- ===== src/DeadLetter/Publisher/Delivery.antt =====
-- That the two destinations of a dead letter do not depend on one another.
use nyc_taxi.Base.{
  ◌⊎◌, Bool-cases, String, ◌≡◌, refl, sym, inl, inr, true, false, Option, none, some, List, [], ◌∷◌,
  ◌++◌, str_eq,
}
use nyc_taxi.Python.{Error, ok, err, Runtime}
use nyc_taxi.Json.{dumps}
use nyc_taxi.DeadLetter.{DeadLetterRecord, as_dict}
use nyc_taxi.DeadLetter.Publisher.{
  Outside, Dlq, rejected_file_path, lines_of, append_line, is_kafka_error, message_key, send,
  send_batch,
}
use mathlib.Core.List.{append-nil}
use text.Mathlib.TextPositions.{eq_refl}

-- What the `produce` with this outcome adds to the queue for the topic.
abbrev pub enqueued_by : DeadLetterRecord → String → Option Error → List (String × String)
enqueued_by r payload none = (message_key r, payload) ∷ []
enqueued_by r payload (some e) = []

-- What the call with this outcome adds to the file.
abbrev pub sent_to_file : String → Option Error → List String
sent_to_file line none = line ∷ []
sent_to_file line (some e) = []

-- The broker answers, or raises one of the two exceptions that are caught.
abbrev pub KafkaFailsAsExpected : Option Error → Type 0
KafkaFailsAsExpected none = Unit
KafkaFailsAsExpected (some e) = is_kafka_error e ≡ true

lines_of-append_line :
    (path line : String) (files : List (String × List String))
    → lines_of path (append_line path line files) ≡ lines_of path files ++ line ∷ []
unfolding lines_of append_line
lines_of-append_line path line [] = simp eq_refl
lines_of-append_line path line ((p, ls) ∷ files) = elim (Bool-cases (str_eq p path)) [
  | inl same ↦ simp same
  | inr differs ↦ simp differs (lines_of-append_line path line files)
]

module _ (rt : Runtime) (o : Outside) (r : DeadLetterRecord) where
  -- Both destinations are served independently: if the record can be encoded and `produce` raises
  -- nothing but KafkaException or BufferError, `send` returns, the record is enqueued for the topic
  -- unless `produce` raised, the file of its batch gains it unless the disk raised, and it is
  -- counted once, also when neither destination took it.
  pub send_lem :
      (s : Dlq) (line : String)
      → dumps rt o.json (as_dict rt r) ≡ ok line
      → KafkaFailsAsExpected (o.produce s.produce_calls)
      → ((send rt o r s).0 ≡ ok tt)
        × ((send rt o r s).1.enqueued
            ≡ s.enqueued ++ enqueued_by r line (o.produce s.produce_calls))
        × (lines_of (rejected_file_path r.batch_id) (send rt o r s).1.files
            ≡ lines_of (rejected_file_path r.batch_id) s.files
              ++ sent_to_file line (o.write s.write_calls))
        × ((send rt o r s).1.counted ≡ s.counted ++ r.stage ∷ [])
  unfolding send
  send_lem s line enc kafka =
      kafka_case (o.produce s.produce_calls) refl kafka (o.write s.write_calls) refl
    where
      kafka_case :
          (k : Option Error)
          → o.produce s.produce_calls ≡ k
          → KafkaFailsAsExpected k
          → (w : Option Error) → o.write s.write_calls ≡ w
          → ((send rt o r s).0 ≡ ok tt)
            × ((send rt o r s).1.enqueued ≡ s.enqueued ++ enqueued_by r line k)
            × (lines_of (rejected_file_path r.batch_id) (send rt o r s).1.files
                ≡ lines_of (rejected_file_path r.batch_id) s.files ++ sent_to_file line w)
            × ((send rt o r s).1.counted ≡ s.counted ++ r.stage ∷ [])
      kafka_case none ek h none ew =
          rw (enc, ek, enc, ew)
            (refl, refl, lines_of-append_line (rejected_file_path r.batch_id) line s.files, refl)
      kafka_case none ek h (some f) ew =
          rw (enc, ek, enc, ew) (refl, refl, sym (append-nil _), refl)
      kafka_case (some e) ek h none ew =
          rw (enc, ek, h, enc, ew)
            (
              refl,
              sym (append-nil _),
              lines_of-append_line (rejected_file_path r.batch_id) line s.files,
              refl,
            )
      kafka_case (some e) ek h (some f) ew =
          rw (enc, ek, h, enc, ew) (refl, sym (append-nil _), sym (append-nil _), refl)

  -- What a `send` that returns makes of the state: the record is counted once; it is enqueued unless
  -- `produce` raises, and written unless the disk raises; but if the encoder raises what is taken
  -- for an exception of the broker, neither.
  abbrev pub Serves : Dlq → Dlq → Type 0
  Serves s t =
      (t.counted ≡ s.counted ++ r.stage ∷ [])
      × (((line : String) × (dumps rt o.json (as_dict rt r) ≡ ok line)
            × (t.enqueued ≡ s.enqueued ++ enqueued_by r line (o.produce s.produce_calls))
            × (lines_of (rejected_file_path r.batch_id) t.files
                ≡ lines_of (rejected_file_path r.batch_id) s.files
                  ++ sent_to_file line (o.write s.write_calls)))
          ⊎ ((e : Error) × (dumps rt o.json (as_dict rt r) ≡ err e)
              × (is_kafka_error e ≡ true)
              × (t.enqueued ≡ s.enqueued)
              × (t.files ≡ s.files)))

  abbrev Returns : Dlq → Type 0
  Returns s = ((send rt o r s).0 ≡ ok tt) × Serves s (send rt o r s).1

  -- The encoder raises what `send` does not catch, and nothing is done.
  abbrev Escapes : Dlq → Type 0
  Escapes s =
      (e : Error) × (dumps rt o.json (as_dict rt r) ≡ err e)
      × (is_kafka_error e ≡ false)
      × (send rt o r s ≡ (err e, s))

module _ (rt : Runtime) (o : Outside) where
  -- The records were served one after the other, between the two states.
  abbrev pub AllServed : List DeadLetterRecord → Dlq → Dlq → Type 0
  AllServed [] s t = t ≡ s
  AllServed (r ∷ rs) s t = (u : Dlq) × Serves rt o r s u × AllServed rs u t

  -- `send_batch` returned and served every record.
  abbrev pub ServesAll : List DeadLetterRecord → Dlq → Type 0
  ServesAll rs s = ((send_batch rt o rs s).0 ≡ ok tt) × AllServed rs s (send_batch rt o rs s).1

  -- `send_batch` served the records before one that cannot be encoded, and none from it on.
  abbrev pub BreaksOff : List DeadLetterRecord → Dlq → Type 0
  BreaksOff rs s =
      (before : List DeadLetterRecord) × (r : DeadLetterRecord) × (after : List DeadLetterRecord)
      × (e : Error) × (rs ≡ before ++ r ∷ after)
      × (dumps rt o.json (as_dict rt r) ≡ err e)
      × (is_kafka_error e ≡ false)
      × ServesAll before s
      × (send_batch rt o rs s ≡ (err e, (send_batch rt o before s).1))
