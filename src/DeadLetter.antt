-- ===== src/DeadLetter.antt =====
-- etl/domain/dead_letter/models.py: the record of a failed row.
pub mod Publisher
use nyc_taxi.Base.{if◌then◌else◌, ℤ, pos, String, ◌≡◌, refl, Option, none, some, [], ◌∷◌, str_eq}
use nyc_taxi.Python.{
  Datetime, Value, null, int, str, dict, Dict, empty, entry, concat, value_error, Result, ok, err,
  ◌>>=◌, ◌>>◌, Runtime,
}
use nyc_taxi.Trip.Events.{ProcessingStage, InvalidTripDetected}

pub data DeadLetterStage : Type 0 where
  parsing normalization enrichment validation deduplication persist : DeadLetterStage

-- `stage.value`
unfoldable pub stage_value : DeadLetterStage → String
stage_value parsing = "parsing"
stage_value normalization = "normalization"
stage_value enrichment = "enrichment"
stage_value validation = "validation"
stage_value deduplication = "deduplication"
stage_value persist = "persist"

-- `ProcessingStage.value`
unfoldable pub processing_value : ProcessingStage → String
processing_value ProcessingStage.parsing = "parsing"
processing_value ProcessingStage.normalization = "normalization"
processing_value ProcessingStage.enrichment = "enrichment"
processing_value ProcessingStage.validation = "validation"
processing_value ProcessingStage.deduplication = "deduplication"
processing_value ProcessingStage.persist = "persist"

-- `DeadLetterStage(text)`
unfoldable pub stage_of_value : Runtime → String → Result DeadLetterStage
stage_of_value rt s =
    if str_eq s "parsing"
    then ok parsing
    else if str_eq s "normalization"
    then ok normalization
    else if str_eq s "enrichment"
    then ok enrichment
    else if str_eq s "validation"
    then ok validation
    else if str_eq s "deduplication"
    then ok deduplication
    else if str_eq s "persist"
    then ok persist
    else err (value_error (concat (rt.repr_of (str s) ∷ " is not a valid DeadLetterStage" ∷ [])))

pub record DeadLetterRecord : Type 0 where
  pub original_record : Dict
  pub error_message : String
  pub error_type : String
  pub stage : DeadLetterStage
  pub batch_id : String
  pub source_file : String
  pub trip_id : Option String
  pub failed_at : Datetime
  pub retry_count : ℤ

-- `DeadLetterRecord.from_invalid_event(event)`; `at` is the default of `failed_at`.
unfoldable pub from_invalid_event :
    Runtime → Datetime → InvalidTripDetected → Result DeadLetterRecord
unfolding stage_of_value processing_value
from_invalid_event rt at event = do
  stage ← stage_of_value rt (processing_value event.stage)
  ok (record {
    original_record = event.original_record;
    error_message = event.error_message;
    error_type = event.error_type;
    stage = stage;
    batch_id = event.batch_id;
    source_file = event.source_file;
    trip_id = event.trip_id;
    failed_at = at;
    retry_count = pos 0;
  })

abbrev pub optional_text : Option String → Value
optional_text none = null
optional_text (some s) = str s

-- `as_dict`
unfoldable pub as_dict : Runtime → DeadLetterRecord → Dict
unfolding stage_value
as_dict rt r = entry "trip_id" (optional_text r.trip_id) (
    entry "original_record" (dict r.original_record) (
      entry "error_message" (str r.error_message) (
        entry "error_type" (str r.error_type) (
          entry "stage" (str (stage_value r.stage)) (
            entry "batch_id" (str r.batch_id) (
              entry "source_file" (str r.source_file) (
                entry "failed_at" (str (rt.isoformat r.failed_at))
                  (entry "retry_count" (int r.retry_count) empty))))))))

pub stage_of_value-stage_value :
    (rt : Runtime) (s : DeadLetterStage) → stage_of_value rt (stage_value s) ≡ ok s
unfolding stage_of_value stage_value
stage_of_value-stage_value rt parsing = refl
stage_of_value-stage_value rt normalization = refl
stage_of_value-stage_value rt enrichment = refl
stage_of_value-stage_value rt validation = refl
stage_of_value-stage_value rt deduplication = refl
stage_of_value-stage_value rt persist = refl

-- The record of an event exists for every stage.
pub stage_of_value-processing_value :
    (rt : Runtime) (s : ProcessingStage)
    → (d : DeadLetterStage) × (stage_of_value rt (processing_value s) ≡ ok d)
      × (stage_value d ≡ processing_value s)
unfolding stage_of_value stage_value processing_value
stage_of_value-processing_value rt ProcessingStage.parsing = (parsing, refl, refl)
stage_of_value-processing_value rt ProcessingStage.normalization = (normalization, refl, refl)
stage_of_value-processing_value rt ProcessingStage.enrichment = (enrichment, refl, refl)
stage_of_value-processing_value rt ProcessingStage.validation = (validation, refl, refl)
stage_of_value-processing_value rt ProcessingStage.deduplication = (deduplication, refl, refl)
stage_of_value-processing_value rt ProcessingStage.persist = (persist, refl, refl)

-- For every event: the dead letter record exists, with the stage of the same name, a retry count of
-- 0, and all else as in the event.
pub from_invalid_event_total :
    (rt : Runtime) (at : Datetime) (e : InvalidTripDetected)
    → (r : DeadLetterRecord) × (from_invalid_event rt at e ≡ ok r)
      × (stage_value r.stage ≡ processing_value e.stage)
      × (r.original_record ≡ e.original_record)
      × (r.error_message ≡ e.error_message)
      × (r.error_type ≡ e.error_type)
      × (r.batch_id ≡ e.batch_id)
      × (r.source_file ≡ e.source_file)
      × (r.trip_id ≡ e.trip_id)
      × (r.retry_count ≡ pos 0)
unfolding from_invalid_event
from_invalid_event_total rt at e =
    let (d, found, named) = stage_of_value-processing_value rt e.stage in
    (
      record {
        original_record = e.original_record;
        error_message = e.error_message;
        error_type = e.error_type;
        stage = d;
        batch_id = e.batch_id;
        source_file = e.source_file;
        trip_id = e.trip_id;
        failed_at = at;
        retry_count = pos 0;
      },
      rw found,
      named,
      refl,
      refl,
      refl,
      refl,
      refl,
      refl,
      refl,
    )
