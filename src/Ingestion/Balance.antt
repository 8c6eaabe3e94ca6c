-- ===== src/Ingestion/Balance.antt =====
-- The summary of a run against what was published and dead-lettered.
use nyc_taxi.Base.{
  suc, Bool-cases, Option-cases, length, length-append, length-map, ℕ, suc, ◌+◌, String, ◌≡◌, refl,
  Option, ap, subst, inl, inr, List, [], ◌∷◌, map, arith,
}
use nyc_taxi.Python.{Datetime, Dict, Error, Result, ok, err, >>=-elim, ok-injective, Runtime}
use nyc_taxi.Trip.Model.{Trip, to_dict}
use nyc_taxi.Trip.Events.{InvalidTripDetected}
use nyc_taxi.Trip.Service.{process_batch}
use nyc_taxi.DeadLetter.{DeadLetterRecord, from_invalid_event}
use nyc_taxi.Trip.Deduplicator.Split.{length-IsMerge}
use nyc_taxi.Trip.Service.Accounting.{process_batch_accounts}
use nyc_taxi.Validation.{validate_batch}
use nyc_taxi.Validation.Schema.{validate_batch-IsMerge}
use nyc_taxi.Ingestion.{
  Ports, Run, fresh_run, Step, and_then, send_record, send_records, dead_letters, schema_record,
  publish_trips, reject_events, context_of, handle_batch, ingest_batch, run_from, run,
}

-- `P` of the state, if the step did not raise.
abbrev pub OnOk : (Run → Type 0) → Step → Type 0
OnOk P (ok u, s) = P s
OnOk P (err e, s) = Unit

pub and_then-OnOk :
    (P Q : Run → Type 0) (m : Step) (f : Run → Step)
    → OnOk P m
    → ((s : Run) → P s → OnOk Q (f s))
    → OnOk Q (and_then m f)
and_then-OnOk P Q (ok u, s) f h k = k s h
and_then-OnOk P Q (err e, s) f h k = tt

-- `rows` rows are counted and not yet judged, `trips` trips not yet published and `events` events
-- not yet sent.
record Owes (rows trips events : ℕ) (s : Run) : Type 0 where
  judged : s.total_rows ≡ s.total_valid + s.total_invalid + s.total_schema_rejected + rows
  published : length s.published + trips ≡ s.total_valid
  sent : length s.sent + events ≡ s.total_invalid + s.total_schema_rejected

-- The rows read are as many as the totals say together; as many messages are published as rows count
-- as valid, and as many records sent as rows count as invalid or rejected.
pub record IsBalanced (s : Run) : Type 0 where
  pub judged : s.total_rows ≡ s.total_valid + s.total_invalid + s.total_schema_rejected
  pub published : length s.published ≡ s.total_valid
  pub sent : length s.sent ≡ s.total_invalid + s.total_schema_rejected

length-dead_letters :
    (rt : Runtime) (at : Datetime) (es : List InvalidTripDetected) (rs : List DeadLetterRecord)
    → dead_letters rt at es ≡ ok rs
    → length rs ≡ length es
unfolding dead_letters
length-dead_letters rt at [] rs h = subst (λ l. length l ≡ 0) (ok-injective h) refl
length-dead_letters rt at (e ∷ es) rs h = >>=-elim (from_invalid_event rt at e) _ h λ r _ h₁.
    >>=-elim (dead_letters rt at es) _ h₁ λ ls el h₂.
      subst (λ l. length l ≡ suc (length es)) (ok-injective h₂)
        (ap suc (length-dead_letters rt at es ls el))

send_record-Owes :
    (raises : ℕ → Option Error) (r : DeadLetterRecord) (rows trips events : ℕ) (s : Run)
    → Owes rows trips (suc events) s
    → OnOk (Owes rows trips events) (send_record raises r s)
unfolding send_record
send_record-Owes raises r rows trips events s h = elim (Option-cases (raises s.send_calls)) [
  | inl answered ↦ rw answered (record {
    judged = h.judged;
    published = h.published;
    sent = omega (arith, h.sent, length-append s.sent (r ∷ []));
  })
  | inr (e, refused) ↦ rw refused tt
]

send_records-Owes :
    (raises : ℕ → Option Error) (rs : List DeadLetterRecord) (rows trips : ℕ) (s : Run)
    → Owes rows trips (length rs) s
    → OnOk (Owes rows trips 0) (send_records raises rs s)
unfolding send_records
send_records-Owes raises [] rows trips s h = h
send_records-Owes raises (r ∷ rs) rows trips s h =
    and_then-OnOk (Owes rows trips (length rs)) (Owes rows trips 0) (send_record raises r s)
      (send_records raises rs) (send_record-Owes raises r rows trips (length rs) s h)
      (send_records-Owes raises rs rows trips)

pub OnOk-map : (P Q : Run → Type 0) (m : Step) → ((s : Run) → P s → Q s) → OnOk P m → OnOk Q m
OnOk-map P Q (ok u, s) f h = f s h
OnOk-map P Q (err e, s) f h = tt

module _ (p : Ports) where
  publish_trips-Owes :
      (ts : List Trip) (events : ℕ) (s : Run)
      → Owes 0 (length ts) events s
      → OnOk (Owes 0 0 events) (publish_trips p ts s)
  unfolding publish_trips
  publish_trips-Owes [] events s h = h
  publish_trips-Owes (t ∷ ts) events s h = elim (Option-cases (p.publish s.publish_calls)) [
    | inl answered ↦ rw answered (record {
      judged = h.judged;
      published = omega (
        arith,
        h.published,
        length-append s.published (map (to_dict p.runtime) (t ∷ ts)),
        length-map ts (to_dict p.runtime),
      );
      sent = h.sent;
    })
    | inr (e, refused) ↦ rw refused tt
  ]

  reject_events-Owes :
      (es : List InvalidTripDetected) (s : Run)
      → Owes 0 0 (length es) s
      → OnOk IsBalanced (reject_events p es s)
  unfolding reject_events
  reject_events-Owes es s h = converted (dead_letters p.runtime p.failed_at es) refl
    where
      converted :
          (r : Result (List DeadLetterRecord))
          → dead_letters p.runtime p.failed_at es ≡ r
          → OnOk IsBalanced (reject_events p es s)
      converted (ok rs) e =
          let as_many = length-dead_letters p.runtime p.failed_at es rs e in
          rw e (
            OnOk-map (Owes 0 0 0) IsBalanced (send_records p.dead_letter rs s)
              (λ t owes. record {
                judged = omega (arith, owes.judged);
                published = omega (arith, owes.published);
                sent = omega (arith, owes.sent);
              })
              (send_records-Owes p.dead_letter rs 0 0 s (record {
                judged = h.judged;
                published = h.published;
                sent = omega (arith, h.sent, as_many);
              })))
      converted (err x) e = rw e tt

  handle_batch-Owes :
      (i : ℕ) (rows : List Dict) (s : Run)
      → Owes (length rows) 0 0 s
      → OnOk IsBalanced (handle_batch p i rows s)
  unfolding handle_batch
  handle_batch-Owes i rows s h =
      let found = process_batch (context_of p i) rows in
      let all = process_batch_accounts (context_of p i) rows in
      and_then-OnOk (Owes 0 0 (length found.1)) IsBalanced _ (reject_events p found.1)
        (publish_trips-Owes found.0 (length found.1) _ (record {
          judged = omega (arith, h.judged, all);
          published = omega (arith, h.published);
          sent = omega (arith, h.sent);
        }))
        (reject_events-Owes found.1)

  pub ingest_batch-IsBalanced :
      (i : ℕ) (rows : List Dict) (s : Run)
      → IsBalanced s
      → OnOk IsBalanced (ingest_batch p i rows s)
  unfolding ingest_batch
  ingest_batch-IsBalanced i rows s h = judged (validate_batch p.runtime p.pydantic rows) refl
    where
      judged :
          (r : Result (List Dict × List (Dict × String)))
          → validate_batch p.runtime p.pydantic rows ≡ r
          → OnOk IsBalanced (ingest_batch p i rows s)
      judged (err x) e = rw e tt
      judged (ok (valid, invalid)) e =
          let merged =
            length-IsMerge (validate_batch-IsMerge p.runtime p.pydantic rows (valid, invalid) e) in
          let rejected = map (schema_record p (p.correlation_id i)) invalid in
          rw e (
            and_then-OnOk (Owes (length valid) 0 0) IsBalanced _ (handle_batch p i valid)
              (send_records-Owes p.dead_letter rejected (length valid) 0 _ (record {
                judged =
                    omega
                      (arith, h.judged, merged, length-map invalid (λ (q : Dict × String). q.0));
                published = omega (arith, h.published);
                sent =
                    omega
                      (arith, h.sent, length-map invalid (schema_record p (p.correlation_id i)));
              }))
              (handle_batch-Owes i valid))

  run_from-IsBalanced :
      (i : ℕ) (batches : List (List Dict)) (s : Run)
      → IsBalanced s
      → OnOk IsBalanced (run_from p i batches s)
  unfolding run_from
  run_from-IsBalanced i [] s h = h
  run_from-IsBalanced i (rows ∷ batches) s h = elim (Bool-cases (p.shutdown i)) [
    | inl stop ↦ rw (stop, run_from) h
    | inr more ↦
        rw (more, run_from)
          (and_then-OnOk IsBalanced IsBalanced (ingest_batch p i rows s)
            (run_from p (i + 1) batches) (ingest_batch-IsBalanced i rows s h)
            (run_from-IsBalanced (i + 1) batches))
  ]

  pub flushed-IsBalanced :
      (m : Step)
      → OnOk IsBalanced m
      → OnOk IsBalanced (m.0, record (m.1) { flushes = (m.1).flushes + 1 })
  flushed-IsBalanced (ok u, s) h = record {
    judged = h.judged;
    published = h.published;
    sent = h.sent;
  }
  flushed-IsBalanced (err e, s) h = tt

  -- Whatever the batches, the broker, the dead letter service and the shutdown flag: when `run` returns its summary, the rows
  -- that were read are as many as those counted valid, invalid and rejected by the schema, as many
  -- messages were handed to the publisher by calls that returned as rows count as valid, and as many
  -- records to the dead letter service as rows count as invalid or rejected.
  pub run-IsBalanced : (batches : List (List Dict)) → OnOk IsBalanced (run p batches)
  unfolding run
  run-IsBalanced batches = flushed-IsBalanced (run_from p 0 batches fresh_run) (
      run_from-IsBalanced 0 batches fresh_run
        (record { judged = omega arith; published = omega arith; sent = omega arith }))
