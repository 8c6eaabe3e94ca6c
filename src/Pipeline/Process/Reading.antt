-- ===== src/Pipeline/Process/Reading.antt =====
-- The loop over what the reader yields, against the rows that were read.
use nyc_taxi.Base.{
  Option-cases, length, ℕ, ◌+◌, ◌≡◌, refl, sym, ◌∙◌, subst, false, inl, inr, Option, none, some,
  List, [], ◌∷◌, arith,
}
use nyc_taxi.Python.{Dict, Error, ok, err, Result-cases}
use nyc_taxi.Trip.Model.{Trip}
use nyc_taxi.Trip.Events.{InvalidTripDetected}
use nyc_taxi.Trip.Service.{process_batch}
use nyc_taxi.Validation.{validate_batch}
use nyc_taxi.DeadLetter.{DeadLetterRecord}
use nyc_taxi.Ingestion.{
  Ports, Run, fresh_run, Step, and_then, send_record, send_records, dead_letters, publish_trips,
  reject_events, context_of, handle_batch, ingest_batch, flushed,
}
use nyc_taxi.Ingestion.Balance.{OnOk, OnOk-map, and_then-OnOk, IsBalanced, ingest_batch-IsBalanced}
use nyc_taxi.Parquet.{Yielded}
use nyc_taxi.Parquet.Rows.{}
use nyc_taxi.Topics.{}
use nyc_taxi.Topics.Laws.{}
use nyc_taxi.Lifecycle.{}
use nyc_taxi.Lifecycle.Release.{}
use nyc_taxi.Pipeline.Process.{read_from, run_reader}

OnOk-both : (P Q : Run → Type 0) (m : Step) → OnOk P m → OnOk Q m → OnOk (λ s. P s × Q s) m
OnOk-both P Q (ok u, s) h k = (h, k)
OnOk-both P Q (err e, s) h k = tt

abbrev Counts : ℕ → Run → Type 0
Counts n s = s.total_rows ≡ n

abbrev pub total_length : List (List Dict) → ℕ
total_length [] = 0
total_length (rows ∷ batches) = length rows + total_length batches

-- So many rows were handed to the publisher and the dead letter service together, and the reader
-- raised nothing in the end.
abbrev pub HandsOn : ℕ × Option Error → Run → Type 0
HandsOn (rows, end) s = (length s.published + length s.sent ≡ rows) × (end ≡ none)

send_record-Counts :
    (raises : ℕ → Option Error) (r : DeadLetterRecord) (n : ℕ) (s : Run)
    → Counts n s
    → OnOk (Counts n) (send_record raises r s)
unfolding send_record
send_record-Counts raises r n s h = elim (Option-cases (raises s.send_calls)) [
  | inl answered ↦ rw answered h
  | inr (e, refused) ↦ rw refused tt
]

send_records-Counts :
    (raises : ℕ → Option Error) (rs : List DeadLetterRecord) (n : ℕ) (s : Run)
    → Counts n s
    → OnOk (Counts n) (send_records raises rs s)
unfolding send_records
send_records-Counts raises [] n s h = h
send_records-Counts raises (r ∷ rs) n s h =
    and_then-OnOk (Counts n) (Counts n) (send_record raises r s) (send_records raises rs)
      (send_record-Counts raises r n s h) (send_records-Counts raises rs n)

module _ (p : Ports) where
  publish_trips-Counts :
      (ts : List Trip) (s : Run) → OnOk (Counts s.total_rows) (publish_trips p ts s)
  unfolding publish_trips
  publish_trips-Counts [] s = refl
  publish_trips-Counts (t ∷ ts) s = elim (Option-cases (p.publish s.publish_calls)) [
    | inl answered ↦ rw answered refl
    | inr (e, refused) ↦ rw refused tt
  ]

  reject_events-Counts :
      (es : List InvalidTripDetected) (s : Run) → OnOk (Counts s.total_rows) (reject_events p es s)
  unfolding reject_events
  reject_events-Counts es s = elim (Result-cases (dead_letters p.runtime p.failed_at es)) [
    | inl (rs, converted) ↦ rw converted (send_records-Counts p.dead_letter rs s.total_rows s refl)
    | inr (e, raised) ↦ rw raised tt
  ]

  handle_batch-Counts :
      (i : ℕ) (rows : List Dict) (s : Run) → OnOk (Counts s.total_rows) (handle_batch p i rows s)
  unfolding handle_batch
  handle_batch-Counts i rows s =
      let found = process_batch (context_of p i) rows in
      and_then-OnOk (Counts s.total_rows) (Counts s.total_rows) _ (reject_events p found.1)
        (publish_trips-Counts found.0 _)
        (λ t h.
          OnOk-map (Counts t.total_rows) (Counts s.total_rows) _ (λ u k. k ∙ h)
            (reject_events-Counts found.1 t))

  ingest_batch-Counts :
      (i : ℕ) (rows : List Dict) (s : Run)
      → OnOk (Counts (s.total_rows + length rows)) (ingest_batch p i rows s)
  unfolding ingest_batch
  ingest_batch-Counts i rows s = elim (Result-cases (validate_batch p.runtime p.pydantic rows)) [
    | inl ((valid, invalid), judged) ↦
        let read = s.total_rows + length rows in
        rw judged (
          and_then-OnOk (Counts read) (Counts read) _ (handle_batch p i valid)
            (send_records-Counts p.dead_letter _ read _ refl)
            (λ t h.
              OnOk-map (Counts t.total_rows) (Counts read) _ (λ u k. k ∙ h)
                (handle_batch-Counts i valid t)))
    | inr (e, raised) ↦ rw raised tt
  ]

  -- The whole of what the reader yields was read, and it raised nothing.
  abbrev ReadsAll : List (List Dict) → Option Error → Run → Run → Type 0
  ReadsAll batches end s t =
      IsBalanced t × (end ≡ none) × (t.total_rows ≡ s.total_rows + total_length batches)

  read_from-clear :
      (i : ℕ) (rows : List Dict) (batches : List (List Dict)) (end : Option Error) (s : Run)
      → p.shutdown i ≡ false
      → read_from p i (rows ∷ batches) end s
        ≡ and_then (ingest_batch p i rows s) (read_from p (i + 1) batches end)
  unfolding read_from
  read_from-clear i rows batches end s clear = rw (read_from, clear) refl

  read_from-ReadsAll :
      (i : ℕ) (batches : List (List Dict)) (end : Option Error) (s : Run)
      → ((n : ℕ) → p.shutdown n ≡ false)
      → IsBalanced s
      → OnOk (ReadsAll batches end s) (read_from p i batches end s)
  unfolding read_from
  read_from-ReadsAll i [] none s clear h = (h, refl, omega arith)
  read_from-ReadsAll i [] (some e) s clear h = tt
  read_from-ReadsAll i (rows ∷ batches) end s clear h =
      let Ingested : Run → Type 0 = λ t. IsBalanced t × Counts (s.total_rows + length rows) t in
      subst (OnOk (ReadsAll (rows ∷ batches) end s))
        (sym (read_from-clear i rows batches end s (clear i)))
        (and_then-OnOk Ingested (ReadsAll (rows ∷ batches) end s) (ingest_batch p i rows s)
          (read_from p (i + 1) batches end)
          (OnOk-both IsBalanced (Counts (s.total_rows + length rows)) _
            (ingest_batch-IsBalanced p i rows s h) (ingest_batch-Counts i rows s))
          (λ t (balanced, counted).
            OnOk-map (ReadsAll batches end t) (ReadsAll (rows ∷ batches) end s) _
              (λ u (all, ended, more). (all, ended, omega (arith, more, counted)))
              (read_from-ReadsAll (i + 1) batches end t clear balanced)))

  pub run_reader-HandsOn :
      (y : Yielded)
      → ((n : ℕ) → p.shutdown n ≡ false)
      → OnOk (HandsOn (total_length y.0, y.1)) (run_reader p y)
  unfolding run_reader
  run_reader-HandsOn (batches, end) clear = closed (read_from p 0 batches end fresh_run) (
      read_from-ReadsAll 0 batches end fresh_run clear
        (record { judged = omega arith; published = omega arith; sent = omega arith }))
    where
      closed :
          (m : Step)
          → OnOk (ReadsAll batches end fresh_run) m
          → OnOk (HandsOn (total_length batches, end)) (flushed p m)
      closed (ok u, s) (balanced, ended, more) =
          (omega (arith, more, balanced.judged, balanced.published, balanced.sent), ended)
      closed (err e, s) h = tt
