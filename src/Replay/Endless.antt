-- ===== src/Replay/Endless.antt =====
-- Replaying a file to which the replayed records are sent back.
use nyc_taxi.Base.{
  false, zero, suc, length, get_elem?, length-append, All, All-append, ℕ, ◌+◌, ◌<◌, String, ◌≡◌,
  refl, ◌∙◌, subst, false, none, some, List, [], ◌∷◌, ◌++◌, arith,
}
use nyc_taxi.Python.{Result, ok}
use nyc_taxi.Json.{dumps}
use nyc_taxi.DeadLetter.{DeadLetterRecord, as_dict}
use nyc_taxi.DeadLetter.Publisher.{Dlq, rejected_file_path, lines_of, written, send}
use nyc_taxi.DeadLetter.Publisher.Delivery.{KafkaFailsAsExpected, send_lem}
use nyc_taxi.Replay.{
  is_blank, Ports, State, read_line, context_of, updated, sent, replay_record, handle_record,
  replay_file,
}
use nyc_taxi.Trip.Service.{process_batch}
use nyc_taxi.Trip.Events.{InvalidTripDetected}

module _ {A : Type 0} (P : A → Type 0) where
  pub get_elem?-All :
      (xs : List A) (i : ℕ) → All P xs → i < length xs → (x : A) × (get_elem? xs i ≡ some x) × P x
  get_elem?-All [] i h below = absurd (omega (arith, below))
  get_elem?-All (x ∷ xs) zero h below = (x, refl, h.0)
  get_elem?-All (x ∷ xs) (suc i) h below = get_elem?-All xs i h.1 (omega (arith, below))

module _ (p : Ports) where
  -- The broker and the disk take every dead letter, or the broker refuses as `send` expects.
  pub record Answers : Type 0 where
    pub broker : (n : ℕ) → KafkaFailsAsExpected (p.outside.produce n)
    pub disk : (n : ℕ) → p.outside.write n ≡ none

  -- A line of `P` is not blank, and whenever it is replayed, its record is refused again, and what is sent back is a line
  -- of `P` for the file `path`.
  abbrev pub RefusesAgain : String → (String → Type 0) → Type 0
  RefusesAgain path P =
      (n : ℕ) (line : String)
      → P line
      → (r : DeadLetterRecord) × (e : InvalidTripDetected) × (u : DeadLetterRecord)
        × (back : String) × (is_blank p line ≡ false)
        × (read_line p n line ≡ ok r)
        × (process_batch (context_of p n r) (r.original_record ∷ []) ≡ ([], e ∷ []))
        × (updated p n r e ≡ ok u)
        × (dumps p.runtime p.outside.json (as_dict p.runtime u) ≡ ok back)
        × (rejected_file_path u.batch_id ≡ path)
        × P back

  sent-ok :
      (x : Result (Unit {0}) × Dlq) (s : State)
      → x.0 ≡ ok tt
      → sent p x s ≡ (ok false, record s { dlq = x.1 })
  sent-ok (r, d) s h = rw h refl

  -- The body of the loop on such a line.
  handle_record-refused :
      (r u : DeadLetterRecord) (e : InvalidTripDetected) (back : String) (s : State)
      → Answers
      → process_batch (context_of p s.total_replayed r) (r.original_record ∷ []) ≡ ([], e ∷ [])
      → updated p s.total_replayed r e ≡ ok u
      → dumps p.runtime p.outside.json (as_dict p.runtime u) ≡ ok back
      → ((handle_record p r s).0 ≡ ok false)
        × (lines_of (rejected_file_path u.batch_id) (handle_record p r s).1.dlq.files
            ≡ lines_of (rejected_file_path u.batch_id) s.dlq.files ++ back ∷ [])
  unfolding handle_record replay_record
  handle_record-refused r u e back s answers refused again enc =
      let (fine, _, written, _) =
        send_lem p.runtime p.outside u s.dlq back enc (answers.broker s.dlq.produce_calls) in
      rw
        (
          refused,
          again,
          sent-ok (send p.runtime p.outside u s.dlq)
              (record s { total_replayed = s.total_replayed + 1 }) fine,
        )
        (refl, written ∙ rw (answers.disk s.dlq.write_calls) refl)

  -- When all lines of a file are refused again and are sent back to that same file, replaying it
  -- never ends: no amount of fuel is enough.
  pub replay_file_endless :
      (path : String) (P : String → Type 0)
      → Answers
      → RefusesAgain path P
      → (fuel i : ℕ) (s : State) → All P (lines_of path s.dlq.files)
      → i < length (lines_of path s.dlq.files)
      → replay_file p fuel path i s ≡ none
  unfolding replay_file
  replay_file_endless path P answers refuses zero i s all below = refl
  replay_file_endless path P answers refuses (suc fuel) i s all below =
      let (line, there, holds) = get_elem?-All P (lines_of path s.dlq.files) i all below in
      let (r, e, u, back, filled, readable, refused, again, enc, home, kept) =
        refuses s.total_replayed line holds in
      let (done, grown) = handle_record-refused r u e back s answers refused again enc in
      let grown' : lines_of path (handle_record p r s).1.dlq.files
          ≡ lines_of path s.dlq.files ++ back ∷ [] =
        subst
          (λ q. lines_of q (handle_record p r s).1.dlq.files ≡ lines_of q s.dlq.files ++ back ∷ [])
          home grown in
      rw (replay_file, there, filled, readable, done)
        (replay_file_endless path P answers refuses fuel (suc i) (handle_record p r s).1
          (rw grown' (All-append P (lines_of path s.dlq.files) (back ∷ []) all (kept, tt)))
          (rw grown' (omega (arith, below, length-append (lines_of path s.dlq.files) (back ∷ [])))))
