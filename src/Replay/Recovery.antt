-- ===== src/Replay/Recovery.antt =====
-- Replaying a file whose records are all accepted now.
use nyc_taxi.Base.{
  ◌<◌, false, zero, suc, length, get_elem?, length-append, All, ℕ, ◌+◌, String, ◌≡◌, refl, ap, ◌∙◌,
  true, none, some, List, [], ◌∷◌, ◌++◌, arith,
}
use nyc_taxi.Python.{ok}
use nyc_taxi.DeadLetter.{DeadLetterRecord}
use nyc_taxi.DeadLetter.Publisher.{lines_of}
use nyc_taxi.Replay.{
  is_blank, Ports, State, read_line, context_of, replay_record, handle_record, replay_file,
}
use nyc_taxi.Replay.Endless.{get_elem?-All}
use nyc_taxi.Trip.Service.{process_batch}
use nyc_taxi.Trip.Model.{Trip, to_dict}

get_elem?-past {ℓ} : {A : Type ℓ} (xs : List A) (i : ℕ) → i ≡ length xs → get_elem? xs i ≡ none
get_elem?-past [] i h = refl
get_elem?-past (x ∷ xs) zero h = absurd (omega (arith, h))
get_elem?-past (x ∷ xs) (suc i) h = get_elem?-past xs i (omega (arith, h))

module _ (p : Ports) where
  -- A line of `P` is not blank, and whenever it is replayed, its record gives a trip, and the broker takes it.
  abbrev pub Recovers : (String → Type 0) → Type 0
  Recovers P =
      (n : ℕ) (line : String)
      → P line
      → (r : DeadLetterRecord) × (t : Trip) × (is_blank p line ≡ false)
        × (read_line p n line ≡ ok r)
        × (process_batch (context_of p n r) (r.original_record ∷ []) ≡ (t ∷ [], []))
        × (p.publish n ≡ none)

  handle_record-recovered :
      (r : DeadLetterRecord) (t : Trip) (s : State)
      → process_batch (context_of p s.total_replayed r) (r.original_record ∷ []) ≡ (t ∷ [], [])
      → p.publish s.total_replayed ≡ none
      → handle_record p r s ≡ (
        ok true,
        record s {
          total_replayed = s.total_replayed + 1;
          recovered = s.recovered + 1;
          published = s.published ++ to_dict p.runtime t ∷ [];
        },
      )
  unfolding handle_record replay_record
  handle_record-recovered r t s gives taken = rw (gives, taken) refl

  replay_file-recovered :
      (path : String) (fuel i : ℕ) (s t : State) (line : String) (r : DeadLetterRecord)
      → get_elem? (lines_of path s.dlq.files) i ≡ some line
      → is_blank p line ≡ false
      → read_line p s.total_replayed line ≡ ok r
      → handle_record p r s ≡ (ok true, t)
      → replay_file p (suc fuel) path i s ≡ replay_file p fuel path (suc i) t
  unfolding replay_file
  replay_file-recovered path fuel i s t line r there filled readable done =
      rw (replay_file, there, filled, readable, ap (λ x. x.0) done)
        (ap (λ x. replay_file p fuel path (suc i) x.1) done)

  -- From line `i` on, where `k` lines are left that all recover: more units of fuel than lines are
  -- enough, the replay returns, `k` more records are replayed and recovered and `k` more messages
  -- published, none is still invalid, and the dead letters are left as they were.
  pub replay_file_recovers :
      (path : String) (P : String → Type 0)
      → Recovers P
      → (k i fuel : ℕ) (s : State) → All P (lines_of path s.dlq.files)
      → k + i ≡ length (lines_of path s.dlq.files)
      → k < fuel
      → (t : State) × (replay_file p fuel path i s ≡ some (ok tt, t))
        × (t.total_replayed ≡ s.total_replayed + k)
        × (t.recovered ≡ s.recovered + k)
        × (t.still_invalid ≡ s.still_invalid)
        × (length t.published ≡ length s.published + k)
        × (t.dlq ≡ s.dlq)
  unfolding replay_file
  replay_file_recovers path P recovers k i zero s all left fuelled = absurd (omega (arith, fuelled))
  replay_file_recovers path P recovers zero i (suc fuel) s all left fuelled = (
    s,
    rw (replay_file, get_elem?-past (lines_of path s.dlq.files) i (omega (arith, left))) refl,
    omega arith,
    omega arith,
    refl,
    omega arith,
    refl,
  )
  replay_file_recovers path P recovers (suc k) i (suc fuel) s all left fuelled =
      let (line, there, holds) =
        get_elem?-All P (lines_of path s.dlq.files) i all (omega (arith, left)) in
      let (r, trip, filled, readable, gives, taken) = recovers s.total_replayed line holds in
      let after : State = record s {
        total_replayed = s.total_replayed + 1;
        recovered = s.recovered + 1;
        published = s.published ++ to_dict p.runtime trip ∷ [];
      } in
      let (t, ends, total, recovered, invalid, published, dlq) =
        replay_file_recovers path P recovers k (suc i) fuel after all (omega (arith, left))
          (omega (arith, fuelled)) in
      (
        t,
        replay_file-recovered path fuel i s after line r there filled readable
              (handle_record-recovered r trip s gives taken)
            ∙ ends,
        omega (arith, total),
        omega (arith, recovered),
        invalid,
        omega (arith, published, length-append s.published (to_dict p.runtime trip ∷ [])),
        dlq,
      )
