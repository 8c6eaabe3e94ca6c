-- ===== src/Trip/Service/Accounting.antt =====
-- Every row of a batch is accounted for, once.
use nyc_taxi.Base.{suc, length, length-append, ℕ, suc, ◌+◌, ◌≡◌, refl, ap, List, [], ◌∷◌, arith}
use nyc_taxi.Python.{Dict}
use nyc_taxi.Trip.Model.{Trip}
use nyc_taxi.Trip.Events.{InvalidTripDetected}
use nyc_taxi.Trip.Deduplicator.{deduplicate}
use nyc_taxi.Trip.Deduplicator.Split.{deduplicate_split, length-IsMerge}
use nyc_taxi.Trip.Service.{
  Context, Outcome, accepted, rejected, collect, process_row, process_rows, duplicate_events,
  process_batch,
}

module _ (c : Context) where
  length-collect :
      (o : Outcome) (r : List Trip × List InvalidTripDetected)
      → length (collect c o r).0 + length (collect c o r).1 ≡ length r.0 + length r.1 + 1
  length-collect (accepted t) (ts, es) = omega arith
  length-collect (rejected e) (ts, es) = omega arith

  length-process_rows :
      (i : ℕ) (rows : List Dict)
      → length (process_rows c i rows).0 + length (process_rows c i rows).1 ≡ length rows
  unfolding process_rows
  length-process_rows i [] = omega arith
  length-process_rows i (raw ∷ rows) = omega (
    arith,
    length-collect (process_row c i raw) (process_rows c (i + 1) rows),
    length-process_rows (i + 1) rows,
  )

  length-duplicate_events :
      (j : ℕ) (dups : List Trip) → length (duplicate_events c j dups) ≡ length dups
  unfolding duplicate_events
  length-duplicate_events j [] = refl
  length-duplicate_events j (d ∷ dups) = ap suc (length-duplicate_events (j + 1) dups)

  -- For every batch, whatever fails in it: the trips and the events that come out are together as
  -- many as the rows that went in.
  pub process_batch_accounts :
      (rows : List Dict)
      → length (process_batch c rows).0 + length (process_batch c rows).1 ≡ length rows
  unfolding process_batch
  process_batch_accounts rows =
      let trips = (process_rows c 0 rows).0 in
      let dups = (deduplicate trips).1 in
      omega (
        arith,
        length-append (process_rows c 0 rows).1 (duplicate_events c 0 dups),
        length-duplicate_events 0 dups,
        length-IsMerge (deduplicate_split trips).1,
        length-process_rows 0 rows,
      )
