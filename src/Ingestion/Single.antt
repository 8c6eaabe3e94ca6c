-- ===== src/Ingestion/Single.antt =====
-- `ProcessTripUseCase` on its one row.
use nyc_taxi.Base.{length, ◌+◌, ◌≡◌, refl, List, [], ◌∷◌, arith}
use nyc_taxi.Python.{Dict}
use nyc_taxi.Trip.Model.{Trip}
use nyc_taxi.Trip.Events.{InvalidTripDetected}
use nyc_taxi.Trip.Service.{Context, process_batch}
use nyc_taxi.Trip.Service.Accounting.{process_batch_accounts}
use nyc_taxi.Ingestion.{TripResult, valid, invalid, process_trip}

-- The result that a batch of one row has in the shape of the use case.
abbrev pub Mirrors : TripResult → List Trip × List InvalidTripDetected → Type 0
Mirrors (valid t) r = r ≡ (t ∷ [], [])
Mirrors (invalid e) r = r ≡ ([], e ∷ [])

-- For every row, the pipeline gives one trip or one event and not both, and `handle` returns just
-- that: its defensive branch is never taken.
pub process_trip-Mirrors :
    (c : Context) (raw : Dict) → Mirrors (process_trip c raw) (process_batch c (raw ∷ []))
unfolding process_trip
process_trip-Mirrors c raw =
    single (process_batch c (raw ∷ [])) refl (process_batch_accounts c (raw ∷ []))
  where
    single :
        (r : List Trip × List InvalidTripDetected)
        → process_batch c (raw ∷ []) ≡ r
        → length (process_batch c (raw ∷ [])).0 + length (process_batch c (raw ∷ [])).1 ≡ 1
        → Mirrors (process_trip c raw) (process_batch c (raw ∷ []))
    single (t ∷ [], []) e one = rw e refl
    single ([], x ∷ []) e one = rw e refl
    single ([], []) e one = absurd (omega (arith, rw e at one))
    single (t ∷ u ∷ ts, es) e one = absurd (omega (arith, rw e at one))
    single (t ∷ [], x ∷ es) e one = absurd (omega (arith, rw e at one))
    single ([], x ∷ y ∷ es) e one = absurd (omega (arith, rw e at one))
