-- ===== src/Trip/Deduplicator/Split.antt =====
-- What `deduplicate` returns: first occurrences in order, and the rest behind them.
use nyc_taxi.Base.{
  Bool-cases, length, All, ◌+◌, String, ◌≡◌, refl, inl, inr, true, false, ◌||◌, List, [], ◌∷◌,
  arith,
}
use nyc_taxi.Trip.Model.{Trip}
use nyc_taxi.Trip.Deduplicator.{seen_before, deduplicate_from, deduplicate}

-- No two trips have one id, and none has an id of `seen`.
abbrev pub IsDistinct : List String → List Trip → Type 0
IsDistinct seen [] = Unit
IsDistinct seen (t ∷ ts) = (seen_before t.trip_id seen ≡ false) × IsDistinct (t.trip_id ∷ seen) ts

abbrev pub ids : List Trip → List String
ids [] = []
ids (t ∷ ts) = t.trip_id ∷ ids ts

-- `whole` is `left` and `right` put together, each in its order.
pub data IsMerge {ℓ} {A : Type ℓ} : List A → List A → List A → Type ℓ where
  done : IsMerge [] [] []
  left : {x : A} {l r w : List A} → IsMerge l r w → IsMerge (x ∷ l) r (x ∷ w)
  right : {x : A} {l r w : List A} → IsMerge l r w → IsMerge l (x ∷ r) (x ∷ w)

-- Each of the trips has an id of `seen` or of `unique`.
abbrev pub Covered : List String → List Trip → List Trip → Type 0
Covered seen unique =
    All (λ t. (seen_before t.trip_id (ids unique) || seen_before t.trip_id seen) ≡ true)

module _ (seen : List String) (t : Trip) (ts : List Trip) where
  step_old :
      seen_before t.trip_id seen ≡ true
      → deduplicate_from seen (t ∷ ts)
        ≡ ((deduplicate_from seen ts).0, t ∷ (deduplicate_from seen ts).1)
  unfolding deduplicate_from
  step_old old = rw (old, deduplicate_from)

  step_new :
      seen_before t.trip_id seen ≡ false
      → let rest = deduplicate_from (t.trip_id ∷ seen) ts in
        deduplicate_from seen (t ∷ ts) ≡ (t ∷ rest.0, rest.1)
  unfolding deduplicate_from
  step_new new = rw (new, deduplicate_from)

deduplicate_from-IsDistinct :
    (seen : List String) (ts : List Trip) → IsDistinct seen (deduplicate_from seen ts).0
unfolding deduplicate_from
deduplicate_from-IsDistinct seen [] = tt
deduplicate_from-IsDistinct seen (t ∷ ts) = elim (Bool-cases (seen_before t.trip_id seen)) [
  | inl old ↦ rw (step_old seen t ts old) (deduplicate_from-IsDistinct seen ts)
  | inr new ↦ rw (step_new seen t ts new) (new, deduplicate_from-IsDistinct (t.trip_id ∷ seen) ts)
]

deduplicate_from-IsMerge :
    (seen : List String) (ts : List Trip)
    → IsMerge (deduplicate_from seen ts).0 (deduplicate_from seen ts).1 ts
unfolding deduplicate_from
deduplicate_from-IsMerge seen [] = done
deduplicate_from-IsMerge seen (t ∷ ts) = elim (Bool-cases (seen_before t.trip_id seen)) [
  | inl old ↦ rw (step_old seen t ts old) (right (deduplicate_from-IsMerge seen ts))
  | inr new ↦ rw (step_new seen t ts new) (left (deduplicate_from-IsMerge (t.trip_id ∷ seen) ts))
]

-- An id that was new when it was kept may count as seen from then on.
Covered-keep :
    (seen : List String) (t : Trip) (unique ds : List Trip)
    → Covered (t.trip_id ∷ seen) unique ds
    → Covered seen (t ∷ unique) ds
unfolding seen_before
Covered-keep seen t unique [] h = tt
Covered-keep seen t unique (d ∷ ds) h = (ground (arith, h.0), Covered-keep seen t unique ds h.1)

deduplicate_from-Covered :
    (seen : List String) (ts : List Trip)
    → Covered seen (deduplicate_from seen ts).0 (deduplicate_from seen ts).1
unfolding deduplicate_from
deduplicate_from-Covered seen [] = tt
deduplicate_from-Covered seen (t ∷ ts) = elim (Bool-cases (seen_before t.trip_id seen)) [
  | inl old ↦ rw (step_old seen t ts old) (ground (arith, old), deduplicate_from-Covered seen ts)
  | inr new ↦ rw (step_new seen t ts new) (
      Covered-keep seen t (deduplicate_from (t.trip_id ∷ seen) ts).0
        (deduplicate_from (t.trip_id ∷ seen) ts).1 (deduplicate_from-Covered (t.trip_id ∷ seen) ts))
]

-- Deduplicating trips that are already distinct changes nothing.
deduplicate_from-of_IsDistinct :
    (seen : List String) (ts : List Trip) → IsDistinct seen ts → deduplicate_from seen ts ≡ (ts, [])
unfolding deduplicate_from
deduplicate_from-of_IsDistinct seen [] h = refl
deduplicate_from-of_IsDistinct seen (t ∷ ts) h =
    rw (step_new seen t ts h.0) (rw (deduplicate_from-of_IsDistinct (t.trip_id ∷ seen) ts h.1))

pub length-IsMerge {ℓ} :
    {A : Type ℓ} {l r w : List A} → IsMerge l r w → length l + length r ≡ length w
length-IsMerge done = omega arith
length-IsMerge (left m) = omega (arith, length-IsMerge m)
length-IsMerge (right m) = omega (arith, length-IsMerge m)

pub All-IsMerge {ℓ κ} :
    {A : Type ℓ} (P : A → Type κ) {l r w : List A} → IsMerge l r w → All P w → All P l × All P r
All-IsMerge P done h = (tt, tt)
All-IsMerge P (left m) h = let k = All-IsMerge P m h.1 in ((h.0, k.0), k.1)
All-IsMerge P (right m) h = let k = All-IsMerge P m h.1 in (k.0, (h.0, k.1))

-- For every batch: no two unique trips share an id; unique trips and duplicates, each in the order
-- of the batch, make up the batch; and every duplicate has the id of a unique trip.
pub deduplicate_split :
    (trips : List Trip)
    → IsDistinct [] (deduplicate trips).0
      × IsMerge (deduplicate trips).0 (deduplicate trips).1 trips
      × Covered [] (deduplicate trips).0 (deduplicate trips).1
unfolding deduplicate
deduplicate_split trips = (
  deduplicate_from-IsDistinct [] trips,
  deduplicate_from-IsMerge [] trips,
  deduplicate_from-Covered [] trips,
)

-- Deduplicating the unique trips of a batch again keeps all of them, in order, and finds no duplicate.
pub deduplicate-deduplicate :
    (trips : List Trip) → deduplicate (deduplicate trips).0 ≡ ((deduplicate trips).0, [])
unfolding deduplicate
deduplicate-deduplicate trips =
    deduplicate_from-of_IsDistinct [] (deduplicate_from [] trips).0
      (deduplicate_from-IsDistinct [] trips)
