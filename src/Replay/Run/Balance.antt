-- ===== src/Replay/Run/Balance.antt =====
-- The counts of a replay.
use nyc_taxi.Base.{◌≤◌, zero, suc, zero, suc, ◌+◌, ◌≡◌, Option, none, some}
use nyc_taxi.Python.{Result, ok, err}
use nyc_taxi.Replay.{Step, Ports, State}
use nyc_taxi.Trip.Model.{Trip}

-- Every record that was replayed is counted as recovered or as still invalid.
abbrev pub IsCounted : State → Type 0
IsCounted s = s.total_replayed ≡ s.recovered + s.still_invalid

-- All but one at most.
abbrev pub IsNearlyCounted : State → Type 0
IsNearlyCounted s =
    (s.recovered + s.still_invalid ≤ s.total_replayed)
    × (s.total_replayed ≤ s.recovered + s.still_invalid + 1)

-- An exception may leave the record in hand uncounted.
abbrev pub Balances : Option (Result (Unit {0}) × State) → Type 0
Balances none = Unit
Balances (some (ok u, s)) = IsCounted s
Balances (some (err e, s)) = IsNearlyCounted s

module _ (p : Ports) where
  -- Neither the pipeline nor the dead letter publisher touches the counts.
  abbrev SameCounts : State → Step → Type 0
  SameCounts s t =
      (t.1.total_replayed ≡ s.total_replayed)
      × (t.1.recovered ≡ s.recovered)
      × (t.1.still_invalid ≡ s.still_invalid)

  -- A step that returned leaves the counts in balance.
  abbrev CountedOnOk : Step → Type 0
  CountedOnOk (ok b, s) = IsCounted s
  CountedOnOk (err e, s) = IsNearlyCounted s
