-- ===== src/Pipeline/Waiting.antt =====
-- A message that the consumer group can never get past: its row has a location id of 65536 or more.
use mathlib.Core.List.{
  append_assoc, mem-append, mem-append_left, mem-append_right, mem-cons_self, Mem, Mem-prop,
  not-mem-nil, eq-or-mem_of_mem-cons,
}
use mathlib.Core.List.Permᴰ
use mathlib.Core.Logic.Or
use mathlib.Core.HLevel.{⊥_prop}
use nyc_taxi.Base.{
  All, pos, ℕ, ◌≤◌, ◌<◌, String, ◌≡◌, sym, ap, ◌∙◌, subst, Option, none, some, List, [], ◌∷◌, ◌++◌,
  arith,
}
use nyc_taxi.Python.{null, int, Dict, get_or, Error, ok, Runtime}
use nyc_taxi.ClickHouse.{uint, Driver, insert}
use nyc_taxi.Consumer.{Event, Ports, State, deserialize}
use nyc_taxi.Consumer.Persistence.{decoded, rows_of}
use nyc_taxi.Consumer.Accepted.{consume-Accepted}
use nyc_taxi.Consumer.Restarts.{
  Group, not_committed, process, process-IsAhead, Life, lived, Lives, unborn, reborn,
}
use nyc_taxi.Pipeline.Storage.{no_statements, storing, InRange, RefusesOverflow, HasLocations}
use nyc_taxi.Pipeline.Overflow.{saved-HasLocations}

-- The row of a message is among those of the messages.
decoded-rows_of :
    (p : Ports) (ms : List String) (m : String) (row : Dict)
    → deserialize p m ≡ ok (some row)
    → Mem m ms
    → Mem row (rows_of p ms)
decoded-rows_of p [] m row h there = absurd (not-mem-nil there)
decoded-rows_of p (n ∷ ms) m row h there =
    Or.elim Mem-prop (eq-or-mem_of_mem-cons there)
      (λ (same : m ≡ n).
        subst (λ k. Mem row (decoded p (deserialize p k) ++ rows_of p ms)) same
          (rw h (mem-cons_self)))
      (λ (later : Mem m ms).
        mem-append_right (decoded p (deserialize p n)) (decoded-rows_of p ms m row h later))

Mem-of_All :
    (P : Dict → Type 0) (row : Dict) → ¬ P row → (rows : List Dict) → All P rows → Mem row rows → ⊥
Mem-of_All P row bad [] h there = not-mem-nil there
Mem-of_All P row bad (d ∷ rows) (first, rest) there =
    Or.elim ⊥_prop (eq-or-mem_of_mem-cons there)
      (λ (same : row ≡ d). bad (subst P (sym same) first))
      (λ (later : Mem row rows). Mem-of_All P row bad rows rest later)

too_wide :
    (row : Dict) (id : ℕ)
    → get_or "pickup_location_id" null row ≡ int (pos id)
    → 65_536 ≤ id
    → ¬ HasLocations row
too_wide row id at wide (pickup, dropoff) =
    let below : id < 65_536 = subst (InRange (uint 16)) at pickup in omega (arith, wide, below)

module _ (rt : Runtime) (p : Ports) where
  -- The inserts of a process are those of the repository, on a driver that refuses such numbers.
  abbrev pub Stores : (ℕ → List Dict → Option Error) → Type 0
  Stores insert =
      (drivers : ℕ → Driver) × ((n : ℕ) → RefusesOverflow (drivers n))
      × (insert ≡ storing rt drivers)

  storing-HasLocations :
      (drivers : ℕ → Driver) (n : ℕ) (rows : List Dict)
      → RefusesOverflow (drivers n)
      → storing rt drivers n rows ≡ none
      → All HasLocations rows
  unfolding storing
  storing-HasLocations drivers n rows refuses h =
      saved-HasLocations rt (drivers n) refuses rows no_statements h

  Stores-HasLocations :
      (insert : ℕ → List Dict → Option Error) (n : ℕ) (rows : List Dict)
      → Stores insert
      → insert n rows ≡ none
      → All HasLocations rows
  Stores-HasLocations insert n rows (drivers, refuses, same) h =
      storing-HasLocations drivers n rows (refuses n) (ap (λ f. f n rows) (sym same) ∙ h)

  module _ (m : String) (row : Dict) (carries : deserialize p m ≡ ok (some row))
      (wide : ¬ HasLocations row) where
    not_committed-Mem :
        (insert : ℕ → List Dict → Option Error) (commit : ℕ → Option Error) (now : ℕ)
        (es : List Event)
        → Stores insert
        → Mem m (process p insert commit now es).committed
        → ⊥
    not_committed-Mem insert commit now es possible there =
        let s : State = process p insert commit now es in
        let (more, rest, inserted, first, split) = process-IsAhead p insert commit now es in
        Mem-of_All HasLocations row wide s.inserted
          (consume-Accepted (record p { insert = insert; commit = commit }) HasLocations
            (λ n rows. Stores-HasLocations insert n rows possible) now es)
          (subst (Mem row) (sym inserted)
            (mem-append_left more (decoded-rows_of p s.committed m row carries there)))

    life-Waits : {g h : Group} → Life p Stores g h → Mem m g.waiting → Mem m h.waiting
    life-Waits (lived insert commit now es unread {g} {h} possible got left_over table) there =
        let s : State = process p insert commit now es in
        let (more, rest, inserted, first, split) = process-IsAhead p insert commit now es in
        let whole : Mem m (s.committed ++ (not_committed s ++ unread)) =
          subst (Mem m)
            (ap (λ l. l ++ unread) (sym split) ∙ append_assoc s.committed (not_committed s) unread)
            (Permᴰ.mem (Permᴰ.symm got) there) in
        subst (Mem m) (sym left_over) (
          Or.elim Mem-prop (mem-append.0 whole)
            (λ behind. absurd (not_committed-Mem insert commit now es possible behind))
            (λ waits. waits))

    lives-Waits : {g h : Group} → Lives p Stores g h → Mem m g.waiting → Mem m h.waiting
    lives-Waits unborn there = there
    lives-Waits (reborn before l) there = life-Waits l (lives-Waits before there)

  -- A message whose row has a pickup location id of 65536 or more is committed by no process of the
  -- group, however many are started and whatever the broker and the server answer: when it waited
  -- once, it waits ever after.
  pub wide_location-Waits :
      (m : String) (row : Dict) (id : ℕ) {g h : Group}
      → deserialize p m ≡ ok (some row)
      → get_or "pickup_location_id" null row ≡ int (pos id)
      → 65_536 ≤ id
      → Lives p Stores g h
      → Mem m g.waiting
      → Mem m h.waiting
  wide_location-Waits m row id carries at wide = lives-Waits m row carries (too_wide row id at wide)
