-- ===== src/Consumer/Endings.antt =====
-- A process in which nothing fails.
pub mod Flagged
use mathlib.Core.List.{append-nil}
use nyc_taxi.Base.{
  All, All-append, Option, Bool-cases, List-cases, ℕ, ◌≡◌, refl, sym, ◌∙◌, subst, ◌≢◌, inl, inr,
  false, ◌||◌, none, List, [], ◌∷◌, ◌++◌,
}
use nyc_taxi.Python.{Dict, Result, ok, err}
use nyc_taxi.Consumer.{
  row_of, Poll, no_message, partition_eof, fatal, non_fatal, message, Event, Ports, State, started,
  Progress, running, finished, raised, deserialize, should_flush, flush, commit_offsets, persist,
  flush_and_yield, flush_pending, added, receive, flushed_if_due, turn, consume,
}
use nyc_taxi.Consumer.Persistence.{
  decoded, rows_of, IsSafe, receive-IsSafe, turn-IsSafe, started-IsSafe, consume-IsSafe,
}
use nyc_taxi.Consumer.Limit.{flush_and_yield-rows}

module _ (p : Ports) where
  -- Every insert of such rows returns, and every commit.
  abbrev pub TakesAll : (Dict → Type 0) → Type 0
  TakesAll Good =
      ((n : ℕ) (rows : List Dict) → All Good rows → p.insert n rows ≡ none)
      × ((n : ℕ) → p.commit n ≡ none)

  -- The message that was polled, if any, carries such a row, or none.
  abbrev pub Brings : (Dict → Type 0) → Poll → Type 0
  Brings Good no_message = Unit
  Brings Good partition_eof = Unit
  Brings Good (fatal e) = Unit
  Brings Good non_fatal = Unit
  Brings Good (message m) = All Good (decoded p (deserialize p m))

  -- Every insert and commit returns.
  abbrev pub NothingFails : Type 0
  NothingFails =
      ((n : ℕ) (rows : List Dict) → p.insert n rows ≡ none) × ((n : ℕ) → p.commit n ≡ none)

  -- All rows received are inserted and behind the committed offset.
  abbrev pub AllPersisted : Progress × State → Type 0
  AllPersisted (running, s) = Unit
  AllPersisted (finished, s) =
      (s.inserted ≡ rows_of p s.received) × (rows_of p s.committed ≡ rows_of p s.received)
  AllPersisted (raised e, s) =
      (s.inserted ≡ rows_of p s.received) × (rows_of p s.committed ≡ rows_of p s.received)

module _ (p : Ports) (Good : Dict → Type 0) where
  -- All that was inserted is behind the committed offset, and what waits is good.
  abbrev pub IsCommitted : State → Type 0
  IsCommitted s = (s.requested ≡ false) × (s.inserted ≡ rows_of p s.committed) × All Good s.rows

  flush_and_yield-IsCommitted :
      (now : ℕ) (s : State)
      → TakesAll p Good
      → IsSafe p s
      → IsCommitted s
      → IsCommitted (flush_and_yield p now s)
  unfolding flush_and_yield flush persist commit_offsets
  flush_and_yield-IsCommitted now s works safe h = elim (List-cases s.rows) [
    | inl nothing ↦ rw nothing (h.0, h.1, tt)
    | inr (v, vs, there) ↦
        rw (there, works.0 s.inserts s.rows h.2, works.1 s.commits) (h.0, safe.pending h.0, tt)
  ]

  -- The same, with nothing left in the accumulator once the loop was left.
  abbrev pub IsSettled : Progress × State → Type 0
  IsSettled (running, s) = IsCommitted s
  IsSettled (finished, s) = IsCommitted s × (s.rows ≡ [])
  IsSettled (raised e, s) = IsCommitted s × (s.rows ≡ [])

  flush_pending-IsSettled :
      (now : ℕ) (s : State)
      → TakesAll p Good
      → IsSafe p s
      → IsCommitted s
      → IsCommitted (flush_pending p now s) × ((flush_pending p now s).rows ≡ [])
  unfolding flush_pending
  flush_pending-IsSettled now s works safe h =
      choose s.rows refl (flush_and_yield-IsCommitted now s works safe h)
        (flush_and_yield-rows p now s)
    where
      choose :
          (l : List Dict)
          → s.rows ≡ l
          → IsCommitted (flush_and_yield p now s)
          → (flush_and_yield p now s).rows ≡ []
          → let t = elim l as (λ x. State) [ [] ↦ s | v ∷ vs ↦ flush_and_yield p now s ] in
            IsCommitted t × (t.rows ≡ [])
      choose [] e k z = (h, e)
      choose (v ∷ vs) e k z = (k, z)

  receive-IsCommitted :
      (e : Poll) (s : State) → Brings p Good e → IsCommitted s → IsCommitted (receive p e s).1
  unfolding receive
  receive-IsCommitted no_message s good h = h
  receive-IsCommitted partition_eof s good h = h
  receive-IsCommitted non_fatal s good h = h
  receive-IsCommitted (fatal x) s good h = h
  receive-IsCommitted (message m) s good h = added_to (deserialize p m) good
    where
      added_to :
          (r : Result (Option Dict))
          → All Good (decoded p r)
          → IsCommitted (added p (record s { received = s.received ++ m ∷ [] }) r).1
      added_to (ok v) fine = (h.0, h.1, All-append Good s.rows (row_of v) h.2 fine)
      added_to (err x) fine = h

  flushed_if_due-IsSettled :
      (e : Event) (s : Progress × State)
      → TakesAll p Good
      → IsSafe p s.1
      → IsCommitted s.1
      → s.0 ≢ finished
      → IsSettled (flushed_if_due p e s)
  flushed_if_due-IsSettled e (running, s) works safe h n =
      elim (Bool-cases (should_flush p e.checked_at s)) [
        | inl due ↦ rw due (flush_and_yield-IsCommitted e.flushed_at s works safe h)
        | inr early ↦ rw early h
      ]
  flushed_if_due-IsSettled e (finished, s) works safe h n = absurd (n refl)
  flushed_if_due-IsSettled e (raised x, s) works safe h n =
      flush_pending-IsSettled e.flushed_at s works safe h

  receive-NotFinished : (e : Poll) (s : State) → (receive p e s).0 ≢ finished
  unfolding receive
  receive-NotFinished no_message s h = cc
  receive-NotFinished partition_eof s h = cc
  receive-NotFinished non_fatal s h = cc
  receive-NotFinished (fatal x) s h = cc
  receive-NotFinished (message m) s h = never (deserialize p m) h
    where
      never :
          (r : Result (Option Dict))
          → (added p (record s { received = s.received ++ m ∷ [] }) r).0 ≢ finished
      never (ok v) k = cc
      never (err x) k = cc

  turn-IsSettled :
      (e : Event) (s : State)
      → TakesAll p Good
      → Brings p Good e.polled
      → IsSafe p s
      → IsCommitted s
      → IsSettled (turn p e s)
  unfolding turn
  turn-IsSettled e s works good safe h = elim (Bool-cases (s.requested || e.signalled)) [
    | inl stop ↦ rw stop (flush_pending-IsSettled e.flushed_at s works safe h)
    | inr go ↦ rw go (
        flushed_if_due-IsSettled e (receive p e.polled s) works
          (receive-IsSafe p e.polled s h.0 safe).0 (receive-IsCommitted e.polled s good h)
          (receive-NotFinished e.polled s))
  ]

  consume_from-IsSettled :
      (es : List Event) (s : Progress × State)
      → TakesAll p Good
      → All (λ e. Brings p Good e.polled) es
      → IsSafe p s.1
      → IsSettled s
      → IsSettled (consume p es s)
  unfolding consume
  consume_from-IsSettled [] s works good safe h = h
  consume_from-IsSettled (e ∷ es) (running, s) works (good, later) safe h =
      consume_from-IsSettled es (turn p e s) works later (turn-IsSafe p e s safe)
        (turn-IsSettled e s works good safe h)
  consume_from-IsSettled (e ∷ es) (finished, s) works good safe h = h
  consume_from-IsSettled (e ∷ es) (raised x, s) works good safe h = h

  all_persisted :
      (s : State)
      → IsSafe p s
      → IsCommitted s
      → s.rows ≡ []
      → (s.inserted ≡ rows_of p s.received) × (rows_of p s.committed ≡ rows_of p s.received)
  all_persisted s safe h gone =
      let all : s.inserted ≡ rows_of p s.received =
        sym (append-nil s.inserted)
        ∙ subst (λ l. s.inserted ++ l ≡ rows_of p s.received) gone (safe.pending h.0) in
      (all, sym h.1 ∙ all)

  settled-AllPersisted : (s : Progress × State) → IsSafe p s.1 → IsSettled s → AllPersisted p s
  settled-AllPersisted (running, s) safe h = tt
  settled-AllPersisted (finished, s) safe h = all_persisted s safe h.0 h.1
  settled-AllPersisted (raised e, s) safe h = all_persisted s safe h.0 h.1

  -- When every commit returns, and the insert of every list of good rows, and each message carries a
  -- good row or none, then a process whose loop was left has inserted every row that it received, in
  -- order and each once, and has committed an offset behind all of them.
  pub consume-AllPersisted_of_good :
      (now : ℕ) (es : List Event)
      → TakesAll p Good
      → All (λ e. Brings p Good e.polled) es
      → AllPersisted p (consume p es (running, started now))
  consume-AllPersisted_of_good now es works good =
      settled-AllPersisted (consume p es (running, started now)) (consume-IsSafe p now es) (
        consume_from-IsSettled es (running, started now) works good (started-IsSafe p now)
          (refl, refl, tt))

any_row : (rows : List Dict) → All (λ (row : Dict). Unit {0}) rows
any_row [] = tt
any_row (row ∷ rows) = (tt, any_row rows)

module _ (p : Ports) where
  any-Brings : (e : Poll) → Brings p (λ (row : Dict). Unit {0}) e
  any-Brings no_message = tt
  any-Brings partition_eof = tt
  any-Brings (fatal e) = tt
  any-Brings non_fatal = tt
  any-Brings (message m) = any_row (decoded p (deserialize p m))

  any_events : (es : List Event) → All (λ e. Brings p (λ (row : Dict). Unit {0}) e.polled) es
  any_events [] = tt
  any_events (e ∷ es) = (any-Brings e.polled, any_events es)

  -- When every insert and every commit returns, a process whose loop was left, by the flag or by an
  -- exception of the broker or of a message, has inserted every row that it received, in order and
  -- each once, and has committed an offset behind all of them.
  pub consume-AllPersisted :
      (now : ℕ) (es : List Event)
      → NothingFails p
      → AllPersisted p (consume p es (running, started now))
  consume-AllPersisted now es works =
      consume-AllPersisted_of_good p (λ (row : Dict). Unit {0}) now es
        (λ n rows good. works.0 n rows, works.1) (any_events es)
