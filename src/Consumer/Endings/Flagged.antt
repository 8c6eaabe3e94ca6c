-- ===== src/Consumer/Endings/Flagged.antt =====
-- A process that has not set the flag itself has lost nothing.
use mathlib.Core.List.{append-nil}
use nyc_taxi.Base.{
  Option-cases, Bool-cases, List-cases, ℕ, ◌≡◌, refl, sym, ◌∙◌, subst, ◌≢◌, ◌⊎◌, inl, inr, true,
  false, ◌||◌, List, [], ◌∷◌, ◌++◌, arith,
}
use nyc_taxi.Python.{Dict, Result, ok, err}
use nyc_taxi.Consumer.{
  Poll, no_message, partition_eof, fatal, non_fatal, message, Event, Ports, AccumulatedBatch, State,
  started, Progress, running, finished, raised, deserialize, should_flush, flush, commit_offsets,
  persist, flush_and_yield, flush_pending, added, receive, flushed_if_due, turn, consume,
}
use nyc_taxi.Consumer.Persistence.{
  rows_of, IsSafe, receive-IsSafe, turn-IsSafe, started-IsSafe, consume-IsSafe,
}
use nyc_taxi.Consumer.Limit.{flush_and_yield-rows}

module _ (p : Ports) where
  -- An insert or a commit failed, which set the flag, or all that was inserted is behind the offset.
  abbrev pub IsFlagged : State → Type 0
  IsFlagged s = (s.requested ≡ true) ⊎ (s.inserted ≡ rows_of p s.committed)

  -- The same, with nothing left in the accumulator once the loop was left.
  abbrev pub IsLeft : Progress × State → Type 0
  IsLeft (running, s) = IsFlagged s
  IsLeft (finished, s) = IsFlagged s × (s.rows ≡ [])
  IsLeft (raised e, s) = IsFlagged s × (s.rows ≡ [])

  persist-IsFlagged :
      (b : AccumulatedBatch) (s : State)
      → s.inserted ++ b.rows ≡ rows_of p s.received
      → IsFlagged (persist p b s)
  unfolding persist commit_offsets
  persist-IsFlagged b s all = elim (Option-cases (p.insert s.inserts b.rows)) [
    | inr (e, he) ↦ rw he (inl refl)
    | inl hi ↦ elim (Option-cases (p.commit s.commits)) [
      | inl hc ↦ rw (hi, hc) (inr all)
      | inr (e, hc) ↦ rw (hi, hc) (inl refl)
    ]
  ]

  flush_and_yield-IsFlagged :
      (now : ℕ) (s : State)
      → s.requested ≡ false
      → IsSafe p s
      → IsFlagged s
      → IsFlagged (flush_and_yield p now s)
  unfolding flush_and_yield flush
  flush_and_yield-IsFlagged now s go safe h = elim (List-cases s.rows) [
    | inl nothing ↦ rw nothing h
    | inr (v, vs, there) ↦
        rw there (persist-IsFlagged (flush p now s).0 (flush p now s).1 (safe.pending go))
  ]

  flush_pending-IsLeft :
      (now : ℕ) (s : State)
      → IsSafe p s
      → IsFlagged s
      → IsFlagged (flush_pending p now s) × ((flush_pending p now s).rows ≡ [])
  unfolding flush_pending
  flush_pending-IsLeft now s safe h = choose s.rows refl λ v vs there.
      elim (Bool-cases s.requested) [
        | inl stop ↦ absurd (cc (safe.stopped stop, there))
        | inr go ↦ flush_and_yield-IsFlagged now s go safe h
      ]
    where
      choose :
          (l : List Dict)
          → s.rows ≡ l
          → ((v : Dict) (vs : List Dict) → s.rows ≡ v ∷ vs → IsFlagged (flush_and_yield p now s))
          → let t = elim l as (λ x. State) [ [] ↦ s | v ∷ vs ↦ flush_and_yield p now s ] in
            IsFlagged t × (t.rows ≡ [])
      choose [] e k = (h, e)
      choose (v ∷ vs) e k = (k v vs e, flush_and_yield-rows p now s)

  receive-IsFlagged :
      (e : Poll) (s : State)
      → IsFlagged s
      → IsFlagged (receive p e s).1 × ((receive p e s).0 ≢ finished)
  unfolding receive
  receive-IsFlagged no_message s h = (h, λ k. cc)
  receive-IsFlagged partition_eof s h = (h, λ k. cc)
  receive-IsFlagged non_fatal s h = (h, λ k. cc)
  receive-IsFlagged (fatal x) s h = (h, λ k. cc)
  receive-IsFlagged (message m) s h = added_to (deserialize p m)
    where
      added_to :
          (r : Result _)
          → let after = added p (record s { received = s.received ++ m ∷ [] }) r in
            IsFlagged after.1 × (after.0 ≢ finished)
      added_to (ok v) = (h, λ k. cc)
      added_to (err x) = (h, λ k. cc)

  flushed_if_due-IsLeft :
      (e : Event) (s : Progress × State)
      → s.1.requested ≡ false
      → IsSafe p s.1
      → IsFlagged s.1
      → s.0 ≢ finished
      → IsLeft (flushed_if_due p e s)
  flushed_if_due-IsLeft e (running, s) go safe h n =
      elim (Bool-cases (should_flush p e.checked_at s)) [
        | inl due ↦ rw due (flush_and_yield-IsFlagged e.flushed_at s go safe h)
        | inr early ↦ rw early h
      ]
  flushed_if_due-IsLeft e (finished, s) go safe h n = absurd (n refl)
  flushed_if_due-IsLeft e (raised x, s) go safe h n = flush_pending-IsLeft e.flushed_at s safe h

  turn-IsLeft : (e : Event) (s : State) → IsSafe p s → IsFlagged s → IsLeft (turn p e s)
  unfolding turn
  turn-IsLeft e s safe h = elim (Bool-cases (s.requested || e.signalled)) [
    | inl stop ↦ rw stop (flush_pending-IsLeft e.flushed_at s safe h)
    | inr go ↦
        let clear : s.requested ≡ false = ground (arith, go) in
        let (next_safe, next_clear) = receive-IsSafe p e.polled s clear safe in
        let (next, unfinished) = receive-IsFlagged e.polled s h in
        rw go (flushed_if_due-IsLeft e (receive p e.polled s) next_clear next_safe next unfinished)
  ]

  consume_from-IsLeft :
      (es : List Event) (s : Progress × State) → IsSafe p s.1 → IsLeft s → IsLeft (consume p es s)
  unfolding consume
  consume_from-IsLeft [] s safe h = h
  consume_from-IsLeft (e ∷ es) (running, s) safe h =
      consume_from-IsLeft es (turn p e s) (turn-IsSafe p e s safe) (turn-IsLeft e s safe h)
  consume_from-IsLeft (e ∷ es) (finished, s) safe h = h
  consume_from-IsLeft (e ∷ es) (raised x, s) safe h = h

  -- The flag is set by a failure, or all rows received are inserted and behind the offset.
  abbrev pub FailsOrPersists : State → Type 0
  FailsOrPersists s =
      (s.rows ≡ [])
      × ((s.requested ≡ true)
          ⊎ ((s.inserted ≡ rows_of p s.received) × (rows_of p s.committed ≡ rows_of p s.received)))

  left_persists : (s : State) → IsSafe p s → IsFlagged s × (s.rows ≡ []) → FailsOrPersists s
  left_persists s safe (inl failed, gone) = (gone, inl failed)
  left_persists s safe (inr committed, gone) = elim (Bool-cases s.requested) [
    | inl failed ↦ (gone, inl failed)
    | inr clear ↦
        let all : s.inserted ≡ rows_of p s.received =
          sym (append-nil s.inserted)
          ∙ subst (λ l. s.inserted ++ l ≡ rows_of p s.received) gone (safe.pending clear) in
        (gone, inr (all, sym committed ∙ all))
  ]

  abbrev pub EndsSettled : Progress × State → Type 0
  EndsSettled (running, s) = Unit
  EndsSettled (finished, s) = FailsOrPersists s
  EndsSettled (raised e, s) = FailsOrPersists s

  left-EndsSettled : (s : Progress × State) → IsSafe p s.1 → IsLeft s → EndsSettled s
  left-EndsSettled (running, s) safe h = tt
  left-EndsSettled (finished, s) safe h = left_persists s safe h
  left-EndsSettled (raised e, s) safe h = left_persists s safe h

  pub consume-EndsSettled :
      (now : ℕ) (es : List Event) → EndsSettled (consume p es (running, started now))
  consume-EndsSettled now es =
      left-EndsSettled (consume p es (running, started now)) (consume-IsSafe p now es)
        (consume_from-IsLeft es (running, started now) (started-IsSafe p now) (inr refl))
