-- ===== src/Consumer/Accepted.antt =====
-- What is said of the rows by an insert that returned.
use nyc_taxi.Base.{
  Bool-cases, Option-cases, List-cases, All, All-append, ℕ, ◌≡◌, refl, sym, subst, inl, inr, ◌||◌,
  Option, none, List, [], ◌∷◌, ◌++◌,
}
use nyc_taxi.Python.{Dict, Result, ok, err}
use nyc_taxi.Consumer.{
  Poll, no_message, partition_eof, fatal, non_fatal, message, Event, Ports, AccumulatedBatch, State,
  started, Progress, running, finished, raised, deserialize, should_flush, flush, commit_offsets,
  persist, flush_and_yield, flush_pending, added, receive, flushed_if_due, turn, consume,
}

module _ {ℓ} (p : Ports) (Accepted : Dict → Type ℓ)
    (accepts : (n : ℕ) (rows : List Dict) → p.insert n rows ≡ none → All Accepted rows) where
  persist-Accepted :
      (b : AccumulatedBatch) (s : State)
      → All Accepted s.inserted
      → All Accepted (persist p b s).inserted
  unfolding persist commit_offsets
  persist-Accepted b s h = elim (Option-cases (p.insert s.inserts b.rows)) [
    | inr (e, he) ↦ rw he h
    | inl hi ↦
        let both : All Accepted (s.inserted ++ b.rows) =
          All-append Accepted s.inserted b.rows h (accepts s.inserts b.rows hi) in
        elim (Option-cases (p.commit s.commits)) [
          | inl hc ↦ rw (hi, hc) both
          | inr (e, hc) ↦ rw (hi, hc) both
        ]
  ]

  flush_and_yield-Accepted :
      (now : ℕ) (s : State)
      → All Accepted s.inserted
      → All Accepted (flush_and_yield p now s).inserted
  unfolding flush_and_yield flush
  flush_and_yield-Accepted now s h = elim (List-cases s.rows) [
    | inl nothing ↦ rw nothing h
    | inr (v, vs, there) ↦ rw there (persist-Accepted (flush p now s).0 (flush p now s).1 h)
  ]

  flush_pending-Accepted :
      (now : ℕ) (s : State)
      → All Accepted s.inserted
      → All Accepted (flush_pending p now s).inserted
  unfolding flush_pending
  flush_pending-Accepted now s h = choose s.rows (flush_and_yield-Accepted now s h)
    where
      choose :
          (l : List Dict)
          → All Accepted (flush_and_yield p now s).inserted
          → All Accepted
              (elim l as (λ x. State) [ [] ↦ s | v ∷ vs ↦ flush_and_yield p now s ]).inserted
      choose [] k = h
      choose (v ∷ vs) k = k

  receive-inserted : (e : Poll) (s : State) → (receive p e s).1.inserted ≡ s.inserted
  unfolding receive
  receive-inserted no_message s = refl
  receive-inserted partition_eof s = refl
  receive-inserted non_fatal s = refl
  receive-inserted (fatal x) s = refl
  receive-inserted (message m) s = same (deserialize p m)
    where
      same :
          (r : Result (Option Dict))
          → (added p (record s { received = s.received ++ m ∷ [] }) r).1.inserted ≡ s.inserted
      same (ok v) = refl
      same (err x) = refl

  flushed_if_due-Accepted :
      (e : Event) (s : Progress × State)
      → All Accepted s.1.inserted
      → All Accepted (flushed_if_due p e s).1.inserted
  flushed_if_due-Accepted e (running, s) h = elim (Bool-cases (should_flush p e.checked_at s)) [
    | inl due ↦ rw due (flush_and_yield-Accepted e.flushed_at s h)
    | inr early ↦ rw early h
  ]
  flushed_if_due-Accepted e (finished, s) h = h
  flushed_if_due-Accepted e (raised x, s) h = flush_pending-Accepted e.flushed_at s h

  turn-Accepted :
      (e : Event) (s : State) → All Accepted s.inserted → All Accepted (turn p e s).1.inserted
  unfolding turn
  turn-Accepted e s h = elim (Bool-cases (s.requested || e.signalled)) [
    | inl stop ↦ rw stop (flush_pending-Accepted e.flushed_at s h)
    | inr go ↦ rw go (
        flushed_if_due-Accepted e (receive p e.polled s)
          (subst (All Accepted) (sym (receive-inserted e.polled s)) h))
  ]

  consume_from-Accepted :
      (es : List Event) (s : Progress × State)
      → All Accepted s.1.inserted
      → All Accepted (consume p es s).1.inserted
  unfolding consume
  consume_from-Accepted [] s h = h
  consume_from-Accepted (e ∷ es) (running, s) h =
      consume_from-Accepted es (turn p e s) (turn-Accepted e s h)
  consume_from-Accepted (e ∷ es) (finished, s) h = h
  consume_from-Accepted (e ∷ es) (raised x, s) h = h

  -- When an insert returns for rows of this kind only, then all that is inserted at any moment is.
  pub consume-Accepted :
      (now : ℕ) (es : List Event) → All Accepted (consume p es (running, started now)).1.inserted
  consume-Accepted now es = consume_from-Accepted es (running, started now) tt
