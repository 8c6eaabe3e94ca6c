-- ===== src/Consumer/Limit.antt =====
-- The accumulator between turns.
use nyc_taxi.Base.{
  Bool-cases, Option-cases, length, List-cases, ℕ, ◌<◌, ◌≡◌, refl, inl, inr, ◌||◌, List, [], ◌∷◌,
  arith,
}
use nyc_taxi.Consumer.{
  Event, Ports, AccumulatedBatch, State, started, Progress, running, finished, raised, should_flush,
  flush, commit_offsets, persist, flush_and_yield, receive, flushed_if_due, turn, consume,
}

module _ (p : Ports) where
  persist-rows : (b : AccumulatedBatch) (s : State) → (persist p b s).rows ≡ s.rows
  unfolding persist commit_offsets
  persist-rows b s = elim (Option-cases (p.insert s.inserts b.rows)) [
    | inr (e, he) ↦ rw he refl
    | inl hi ↦ elim (Option-cases (p.commit s.commits)) [
      | inl hc ↦ rw (hi, hc) refl
      | inr (e, hc) ↦ rw (hi, hc) refl
    ]
  ]

  pub flush_and_yield-rows : (now : ℕ) (s : State) → (flush_and_yield p now s).rows ≡ []
  unfolding flush_and_yield flush
  flush_and_yield-rows now s = elim (List-cases s.rows) [
    | inl nothing ↦ rw nothing refl
    | inr (v, vs, there) ↦ rw there (persist-rows (flush p now s).0 (flush p now s).1)
  ]

  -- The accumulator is below its limit.
  abbrev pub IsBelow : Progress × State → Type 0
  IsBelow (running, s) = length s.rows < p.max_size
  IsBelow (finished, s) = Unit
  IsBelow (raised e, s) = Unit

  flushed_if_due-IsBelow :
      (e : Event) (s : Progress × State) → 0 < p.max_size → IsBelow (flushed_if_due p e s)
  unfolding should_flush
  flushed_if_due-IsBelow e (running, s) some_room =
      elim (Bool-cases (should_flush p e.checked_at s)) [
        | inl due ↦ rw (due, flush_and_yield-rows e.flushed_at s) some_room
        | inr early ↦ rw early (ground (arith, early))
      ]
  flushed_if_due-IsBelow e (finished, s) some_room = tt
  flushed_if_due-IsBelow e (raised x, s) some_room = tt

  turn-IsBelow : (e : Event) (s : State) → 0 < p.max_size → IsBelow (turn p e s)
  unfolding turn
  turn-IsBelow e s some_room = elim (Bool-cases (s.requested || e.signalled)) [
    | inl stop ↦ rw stop tt
    | inr go ↦ rw go (flushed_if_due-IsBelow e (receive p e.polled s) some_room)
  ]

  consume_from-IsBelow :
      (es : List Event) (s : Progress × State)
      → 0 < p.max_size
      → IsBelow s
      → IsBelow (consume p es s)
  unfolding consume
  consume_from-IsBelow [] s some_room h = h
  consume_from-IsBelow (e ∷ es) (running, s) some_room h =
      consume_from-IsBelow es (turn p e s) some_room (turn-IsBelow e s some_room)
  consume_from-IsBelow (e ∷ es) (finished, s) some_room h = h
  consume_from-IsBelow (e ∷ es) (raised x, s) some_room h = h

  -- With a size limit of at least one, fewer rows than the limit wait in the accumulator after every
  -- turn after which the loop goes on.
  pub consume-IsBelow :
      (now : ℕ) (es : List Event) → 0 < p.max_size → IsBelow (consume p es (running, started now))
  consume-IsBelow now es some_room =
      consume_from-IsBelow es (running, started now) some_room some_room
