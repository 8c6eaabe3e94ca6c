-- ===== src/Consumer/Persistence.antt =====
-- What of the topic is persisted, and what is behind the committed offset, whatever fails.
use mathlib.Core.List.{append-nil, append_assoc}
use nyc_taxi.Base.{
  Option, Bool-cases, Option-cases, List-cases, ℕ, ◌+◌, String, ◌≡◌, refl, sym, ap, ◌∙◌, subst, inl,
  inr, true, false, ◌||◌, List, [], ◌∷◌, ◌++◌, arith,
}
use nyc_taxi.Python.{Dict, Result, ok, err}
use nyc_taxi.Consumer.{
  Poll, no_message, partition_eof, fatal, non_fatal, message, Event, Ports, AccumulatedBatch, State,
  started, row_of, Progress, running, finished, raised, deserialize, should_flush, flush,
  commit_offsets, persist, flush_and_yield, flush_pending, added, receive, flushed_if_due, turn,
  consume,
}

module _ (p : Ports) where
  -- The rows that these messages carry.
  abbrev pub decoded : Result (Option Dict) → List Dict
  decoded (ok v) = row_of v
  decoded (err e) = []

  abbrev pub rows_of : List String → List Dict
  rows_of [] = []
  rows_of (m ∷ ms) = decoded (deserialize p m) ++ rows_of ms

  rows_of-append :
      (ms : List String) (m : String)
      → rows_of (ms ++ m ∷ []) ≡ rows_of ms ++ decoded (deserialize p m)
  rows_of-append [] m = append-nil _
  rows_of-append (n ∷ ms) m =
      rw (rows_of-append ms m) (sym (append_assoc (decoded (deserialize p n)) (rows_of ms) _))

  -- The committed messages are the first of those received, their rows the first of those inserted,
  -- and these the first of the rows received: in order, and each once. Until an insert or a commit
  -- fails, the other rows are all in the accumulator; from then on it is empty.
  pub record IsSafe (s : State) : Type 0 where
    pub behind : (later : List String) × (s.committed ++ later ≡ s.received)
    pub kept : (more : List Dict) × (rows_of s.committed ++ more ≡ s.inserted)
    pub known : (waiting : List Dict) × (s.inserted ++ waiting ≡ rows_of s.received)
    pub pending : s.requested ≡ false → s.inserted ++ s.rows ≡ rows_of s.received
    pub stopped : s.requested ≡ true → s.rows ≡ []

  persist-IsSafe :
      (b : AccumulatedBatch) (s : State)
      → (later : List String) × (s.committed ++ later ≡ s.received)
      → (more : List Dict) × (rows_of s.committed ++ more ≡ s.inserted)
      → s.inserted ++ b.rows ≡ rows_of s.received
      → s.rows ≡ []
      → IsSafe (persist p b s)
  unfolding persist commit_offsets
  persist-IsSafe b s behind (more, kept) all gone =
      elim (Option-cases (p.insert s.inserts b.rows)) [
        | inr (e, he) ↦ rw he (record {
          behind = behind;
          kept = (more, kept);
          known = (b.rows, all);
          pending = λ h. absurd (cc);
          stopped = λ h. gone;
        })
        | inl hi ↦ elim (Option-cases (p.commit s.commits)) [
          | inl hc ↦
              rw (hi, hc)
                (record {
                  behind = ([], append-nil _);
                  kept = ([], append-nil _ ∙ sym all);
                  known = ([], append-nil _ ∙ all);
                  pending = λ h. rw gone (append-nil _ ∙ all);
                  stopped = λ h. gone;
                })
          | inr (e, hc) ↦
              rw (hi, hc)
                (record {
                  behind = behind;
                  kept = (
                    more ++ b.rows,
                    sym (append_assoc (rows_of s.committed) more b.rows)
                        ∙ ap (λ l. l ++ b.rows) kept,
                  );
                  known = ([], append-nil _ ∙ all);
                  pending = λ h. rw gone (append-nil _ ∙ all);
                  stopped = λ h. gone;
                })
        ]
      ]

  flush_and_yield-IsSafe :
      (now : ℕ) (s : State) → s.requested ≡ false → IsSafe s → IsSafe (flush_and_yield p now s)
  unfolding flush_and_yield flush
  flush_and_yield-IsSafe now s go h = elim (List-cases s.rows) [
    | inl none_there ↦ rw none_there (record {
      behind = h.behind;
      kept = h.kept;
      known = h.known;
      pending = λ k. subst (λ l. s.inserted ++ l ≡ rows_of s.received) none_there (h.pending go);
      stopped = λ k. refl;
    })
    | inr (v, vs, there) ↦ rw there (
        persist-IsSafe (record { rows = s.rows; batch_id = p.batch_id s.flushes })
          (record s { rows = []; last_flush_at = now; flushes = s.flushes + 1 }) h.behind h.kept
          (h.pending go) refl)
  ]

  if_any-IsSafe :
      (l : List Dict) (a b : State)
      → IsSafe a
      → ((v : Dict) (vs : List Dict) → l ≡ v ∷ vs → IsSafe b)
      → IsSafe (elim l as (λ x. State) [ [] ↦ a | v ∷ vs ↦ b ])
  if_any-IsSafe [] a b h k = h
  if_any-IsSafe (v ∷ vs) a b h k = k v vs refl

  flush_pending-IsSafe : (now : ℕ) (s : State) → IsSafe s → IsSafe (flush_pending p now s)
  unfolding flush_pending
  flush_pending-IsSafe now s h = if_any-IsSafe s.rows s (flush_and_yield p now s) h λ v vs there.
      elim (Bool-cases s.requested) [
        | inl stop ↦ absurd (cc (h.stopped stop, there))
        | inr go ↦ flush_and_yield-IsSafe now s go h
      ]

  added-IsSafe :
      (m : String) (s : State) (r : Result (Option Dict))
      → deserialize p m ≡ r
      → s.requested ≡ false
      → IsSafe s
      → let after = added p (record s { received = s.received ++ m ∷ [] }) r in
        IsSafe after.1 × (after.1.requested ≡ false)
  added-IsSafe m s r e go h =
      let grown : rows_of (s.received ++ m ∷ []) ≡ rows_of s.received ++ decoded r =
        rw (rows_of-append s.received m, e) in
      let all : s.inserted ++ (s.rows ++ decoded r) ≡ rows_of (s.received ++ m ∷ []) = rw grown (
        sym (append_assoc s.inserted s.rows (decoded r))
        ∙ ap (λ l. l ++ decoded r) (h.pending go)) in
      let behind : (later : List String) × (s.committed ++ later ≡ s.received ++ m ∷ []) = (
        h.behind.0 ++ m ∷ [],
        sym (append_assoc s.committed h.behind.0 (m ∷ [])) ∙ ap (λ l. l ++ m ∷ []) h.behind.1,
      ) in
      elim r
          as (λ r.
            s.inserted ++ (s.rows ++ decoded r) ≡ rows_of (s.received ++ m ∷ [])
            → let after = added p (record s { received = s.received ++ m ∷ [] }) r in
              IsSafe after.1 × (after.1.requested ≡ false)) [
                | ok v ↦ λ all. (
                  record {
                    behind = behind;
                    kept = h.kept;
                    known = (s.rows ++ row_of v, all);
                    pending = λ k. all;
                    stopped = λ k. absurd (cc);
                  },
                  go,
                )
                | err x ↦ λ all. (
                  record {
                    behind = behind;
                    kept = h.kept;
                    known = (s.rows, ap (λ l. s.inserted ++ l) (sym (append-nil s.rows)) ∙ all);
                    pending = λ k. ap (λ l. s.inserted ++ l) (sym (append-nil s.rows)) ∙ all;
                    stopped = λ k. absurd (cc);
                  },
                  go,
                )
              ]
        all

  pub receive-IsSafe :
      (e : Poll) (s : State)
      → s.requested ≡ false
      → IsSafe s
      → IsSafe (receive p e s).1 × ((receive p e s).1.requested ≡ false)
  unfolding receive
  receive-IsSafe no_message s go h = (h, go)
  receive-IsSafe partition_eof s go h = (h, go)
  receive-IsSafe non_fatal s go h = (h, go)
  receive-IsSafe (fatal x) s go h = (h, go)
  receive-IsSafe (message m) s go h = added-IsSafe m s (deserialize p m) refl go h

  flushed_if_due-IsSafe :
      (e : Event) (s : Progress × State)
      → IsSafe s.1 × (s.1.requested ≡ false)
      → IsSafe (flushed_if_due p e s).1
  flushed_if_due-IsSafe e (running, s) (h, go) = elim (Bool-cases (should_flush p e.checked_at s)) [
    | inl due ↦ rw due (flush_and_yield-IsSafe e.flushed_at s go h)
    | inr early ↦ rw early h
  ]
  flushed_if_due-IsSafe e (finished, s) (h, go) = h
  flushed_if_due-IsSafe e (raised x, s) (h, go) = flush_pending-IsSafe e.flushed_at s h

  pub turn-IsSafe : (e : Event) (s : State) → IsSafe s → IsSafe (turn p e s).1
  unfolding turn
  turn-IsSafe e s h = elim (Bool-cases (s.requested || e.signalled)) [
    | inl stop ↦ rw stop (flush_pending-IsSafe e.flushed_at s h)
    | inr go ↦ rw go (
        flushed_if_due-IsSafe e (receive p e.polled s)
          (receive-IsSafe e.polled s (ground (arith, go)) h))
  ]

  consume_from-IsSafe :
      (es : List Event) (s : Progress × State) → IsSafe s.1 → IsSafe (consume p es s).1
  unfolding consume
  consume_from-IsSafe [] s h = h
  consume_from-IsSafe (e ∷ es) (running, s) h =
      consume_from-IsSafe es (turn p e s) (turn-IsSafe e s h)
  consume_from-IsSafe (e ∷ es) (finished, s) h = h
  consume_from-IsSafe (e ∷ es) (raised x, s) h = h

  pub started-IsSafe : (now : ℕ) → IsSafe (started now)
  started-IsSafe now = record {
    behind = ([], refl);
    kept = ([], refl);
    known = ([], refl);
    pending = λ h. refl;
    stopped = λ h. absurd (cc);
  }

  -- At every moment of the process, whatever the broker, the inserts, the commits, the clock and the
  -- signals do: the rows behind the committed offset are the first of the rows inserted, and these
  -- the first of the rows received, in their order and each once; until an insert or a commit fails,
  -- the rest of the rows is all in the accumulator, and from then on the accumulator is empty.
  pub consume-IsSafe : (now : ℕ) (es : List Event) → IsSafe (consume p es (running, started now)).1
  consume-IsSafe now es = consume_from-IsSafe es (running, started now) (started-IsSafe now)
