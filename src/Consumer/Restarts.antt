-- ===== src/Consumer/Restarts.antt =====
-- A consumer group whose process dies and is started again, as the head of etl/entrypoints/consumer.py
-- describes it: messages that no committed offset is behind are delivered once more.
use nyc_taxi.Consumer.Endings.{NothingFails, AllPersisted, consume-AllPersisted}
pub mod Delivery
use mathlib.Core.List.{
  append_assoc, append-nil, not-mem-nil, mem-append, mem-append_left, mem-append_right, Mem,
  Mem-prop, Permᴰ,
}
use mathlib.Core.Logic.Or
use mathlib.Core.List.Permᴰ
use nyc_taxi.Base.{
  ◌≢◌, Option, length, drop, ℕ, String, ◌≡◌, refl, sym, ap, ◌∙◌, subst, List, [], ◌∷◌, ◌++◌,
}
use nyc_taxi.Python.{Dict, Error}
use nyc_taxi.Consumer.{
  Progress, finished, raised, Event, Ports, State, started, running, deserialize, consume,
}
use nyc_taxi.Consumer.Persistence.{decoded, rows_of, IsSafe, consume-IsSafe}
use nyc_taxi.Consumer.Order.{rows_of-append, rows_of-Permᴰ}

-- The messages of the topic that no committed offset is behind, and the rows of the table.
pub record Group : Type 0 where
  pub waiting : List String
  pub table : List Dict

-- The messages that the process received and did not commit.
abbrev pub not_committed : State → List String
not_committed s = drop (length s.committed) s.received

drop-append : (left right : List String) → drop (length left) (left ++ right) ≡ right
drop-append [] right = refl
drop-append (l ∷ left) right = drop-append left right

pub append-cancel : (left a b : List Dict) → left ++ a ≡ left ++ b → a ≡ b
append-cancel [] a b h = h
append-cancel (l ∷ left) a b h = append-cancel left a b (cc (h))

module _ (p : Ports) where
  -- The settings are those of every process; what its inserts and commits raise is its own.
  abbrev pub process : (ℕ → List Dict → Option Error) → (ℕ → Option Error) → ℕ → List Event → State
  process insert commit now es =
      (consume (record p { insert = insert; commit = commit }) es (running, started now)).1

  pub rows_of-process :
      (insert : ℕ → List Dict → Option Error) (commit : ℕ → Option Error) (ms : List String)
      → rows_of (record p { insert = insert; commit = commit }) ms ≡ rows_of p ms
  unfolding deserialize
  rows_of-process insert commit [] = refl
  rows_of-process insert commit (m ∷ ms) =
      ap (λ l. decoded p (deserialize p m) ++ l) (rows_of-process insert commit ms)

  -- What a process inserted: the rows of the messages it committed, and some first rows of the others.
  abbrev pub IsAhead : State → Type 0
  IsAhead s =
      (more : List Dict) × (rest : List Dict) × (s.inserted ≡ rows_of p s.committed ++ more)
      × (more ++ rest ≡ rows_of p (not_committed s))
      × (s.committed ++ not_committed s ≡ s.received)

  safe-IsAhead :
      (s : State) (later : List String) (more rest : List Dict)
      → s.committed ++ later ≡ s.received
      → rows_of p s.committed ++ more ≡ s.inserted
      → s.inserted ++ rest ≡ rows_of p s.received
      → IsAhead s
  safe-IsAhead s later more rest split kept known =
      let same : not_committed s ≡ later =
        ap (drop (length s.committed)) (sym split) ∙ drop-append s.committed later in
      (
        more,
        rest,
        sym kept,
        append-cancel (rows_of p s.committed) (more ++ rest) (rows_of p (not_committed s)) (
            sym (append_assoc (rows_of p s.committed) more rest)
            ∙ ap (λ l. l ++ rest) kept
            ∙ known
            ∙ ap (rows_of p) (sym split)
            ∙ rows_of-append p s.committed later
            ∙ ap (λ l. rows_of p s.committed ++ rows_of p l) (sym same)),
        ap (λ l. s.committed ++ l) same ∙ split,
      )

  pub process-IsAhead :
      (insert : ℕ → List Dict → Option Error) (commit : ℕ → Option Error) (now : ℕ)
      (es : List Event)
      → IsAhead (process insert commit now es)
  process-IsAhead insert commit now es =
      let safe = consume-IsSafe (record p { insert = insert; commit = commit }) now es in
      let s : State = process insert commit now es in
      safe-IsAhead s safe.behind.0 safe.kept.0 safe.known.0 safe.behind.1
        (ap (λ l. l ++ safe.kept.0) (sym (rows_of-process insert commit s.committed)) ∙ safe.kept.1)
        (safe.known.1 ∙ rows_of-process insert commit s.received)

  module _ (Possible : (ℕ → List Dict → Option Error) → Type 0) where
    -- One process, up to its end or to the moment at which it is killed: it received some of the
    -- messages that were waiting, in any order. What its inserts raise is something possible.
    pub data Life : Group → Group → Type 0 where
      lived :
          (insert : ℕ → List Dict → Option Error) (commit : ℕ → Option Error) (now : ℕ)
          (es : List Event) (unread : List String) {g h : Group}
          → Possible insert
          → Permᴰ ((process insert commit now es).received ++ unread) g.waiting
          → h.waiting ≡ not_committed (process insert commit now es) ++ unread
          → h.table ≡ g.table ++ (process insert commit now es).inserted
          → Life g h

    -- Any number of processes, one after the other.
    pub data Lives : Group → Group → Type 0 where
      unborn : {g : Group} → Lives g g
      reborn : {g h k : Group} → Lives g h → Life h k → Lives g k

    -- The messages that no longer wait were waiting: none comes in.
    pub life-waits :
        {g h : Group} → Life g h → (done : List String) × Permᴰ (done ++ h.waiting) g.waiting
    life-waits (lived insert commit now es unread {g} {h} possible got left_over table) =
        let s : State = process insert commit now es in
        let (more, rest, inserted, first, split) = process-IsAhead insert commit now es in
        (
          s.committed,
          subst (λ l. Permᴰ l g.waiting)
              (ap (λ l. l ++ unread) (sym split)
                ∙ append_assoc s.committed (not_committed s) unread
                ∙ ap (λ l. s.committed ++ l) (sym left_over))
              got,
        )
