-- ===== src/Consumer/Restarts/Delivery.antt =====
-- What the processes of a consumer group leave in the table, one after the other.
use mathlib.Core.List.{
  append_assoc, append-nil, not-mem-nil, mem-append, mem-append_left, mem-append_right, Mem,
  Mem-prop, Permᴰ,
}
use mathlib.Core.Logic.Or
use mathlib.Core.List.Permᴰ
use nyc_taxi.Base.{◌≢◌, Option, ℕ, String, ◌≡◌, refl, sym, ap, ◌∙◌, subst, List, [], ◌++◌}
use nyc_taxi.Python.{Dict, Error}
use nyc_taxi.Consumer.{Progress, finished, raised, Event, Ports, State, started, running, consume}
use nyc_taxi.Consumer.Persistence.{rows_of}
use nyc_taxi.Consumer.Order.{rows_of-append, rows_of-Permᴰ}
use nyc_taxi.Consumer.Endings.{NothingFails, AllPersisted, consume-AllPersisted}
use nyc_taxi.Consumer.Restarts.{
  Group, not_committed, append-cancel, process, Life, lived, Lives, unborn, reborn, rows_of-process,
  IsAhead, process-IsAhead, life-waits,
}

module _ (p : Ports) (Possible : (ℕ → List Dict → Option Error) → Type 0) where
  -- The rows inserted once more are of messages that were waiting; but for them, the table and the
  -- messages that wait hold each row as often as before.
  abbrev pub IsRepeated : Group → Group → Type 0
  IsRepeated g h =
      (again : List Dict) × ((row : Dict) → Mem row again → Mem row (rows_of p g.waiting))
      × Permᴰ (h.table ++ rows_of p h.waiting) ((g.table ++ rows_of p g.waiting) ++ again)

  regroup :
      (table committed more later unread : List Dict)
      → Permᴰ
          ((table ++ (committed ++ more)) ++ (later ++ unread))
          ((table ++ ((committed ++ later) ++ unread)) ++ more)
  regroup table committed more later unread =
      subst (λ l. Permᴰ l ((table ++ ((committed ++ later) ++ unread)) ++ more))
        (simp (append_assoc) refl)
        (subst (Permᴰ (table ++ (committed ++ (more ++ (later ++ unread)))))
          (simp (append_assoc) refl)
          (Permᴰ.append_left table
            (Permᴰ.append_left committed (Permᴰ.append_comm more (later ++ unread)))))

  rows_of-ends :
      (s : State) (unread : List String) (g h : Group)
      → IsAhead p s
      → Permᴰ (s.received ++ unread) g.waiting
      → h.waiting ≡ not_committed s ++ unread
      → h.table ≡ g.table ++ s.inserted
      → IsRepeated g h
  rows_of-ends s unread g h (more, rest, inserted, first, split) got left_over table =
      let c : List Dict = rows_of p s.committed in
      let l : List Dict = rows_of p (not_committed s) in
      let u : List Dict = rows_of p unread in
      let all : rows_of p (s.received ++ unread) ≡ (c ++ l) ++ u =
        ap (λ m. rows_of p (m ++ unread)) (sym split)
        ∙ rows_of-append p (s.committed ++ not_committed s) unread
        ∙ ap (λ r. r ++ u) (rows_of-append p s.committed (not_committed s)) in
      let before : Permᴰ ((c ++ l) ++ u) (rows_of p g.waiting) =
        subst (λ r. Permᴰ r (rows_of p g.waiting)) all (rows_of-Permᴰ p got) in
      (
        more,
        λ row m. Permᴰ.mem before (
            mem-append_left u
              (mem-append_right c (subst (Mem row) first (mem-append_left rest m)))),
        subst (λ r. Permᴰ r ((g.table ++ rows_of p g.waiting) ++ more))
            (rw (table, inserted, left_over, rows_of-append p (not_committed s) unread) refl)
            (Permᴰ.trans (regroup g.table c more l u)
              (Permᴰ.append_right more (Permᴰ.append_left g.table before))),
      )

  pub Life-IsRepeated : {g h : Group} → Life p Possible g h → IsRepeated g h
  Life-IsRepeated (lived insert commit now es unread {g} {h} possible got left_over table) =
      rows_of-ends (process p insert commit now es) unread g h
        (process-IsAhead p insert commit now es) got left_over table

  waits-rows_of :
      (done left all : List String) (row : Dict)
      → Permᴰ (done ++ left) all
      → Mem row (rows_of p left)
      → Mem row (rows_of p all)
  waits-rows_of done left all row d m =
      Permᴰ.mem (rows_of-Permᴰ p d)
        (subst (Mem row) (sym (rows_of-append p done left)) (mem-append_right (rows_of p done) m))

  lives-waits :
      {g h : Group}
      → Lives p Possible g h
      → (row : Dict) → Mem row (rows_of p h.waiting)
      → Mem row (rows_of p g.waiting)
  lives-waits unborn row m = m
  lives-waits (reborn {h = h} {k = k} before l) row m =
      let (done, d) = life-waits p Possible l in
      lives-waits before row (waits-rows_of done k.waiting h.waiting row d m)

  IsRepeated-step :
      (g h k : Group)
      → ((row : Dict) → Mem row (rows_of p h.waiting) → Mem row (rows_of p g.waiting))
      → IsRepeated g h
      → IsRepeated h k
      → IsRepeated g k
  IsRepeated-step g h k waits (again, of_g, perm) (more, of_h, last) = (
    again ++ more,
    λ row m. Or.elim Mem-prop (mem-append.0 m) (of_g row) (λ there. waits row (of_h row there)),
    subst (Permᴰ (k.table ++ rows_of p k.waiting))
        (append_assoc (g.table ++ rows_of p g.waiting) again more)
        (Permᴰ.trans last (Permᴰ.append_right more perm)),
  )

  -- Through any number of processes of the group, each up to its end or to its death and whatever
  -- fails in it, and whatever the order in which messages come: of the rows that waited at first and
  -- of those in the table none is lost and none appears, and each is in the table or waits as often
  -- as at first, but for rows of messages that waited at first, which may be inserted again.
  pub Lives-IsRepeated : {g h : Group} → Lives p Possible g h → IsRepeated g h
  Lives-IsRepeated {g} unborn = (
    [],
    λ row m. absurd (not-mem-nil m),
    subst (Permᴰ (g.table ++ rows_of p g.waiting))
        (sym (append-nil (g.table ++ rows_of p g.waiting)))
        (Permᴰ.refl (g.table ++ rows_of p g.waiting)),
  )
  Lives-IsRepeated {g} (reborn {h = h} {k = k} before l) =
      IsRepeated-step g h k (lives-waits before) (Lives-IsRepeated before) (Life-IsRepeated l)

  -- The table holds every row that was in it or waited, as often as it was there, and beside them only
  -- rows of messages that waited, inserted again.
  abbrev pub HoldsAll : Group → List Dict → Type 0
  HoldsAll g table =
      (again : List Dict) × ((row : Dict) → Mem row again → Mem row (rows_of p g.waiting))
      × Permᴰ table ((g.table ++ rows_of p g.waiting) ++ again)

  left-AllPersisted :
      (q : Ports) (u : Progress × State)
      → u.0 ≢ running
      → AllPersisted q u
      → rows_of q u.1.committed ≡ rows_of q u.1.received
  left-AllPersisted q (running, s) left h = absurd (left refl)
  left-AllPersisted q (finished, s) left h = h.1
  left-AllPersisted q (raised e, s) left h = h.1

  none_waits :
      (s : State)
      → rows_of p s.committed ≡ rows_of p s.received
      → IsAhead p s
      → rows_of p (not_committed s) ≡ []
  none_waits s same (more, rest, inserted, first, split) =
      append-cancel (rows_of p s.committed) (rows_of p (not_committed s)) [] (
        sym (rows_of-append p s.committed (not_committed s))
        ∙ ap (rows_of p) split
        ∙ sym same
        ∙ sym (append-nil (rows_of p s.committed)))

  -- After any number of processes that died or failed in any way, a process that receives all the
  -- messages that wait, in which every insert and commit returns and whose loop was left, leaves in the
  -- table every row that was in it or waited at first, as often as it was there, and beside them only
  -- rows of messages that waited at first, inserted again.
  pub Lives-HoldsAll :
      {g h : Group} (insert : ℕ → List Dict → Option Error) (commit : ℕ → Option Error) (now : ℕ)
      (es : List Event)
      → Lives p Possible g h
      → Possible insert
      → let q : Ports = record p { insert = insert; commit = commit } in
        NothingFails q
        → Permᴰ (process p insert commit now es).received h.waiting
        → (consume q es (running, started now)).0 ≢ running
        → HoldsAll g (h.table ++ (process p insert commit now es).inserted)
  Lives-HoldsAll {g} {h} insert commit now es before possible works got left =
      let q : Ports = record p { insert = insert; commit = commit } in
      let s : State = process p insert commit now es in
      let k : Group = record { waiting = not_committed s ++ []; table = h.table ++ s.inserted } in
      let last : Life p Possible h k =
        lived insert commit now es [] possible (Permᴰ.trans (Permᴰ.append-nil s.received) got) refl
          refl in
      let same : rows_of p s.committed ≡ rows_of p s.received =
        sym (rows_of-process p insert commit s.committed)
        ∙ left-AllPersisted q (consume q es (running, started now)) left
            (consume-AllPersisted q now es works)
        ∙ rows_of-process p insert commit s.received in
      let empty : rows_of p k.waiting ≡ [] =
        ap (rows_of p) (append-nil (not_committed s))
        ∙ none_waits s same (process-IsAhead p insert commit now es) in
      let (again, of_g, perm) = Lives-IsRepeated (reborn before last) in
      (
        again,
        of_g,
        subst (λ l. Permᴰ l ((g.table ++ rows_of p g.waiting) ++ again))
            (ap (λ l. k.table ++ l) empty ∙ append-nil k.table) perm,
      )
