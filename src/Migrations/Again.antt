-- ===== src/Migrations/Again.antt =====
-- Applying all migrations when they are applied already.
use text.Mathlib.TextPositions.{eq_refl}
use nyc_taxi.Base.{
  Option-cases, All, ◌+◌, String, ◌≡◌, refl, sym, ap, ◌∙◌, subst, inl, inr, Bool, true, false, ◌||◌,
  Option, none, some, List, [], ◌∷◌, ◌++◌, arith, str_eq,
}
use nyc_taxi.Python.{Error, ok, err}
use nyc_taxi.Migrations.{
  Server, Database, Call, then_call, is_applied, called, execute_with, execute_statements,
  apply_migration, apply_pending, apply_all,
}

module _ (d : Server) where
  abbrev pub AllApplied : List (String × String) → List (String × String) → Type 0
  AllApplied rows = All (λ f. is_applied f.0 rows ≡ true)

  -- A skip of every file.
  apply_pending-AllApplied :
      (files applied : List (String × String)) (s : Database)
      → AllApplied applied files
      → apply_pending d applied files s ≡ (ok tt, s)
  unfolding apply_pending
  apply_pending-AllApplied [] applied s h = refl
  apply_pending-AllApplied ((v, sql) ∷ files) applied s h =
      rw (apply_pending, h.0) (apply_pending-AllApplied files applied s h.1)

  is_applied-append :
      (v : String) (rows more : List (String × String))
      → is_applied v (rows ++ more) ≡ (is_applied v rows || is_applied v more)
  unfolding is_applied
  is_applied-append v [] more = refl
  is_applied-append v ((w, c) ∷ rows) more =
      rw (is_applied-append v rows more)
        (assoc (str_eq v w) (is_applied v rows) (is_applied v more))
    where
      assoc : (a b c : Bool) → (a || (b || c)) ≡ ((a || b) || c)
      assoc true b c = refl
      assoc false b c = refl

  execute_statements-tracked :
      (qs : List String) (s : Database) → (execute_statements d qs s).1.tracked ≡ s.tracked
  unfolding execute_statements execute_with
  execute_statements-tracked [] s = refl
  execute_statements-tracked (q ∷ qs) s = elim (Option-cases (d.execute s.calls)) [
    | inr (e, he) ↦ rw (execute_statements, he) refl
    | inl fine ↦
        rw (execute_statements, fine)
          (execute_statements-tracked qs
            (record s { executed = s.executed ++ q ∷ []; calls = s.calls + 1 }))
  ]

  -- After a call that returned, the rest of the code goes on with its effect.
  execute_with-ok :
      (g : Database → Database) (f : Database → Call) (s t : Database)
      → then_call (execute_with d g s) f ≡ (ok tt, t)
      → f (g (record s { calls = s.calls + 1 })) ≡ (ok tt, t)
  unfolding execute_with
  execute_with-ok g f s t h = settle (d.execute s.calls) h
    where
      settle :
          (o : Option Error)
          → then_call (called d o g s) f ≡ (ok tt, t)
          → f (g (record s { calls = s.calls + 1 })) ≡ (ok tt, t)
      settle none k = k
      settle (some e) k = absurd (cc (ap (λ c. c.0) k))

  apply_migration-tracked :
      (v sql : String) (s t : Database)
      → apply_migration d v sql s ≡ (ok tt, t)
      → t.tracked ≡ s.tracked ++ (v, d.checksum sql) ∷ []
  unfolding apply_migration
  apply_migration-tracked v sql s t h =
      settle (execute_statements d (d.statements_of sql) s)
        (execute_statements-tracked (d.statements_of sql) s) h
    where
      done : (c : Call) → then_call c (λ w. (ok tt, w)) ≡ c
      done (ok u, w) = refl
      done (err e, w) = refl

      settle :
          (c : Call)
          → c.1.tracked ≡ s.tracked
          → then_call c
              (execute_with d (λ w. record w { tracked = w.tracked ++ (v, d.checksum sql) ∷ [] }))
            ≡ (ok tt, t)
          → t.tracked ≡ s.tracked ++ (v, d.checksum sql) ∷ []
      settle (ok u, w) same k =
          let e : (
            ok tt,
            record w { tracked = w.tracked ++ (v, d.checksum sql) ∷ []; calls = w.calls + 1 },
          )
              ≡ (ok tt, t) =
            execute_with-ok (λ w. record w { tracked = w.tracked ++ (v, d.checksum sql) ∷ [] })
              (λ x. (ok tt, x)) w t (done _ ∙ k) in
          sym (ap (λ c. c.1.tracked) e) ∙ ap (λ l. l ++ (v, d.checksum sql) ∷ []) same
      settle (err e, w) same k = absurd (cc (ap (λ c. c.0) k))

  abbrev Within : List (String × String) → List (String × String) → Type 0
  Within rows more = (v : String) → is_applied v rows ≡ true → is_applied v more ≡ true

  Within-append : (rows more : List (String × String)) → Within rows (rows ++ more)
  Within-append rows more v h = rw (is_applied-append v rows more, h) refl

  is_applied-last :
      (v c : String) (rows : List (String × String)) → is_applied v (rows ++ (v, c) ∷ []) ≡ true
  unfolding is_applied
  is_applied-last v c [] = rw (eq_refl v) refl
  is_applied-last v c ((w, x) ∷ rows) = rw (is_applied-last v c rows) (ground arith)

  abbrev Applies : List (String × String) → Database → Database → Type 0
  Applies files s t = AllApplied t.tracked files × Within s.tracked t.tracked

  apply_pending-Applies :
      (files applied : List (String × String)) (s t : Database)
      → Within applied s.tracked
      → apply_pending d applied files s ≡ (ok tt, t)
      → Applies files s t
  unfolding apply_pending
  apply_pending-Applies [] applied s t known h =
      (tt, λ v k. subst (λ (w : Database). is_applied v w.tracked ≡ true) (ap (λ c. c.1) h) k)
  apply_pending-Applies ((v, sql) ∷ files) applied s t known h =
      decided (is_applied v applied) refl (λ k. apply_pending-Applies files applied s t known k)
        (λ w kn k. apply_pending-Applies files applied w t kn k) h
    where
      applied_now :
          (c : Call)
          → apply_migration d v sql s ≡ c
          → ((w : Database)
              → Within applied w.tracked
              → apply_pending d applied files w ≡ (ok tt, t)
              → Applies files w t)
          → then_call c (apply_pending d applied files) ≡ (ok tt, t)
          → Applies ((v, sql) ∷ files) s t
      applied_now (ok u, w) e rest k =
          let grown : w.tracked ≡ s.tracked ++ (v, d.checksum sql) ∷ [] =
            apply_migration-tracked v sql s w e in
          let kept : Within s.tracked w.tracked =
            λ x i. rw grown (Within-append s.tracked ((v, d.checksum sql) ∷ []) x i) in
          let (all, more) = rest w (λ x i. kept x (known x i)) k in
          (
            (more v (rw grown (is_applied-last v (d.checksum sql) s.tracked)), all),
            λ x i. more x (kept x i),
          )
      applied_now (err x, w) e rest k = absurd (cc (ap (λ c. c.0) k))

      decided :
          (b : Bool)
          → is_applied v applied ≡ b
          → (apply_pending d applied files s ≡ (ok tt, t) → Applies files s t)
          → ((w : Database)
              → Within applied w.tracked
              → apply_pending d applied files w ≡ (ok tt, t)
              → Applies files w t)
          → (elim b as (λ x. Call) [
            | true ↦ apply_pending d applied files s
            | false ↦ then_call (apply_migration d v sql s) (apply_pending d applied files)
          ])
            ≡ (ok tt, t)
          → Applies ((v, sql) ∷ files) s t
      decided true e skip rest k = let (all, more) = skip k in ((more v (known v e), all), more)
      decided false e skip rest k = applied_now (apply_migration d v sql s) refl rest k

  -- When `apply_all` returns, every version has its row in the tracking table.
  pub apply_all-AllApplied :
      (files : List (String × String)) (s t : Database)
      → apply_all d files s ≡ (ok tt, t)
      → AllApplied t.tracked files
  unfolding apply_all
  apply_all-AllApplied files s t h =
      let queried = execute_with-ok (λ w. w) _ s t h in
      let loop =
        execute_with-ok (λ w. w) (apply_pending d s.tracked files)
          (record s { calls = s.calls + 1 }) t queried in
      (apply_pending-Applies files s.tracked (record s { calls = s.calls + 1 + 1 }) t (λ v i. i)
        loop).0

  -- When `apply_all` has returned and the server answers the two queries of the next run, that run
  -- returns, executes no statement of a migration and adds nothing to the table.
  pub apply_all-apply_all :
      (files : List (String × String)) (s t : Database)
      → apply_all d files s ≡ (ok tt, t)
      → d.execute t.calls ≡ none
      → d.execute (t.calls + 1) ≡ none
      → apply_all d files t ≡ (ok tt, record t { calls = t.calls + 1 + 1 })
  unfolding apply_all execute_with
  apply_all-apply_all files s t h first second =
      rw (first, second)
        (apply_pending-AllApplied files t.tracked (record t { calls = t.calls + 1 + 1 })
          (apply_all-AllApplied files s t h))
