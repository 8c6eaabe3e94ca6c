-- ===== src/Observability/Correlation/Scopes.antt =====
-- The context variable against lexical scope: the id that is found is that of the innermost block.
use mathlib.Core.List.{append_assoc, append-nil}
use nyc_taxi.Base.{
  false, true, List, [], ◌∙◌, subst, sym, if◌then◌else◌, Bool-cases, length, get_elem?, ℕ, ◌+◌,
  String, ◌≡◌, refl, ap, inl, inr, Bool, true, Option, none, some, List, [], ◌∷◌, ◌++◌, str_eq,
}
use nyc_taxi.Python.{Result, ok, err}
use nyc_taxi.Observability.Correlation.{
  left, and_then, run_body, reset_correlation_id, get_correlation_id, set_correlation_id, Context,
  Uuids, new_correlation_id, mark_used, Body, done, raising, look_up, within, new_context,
}

-- What a program gives where the id around it is this one, "" for none, and so many uuids are drawn.
abbrev pub Scoped : Type 0
Scoped = Result (Unit {0}) × List (String × String) × ℕ

abbrev pub followed : (ℕ → Scoped) → Scoped → Scoped
followed rest (ok u, lines, n) = let (r, more, m) = rest n in (r, lines ++ more, m)
followed rest (err e, lines, n) = (err e, lines, n)

module _ (uuid : Uuids) where
  abbrev pub chosen : Option String → ℕ → String × ℕ
  chosen none n = (uuid n, n + 1)
  chosen (some id) n = if str_eq id "" then (uuid n, n + 1) else (id, n)

  -- The reference: the id is an argument, and there is nothing to restore.
  unfoldable pub scoped : Body → String → ℕ → Scoped
  scoped done id n = (ok tt, [], n)
  scoped (raising e) id n = (err e, [], n)
  scoped (look_up label rest) id n =
      let (r, lines, m) = scoped rest id n in (r, (label, id) ∷ lines, m)
  scoped (within given body rest) id n =
      let (inner, m) = chosen given n in followed (scoped rest id) (scoped body inner m)

  new_context_lem :
      (given : Option String) (s : Context)
      → new_context uuid given s
        ≡ ((chosen given s.drawn).0, record s { drawn = (chosen given s.drawn).1 })
  unfolding new_context new_correlation_id
  new_context_lem none s = refl
  new_context_lem (some id) s = elim (Bool-cases (str_eq id "")) [
    | inl blank ↦ rw blank refl
    | inr given ↦ rw given refl
  ]

get_elem?-append :
    (before more : List (Option String × Bool)) (t : Option String × Bool)
    → get_elem? (before ++ t ∷ more) (length before) ≡ some t
get_elem?-append [] more t = refl
get_elem?-append (b ∷ before) more t = get_elem?-append before more t

mark_used-append :
    (before more : List (Option String × Bool)) (t : Option String × Bool)
    → mark_used (length before) (before ++ t ∷ more) ≡ before ++ (t.0, true) ∷ more
mark_used-append [] more t = refl
mark_used-append (b ∷ before) more t = ap (λ l. b ∷ l) (mark_used-append before more t)

-- A program ends as the reference does, with the id that was there before it, the ids it found behind
-- the others, and no token gone.
pub record Agrees (s : Context) (end : Result (Unit {0}) × Context) (ref : Scoped) : Type 0 where
  pub same_end : end.0 ≡ ref.0
  pub same_lines : end.1.seen ≡ s.seen ++ ref.1
  pub same_drawn : end.1.drawn ≡ ref.2
  pub restored : end.1.correlation_id ≡ s.correlation_id
  pub kept : (more : List (Option String × Bool)) × (end.1.tokens ≡ s.tokens ++ more)

module _ (uuid : Uuids) where
  left_lem :
      (before more : List (Option String × Bool)) (old : Option String)
      (u : Result (Unit {0}) × Context)
      → u.1.tokens ≡ before ++ (old, false) ∷ more
      → left uuid (length before) u
        ≡ (u.0, record u.1 { correlation_id = old; tokens = before ++ (old, true) ∷ more })
  unfolding reset_correlation_id
  left_lem before more old (r, u) h =
      rw (h, get_elem?-append before more (old, false), mark_used-append before more (old, false))
        refl

  and_then-Agrees :
      (rest : Body) (s : Context) (end : Result (Unit {0}) × Context) (ref : Scoped)
      → Agrees s end ref
      → ((t : Context)
          → Agrees t (run_body uuid rest t) (scoped uuid rest (get_correlation_id t) t.drawn))
      → Agrees s
          (and_then uuid (run_body uuid rest) end)
          (followed (scoped uuid rest (get_correlation_id s)) ref)
  unfolding get_correlation_id
  and_then-Agrees rest s (err e, t) (err f, lines, n) h k = h
  and_then-Agrees rest s (err e, t) (ok u, lines, n) h k = absurd (cc (h.same_end))
  and_then-Agrees rest s (ok u, t) (err f, lines, n) h k = absurd (cc (h.same_end))
  and_then-Agrees rest s (ok u, t) (ok v, lines, n) h k =
      let after : Agrees t (run_body uuid rest t) (scoped uuid rest (get_correlation_id s) n) =
        subst (λ m. Agrees t (run_body uuid rest t) (scoped uuid rest (get_correlation_id s) m))
          h.same_drawn
          (subst
            (λ (c : Option String).
              Agrees t (run_body uuid rest t)
                (scoped uuid rest (elim c as (λ x. String) [ none ↦ "" | some id ↦ id ]) t.drawn))
            h.restored (k t)) in
      record {
        same_end = after.same_end;
        same_lines =
            after.same_lines
            ∙ ap (λ l. l ++ (scoped uuid rest (get_correlation_id s) n).1) h.same_lines
            ∙ append_assoc s.seen lines (scoped uuid rest (get_correlation_id s) n).1;
        same_drawn = after.same_drawn;
        restored = after.restored ∙ h.restored;
        kept = (
          h.kept.0 ++ after.kept.0,
          after.kept.1
              ∙ ap (λ l. l ++ after.kept.0) h.kept.1
              ∙ append_assoc s.tokens h.kept.0 after.kept.0,
        );
      }

  -- A block that has been left, from what its body did.
  left-Agrees :
      (s : Context) (id : String) (n : ℕ) (u : Result (Unit {0}) × Context) (ref : Scoped)
      → Agrees (set_correlation_id id (record s { drawn = n })).1 u ref
      → Agrees s (left uuid (length s.tokens) u) ref
  unfolding set_correlation_id
  left-Agrees s id n u ref h =
      let there : u.1.tokens ≡ s.tokens ++ (s.correlation_id, false) ∷ h.kept.0 =
        h.kept.1 ∙ append_assoc s.tokens ((s.correlation_id, false) ∷ []) h.kept.0 in
      subst (λ v. Agrees s v ref) (sym (left_lem s.tokens h.kept.0 s.correlation_id u there))
        (record {
          same_end = h.same_end;
          same_lines = h.same_lines;
          same_drawn = h.same_drawn;
          restored = refl;
          kept = ((s.correlation_id, true) ∷ h.kept.0, refl);
        })

  -- Whatever blocks a program enters within each other, and wherever it raises, it ends as the
  -- reference does, in which the id is passed down as an argument: wherever `get_correlation_id` is
  -- called it gives the id of the innermost block around the call, an exception goes through unchanged, and the id that was there before is back.
  pub run_body-Agrees :
      (b : Body) (s : Context)
      → Agrees s (run_body uuid b s) (scoped uuid b (get_correlation_id s) s.drawn)
  unfolding run_body scoped get_correlation_id
  run_body-Agrees done s = record {
    same_end = refl;
    same_lines = sym (append-nil s.seen);
    same_drawn = refl;
    restored = refl;
    kept = ([], sym (append-nil s.tokens));
  }
  run_body-Agrees (raising e) s = record {
    same_end = refl;
    same_lines = sym (append-nil s.seen);
    same_drawn = refl;
    restored = refl;
    kept = ([], sym (append-nil s.tokens));
  }
  run_body-Agrees (look_up label rest) s =
      let noted : List (String × String) = s.seen ++ (label, get_correlation_id s) ∷ [] in
      let h = run_body-Agrees rest (record s { seen = noted }) in
      let ref : Scoped = scoped uuid rest (get_correlation_id s) s.drawn in
      record {
        same_end = h.same_end;
        same_lines = h.same_lines ∙ append_assoc s.seen ((label, get_correlation_id s) ∷ []) ref.1;
        same_drawn = h.same_drawn;
        restored = h.restored;
        kept = h.kept;
      }
  run_body-Agrees (within given body rest) s =
      let (id, n) = chosen uuid given s.drawn in
      let entered = (set_correlation_id id (record s { drawn = n })).1 in
      let inside = run_body-Agrees body entered in
      rw (new_context_lem uuid given s) (
        and_then-Agrees rest s (left uuid (length s.tokens) (run_body uuid body entered))
          (scoped uuid body id n)
          (left-Agrees s id n (run_body uuid body entered) (scoped uuid body id n) inside)
          (λ t. run_body-Agrees rest t))
