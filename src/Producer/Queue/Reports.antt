-- ===== src/Producer/Queue/Reports.antt =====
-- What the delivery reports do to the messages: none is lost and none appears.
use mathlib.Core.List.{append_assoc, Permᴰ}
use mathlib.Core.List.Permᴰ
use mathlib.Core.Option.{some-injective}
use nyc_taxi.Base.{zero, suc, ℕ, ◌≡◌, refl, ◌∙◌, subst, Option, none, some, List, [], ◌∷◌, ◌++◌}
use nyc_taxi.Python.{Error}
use nyc_taxi.Retry.{}
use nyc_taxi.DeadLetter.Publisher.{}
use nyc_taxi.Producer.{}
use nyc_taxi.Producer.Queue.{
  KeyValue, Buffered, Report, in_front, take_at, delivery_callback, reported, serve,
}

take_at-Permᴰ :
    (i : ℕ) (queue : List KeyValue) (m : KeyValue) (rest : List KeyValue)
    → take_at i queue ≡ some (m, rest)
    → Permᴰ (m ∷ rest) queue
unfolding take_at
take_at-Permᴰ i [] m rest h = absurd (cc)
take_at-Permᴰ zero (n ∷ queue) m rest h =
    let same : (n, queue) ≡ (m, rest) = some-injective _ _ h in
    subst (λ x. Permᴰ (x.0 ∷ x.1) (n ∷ queue)) same (Permᴰ.refl (n ∷ queue))
take_at-Permᴰ (suc i) (n ∷ queue) m rest h =
    found (take_at i queue) (λ k left e. take_at-Permᴰ i queue k left e) h
  where
    found :
        (o : Option (KeyValue × List KeyValue))
        → ((k : KeyValue) (left : List KeyValue) → o ≡ some (k, left) → Permᴰ (k ∷ left) queue)
        → in_front n o ≡ some (m, rest)
        → Permᴰ (m ∷ rest) (n ∷ queue)
    found none taken h = absurd (cc)
    found (some (k, left)) taken h =
        let same : (k, n ∷ left) ≡ (m, rest) = some-injective _ _ h in
        subst (λ x. Permᴰ (x.0 ∷ x.1) (n ∷ queue)) same
          (Permᴰ.trans (Permᴰ.swap refl refl) (Permᴰ.cons refl (taken k left refl)))

-- Each message that was taken is in the queue, was delivered, or failed, as often as it was taken.
abbrev pub IsAccounted : Buffered → Type 0
IsAccounted s = Permᴰ (s.queue ++ (s.delivered ++ s.failed)) s.taken.enqueued

-- A message from the front is moved to the end of one of two lists.
moved_first :
    (m : KeyValue) (rest delivered failed : List KeyValue)
    → Permᴰ (rest ++ ((delivered ++ m ∷ []) ++ failed)) (m ∷ (rest ++ (delivered ++ failed)))
moved_first m rest delivered failed =
    subst (λ l. Permᴰ l (m ∷ (rest ++ (delivered ++ failed)))) (simp (append_assoc) refl)
      (subst (λ l. Permᴰ ((rest ++ delivered) ++ m ∷ failed) (m ∷ l))
        (append_assoc rest delivered failed) (Permᴰ.middle m (rest ++ delivered) failed))

moved_second :
    (m : KeyValue) (rest delivered failed : List KeyValue)
    → Permᴰ (rest ++ (delivered ++ (failed ++ m ∷ []))) (m ∷ (rest ++ (delivered ++ failed)))
moved_second m rest delivered failed =
    subst (λ l. Permᴰ l (m ∷ (rest ++ (delivered ++ failed)))) (simp (append_assoc) refl)
      (Permᴰ.append_comm (rest ++ (delivered ++ failed)) (m ∷ []))

delivery_callback-IsAccounted :
    (error : Option Error) (m : KeyValue) (rest : List KeyValue) (s : Buffered)
    → Permᴰ (m ∷ rest) s.queue
    → IsAccounted s
    → IsAccounted (delivery_callback error m (record s { queue = rest }))
unfolding delivery_callback
delivery_callback-IsAccounted none m rest s found h =
    Permᴰ.trans (moved_first m rest s.delivered s.failed)
      (Permᴰ.trans (Permᴰ.append_right (s.delivered ++ s.failed) found) h)
delivery_callback-IsAccounted (some e) m rest s found h =
    Permᴰ.trans (moved_second m rest s.delivered s.failed)
      (Permᴰ.trans (Permᴰ.append_right (s.delivered ++ s.failed) found) h)

reported-IsAccounted :
    (error : Option Error) (i : ℕ) (s : Buffered) (o : Option (KeyValue × List KeyValue))
    → take_at i s.queue ≡ o
    → IsAccounted s
    → IsAccounted (reported error o s)
reported-IsAccounted error i s none e h = h
reported-IsAccounted error i s (some (m, rest)) e h =
    delivery_callback-IsAccounted error m rest s (take_at-Permᴰ i s.queue m rest e) h

pub serve-IsAccounted :
    (reports : List Report) (s : Buffered) → IsAccounted s → IsAccounted (serve reports s)
unfolding serve
serve-IsAccounted [] s h = h
serve-IsAccounted ((i, error) ∷ reports) s h =
    serve-IsAccounted reports (reported error (take_at i s.queue) s)
      (reported-IsAccounted error i s (take_at i s.queue) refl h)

-- The reports leave what was taken as it is.
reported-taken :
    (error : Option Error) (o : Option (KeyValue × List KeyValue)) (s : Buffered)
    → (reported error o s).taken ≡ s.taken
unfolding delivery_callback
reported-taken error none s = refl
reported-taken none (some (m, rest)) s = refl
reported-taken (some e) (some (m, rest)) s = refl

pub serve-taken : (reports : List Report) (s : Buffered) → (serve reports s).taken ≡ s.taken
unfolding serve
serve-taken [] s = refl
serve-taken ((i, error) ∷ reports) s =
    serve-taken reports (reported error (take_at i s.queue) s)
    ∙ reported-taken error (take_at i s.queue) s
