-- ===== src/Producer/Queue/Drained.antt =====
-- What a flush that returns 0 leaves behind.
use mathlib.Core.List.{append-nil, append_assoc, Permᴰ}
use mathlib.Core.List.Permᴰ
use mathlib.Core.Option.{}
use nyc_taxi.Base.{
  length, arith, zero, suc, ◌==◌, Bool-cases, ℕ, ◌≡◌, refl, sym, ap, ◌∙◌, subst, inl, inr, ◌&&◌,
  not, Option, none, some, List, [], ◌∷◌, ◌++◌,
}
use nyc_taxi.Python.{Result-cases, Float, Dict, Error, Result, ok, err}
use nyc_taxi.Retry.{retry}
use nyc_taxi.DeadLetter.Publisher.{is_kafka_error}
use nyc_taxi.Producer.{
  Client, Taken, encoded, answered, produce_encoded, publish_all, slept, first_delay, backoff,
  publish_batch,
}
use nyc_taxi.Producer.Queue.{
  KeyValue, Buffered, Report, poll, taken_in, take_encoded, publish_polled, slept_buffered,
  publish_buffered, flush,
}
use nyc_taxi.Producer.Queue.Reports.{IsAccounted, serve-IsAccounted, serve-taken}

module _ (c : Client) (reports : ℕ → List Report) where
  taken_in-IsAccounted :
      (m : KeyValue) (o : Option Error) (s : Buffered)
      → IsAccounted s
      → IsAccounted (taken_in c reports m o s).1
  unfolding poll
  taken_in-IsAccounted m none s h = serve-IsAccounted (reports s.polls) _ (
      Permᴰ.trans
        (subst (λ l. Permᴰ l (m ∷ (s.queue ++ (s.delivered ++ s.failed))))
          (sym (append_assoc s.queue (m ∷ []) (s.delivered ++ s.failed)))
          (Permᴰ.middle m s.queue (s.delivered ++ s.failed)))
        (Permᴰ.trans (Permᴰ.cons refl h) (Permᴰ.append_comm (m ∷ []) s.taken.enqueued)))
  taken_in-IsAccounted m (some e) s h = h

  -- What a call with a queue behind it is without one.
  abbrev seen {ℓ} : {A : Type ℓ} → Result A × Buffered → Result A × Taken
  seen (r, s) = (r, s.taken)

  taken_in-seen :
      (m : KeyValue) (o : Option Error) (s : Buffered)
      → seen (taken_in c reports m o s) ≡ answered c m o s.taken
  unfolding poll
  taken_in-seen m none s = ap (λ t. (ok tt, t)) (serve-taken (reports s.polls) _)
  taken_in-seen m (some e) s = refl

  take_encoded-IsAccounted :
      (r : Result KeyValue) (s : Buffered)
      → IsAccounted s
      → IsAccounted (take_encoded c reports r s).1
  take_encoded-IsAccounted (ok m) s h = taken_in-IsAccounted m (c.produce s.taken.produce_calls) s h
  take_encoded-IsAccounted (err e) s h = h

  take_encoded-seen :
      (r : Result KeyValue) (s : Buffered)
      → seen (take_encoded c reports r s) ≡ produce_encoded c r s.taken
  take_encoded-seen (ok m) s = taken_in-seen m (c.produce s.taken.produce_calls) s
  take_encoded-seen (err e) s = refl

  publish_polled-IsAccounted :
      (ms : List Dict) (s : Buffered)
      → IsAccounted s
      → IsAccounted (publish_polled c reports ms s).1
  unfolding publish_polled poll
  publish_polled-IsAccounted [] s h = serve-IsAccounted (reports s.polls) _ h
  publish_polled-IsAccounted (m ∷ ms) s h =
      let t = take_encoded c reports (encoded c m) s in
      let next : IsAccounted t.1 = take_encoded-IsAccounted (encoded c m) s h in
      elim (Result-cases t.0) [
        | inl (u, e) ↦ rw (publish_polled, e) (publish_polled-IsAccounted ms t.1 next)
        | inr (e, he) ↦ rw (publish_polled, he) next
      ]

  publish_polled-seen :
      (ms : List Dict) (s : Buffered)
      → seen (publish_polled c reports ms s) ≡ publish_all c ms s.taken
  unfolding publish_polled publish_all poll
  publish_polled-seen [] s = ap (λ t. (ok tt, t)) (serve-taken (reports s.polls) _)
  publish_polled-seen (m ∷ ms) s =
      let t = take_encoded c reports (encoded c m) s in
      let same : seen t ≡ produce_encoded c (encoded c m) s.taken =
        take_encoded-seen (encoded c m) s in
      elim (Result-cases t.0) [
        | inl (u, e) ↦
            let step : publish_polled c reports (m ∷ ms) s ≡ publish_polled c reports ms t.1 =
              rw (publish_polled, e) refl in
            let step_seen : publish_all c (m ∷ ms) s.taken
                ≡ publish_all c ms (produce_encoded c (encoded c m) s.taken).1 =
              rw (publish_all, sym (ap (λ x. x.0) same) ∙ e) refl in
            ap seen step
            ∙ publish_polled-seen ms t.1
            ∙ ap (λ x. publish_all c ms x.1) same
            ∙ sym step_seen
        | inr (e, he) ↦
            let step : publish_polled c reports (m ∷ ms) s ≡ (err e, t.1) =
              rw (publish_polled, he) refl in
            let step_seen : publish_all c (m ∷ ms) s.taken
                ≡ (err e, (produce_encoded c (encoded c m) s.taken).1) =
              rw (publish_all, sym (ap (λ x. x.0) same) ∙ he) refl in
            ap seen step ∙ ap (λ x. (err e, x.1)) same ∙ sym step_seen
      ]

  abbrev retried : List Dict → ℕ → Float → Buffered → Result (Option (Unit {0})) × Buffered
  retried ms n delay s =
      retry is_kafka_error c.times (slept_buffered c reports) (backoff c)
        (publish_polled c reports ms) n delay s

  retried-IsAccounted :
      (ms : List Dict) (n : ℕ) (delay : Float) (s : Buffered)
      → IsAccounted s
      → IsAccounted (retried ms n delay s).1
  unfolding retry
  retried-IsAccounted ms zero delay s h = h
  retried-IsAccounted ms (suc n) delay s h =
      let t = publish_polled c reports ms s in
      let next : IsAccounted t.1 = publish_polled-IsAccounted ms s h in
      elim (Result-cases t.0) [
        | inl (u, e) ↦ rw (retry, e) next
        | inr (x, e) ↦ elim (Bool-cases (is_kafka_error x && not (n == 0))) [
          | inr stop ↦ rw (retry, e, stop) next
          | inl go ↦
              rw (retry, e, go)
                (retried-IsAccounted ms n (c.times delay (backoff c))
                  (slept_buffered c reports delay t.1) next)
        ]
      ]

  abbrev retried_seen : List Dict → ℕ → Float → Taken → Result (Option (Unit {0})) × Taken
  retried_seen ms n delay t =
      retry is_kafka_error c.times (slept c) (backoff c) (publish_all c ms) n delay t

  retried-seen :
      (ms : List Dict) (n : ℕ) (delay : Float) (s : Buffered)
      → seen (retried ms n delay s) ≡ retried_seen ms n delay s.taken
  unfolding retry
  retried-seen ms zero delay s = refl
  retried-seen ms (suc n) delay s =
      let t = publish_polled c reports ms s in
      let v = publish_all c ms s.taken in
      let same : seen t ≡ v = publish_polled-seen ms s in
      elim (Result-cases t.0) [
        | inl (u, e) ↦
            let step : retried ms (suc n) delay s ≡ (ok (some u), t.1) = rw (retry, e) refl in
            let step_seen : retried_seen ms (suc n) delay s.taken ≡ (ok (some u), v.1) =
              rw (retry, sym (ap (λ x. x.0) same) ∙ e) refl in
            ap seen step ∙ ap (λ x. (ok (some u), x.1)) same ∙ sym step_seen
        | inr (x, e) ↦ elim (Bool-cases (is_kafka_error x && not (n == 0))) [
          | inr stop ↦
              let step : retried ms (suc n) delay s ≡ (err x, t.1) = rw (retry, e, stop) refl in
              let step_seen : retried_seen ms (suc n) delay s.taken ≡ (err x, v.1) =
                rw (retry, sym (ap (λ x. x.0) same) ∙ e, stop) refl in
              ap seen step ∙ ap (λ y. (err x, y.1)) same ∙ sym step_seen
          | inl go ↦
              let later = c.times delay (backoff c) in
              let step : retried ms (suc n) delay s
                  ≡ retried ms n later (slept_buffered c reports delay t.1) =
                rw (retry, e, go) refl in
              let step_seen : retried_seen ms (suc n) delay s.taken
                  ≡ retried_seen ms n later (slept c delay v.1) =
                rw (retry, sym (ap (λ x. x.0) same) ∙ e, go) refl in
              ap seen step
              ∙ retried-seen ms n later (slept_buffered c reports delay t.1)
              ∙ ap (λ y. retried_seen ms n later (slept c delay y.1)) same
              ∙ sym step_seen
        ]
      ]

  publish_buffered-IsAccounted :
      (ms : List Dict) (s : Buffered)
      → IsAccounted s
      → IsAccounted (publish_buffered c reports ms s).1
  unfolding publish_buffered
  publish_buffered-IsAccounted ms s h = retried-IsAccounted ms 5 (first_delay c) s h

  publish_buffered-seen :
      (ms : List Dict) (s : Buffered)
      → seen (publish_buffered c reports ms s) ≡ publish_batch c ms s.taken
  unfolding publish_buffered publish_batch
  publish_buffered-seen ms s = retried-seen ms 5 (first_delay c) s

  -- `publish_batch`, and the `flush` behind it.
  abbrev pub flushed_after : List Dict → Buffered → ℕ × Buffered
  flushed_after ms s = flush c reports (publish_buffered c reports ms s).1

  -- If each message taken before waits in the queue, was delivered or failed, as often as it was taken,
  -- and after `publish_batch` the flush returns 0 and no delivery failed so far: then `publish_batch`
  -- ended in the same way, after the same pauses, and took the same messages as it does without the
  -- queue, and what was delivered is what was taken, in some order.
  pub flush-publish_buffered :
      (ms : List Dict) (s : Buffered)
      → IsAccounted s
      → (flushed_after ms s).0 ≡ 0
      → (flushed_after ms s).1.failed ≡ []
      → let u = (flushed_after ms s).1 in
        (((publish_buffered c reports ms s).0, u.taken) ≡ publish_batch c ms s.taken)
        × Permᴰ u.delivered u.taken.enqueued
  unfolding flush poll
  flush-publish_buffered ms s h empty fine =
      let (result, t) = publish_buffered c reports ms s in
      let u = (flush c reports t).1 in
      let all : IsAccounted u =
        serve-IsAccounted (reports t.polls) _ (publish_buffered-IsAccounted ms s h) in
      (
        ap (λ x. (result, x)) (serve-taken (reports t.polls) _) ∙ publish_buffered-seen ms s,
        subst (λ l. Permᴰ l u.taken.enqueued)
            (ap (λ q. q ++ (u.delivered ++ u.failed)) (emptied u.queue empty)
              ∙ ap (λ l. u.delivered ++ l) fine
              ∙ append-nil u.delivered)
            all,
      )
    where
      emptied : (queue : List KeyValue) → length queue ≡ 0 → queue ≡ []
      emptied [] e = refl
      emptied (m ∷ queue) e = absurd (omega (arith, e))
