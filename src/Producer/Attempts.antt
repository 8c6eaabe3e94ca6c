-- ===== src/Producer/Attempts.antt =====
-- What a batch that is published with retries hands to the client library.
use mathlib.Core.List.{append-nil, append_assoc}
use nyc_taxi.Base.{
  zero, suc, ◌==◌, Bool-cases, Option-cases, length, length-append, ℕ, ◌+◌, ◌≤◌, String, ◌≡◌, refl,
  sym, ap, ◌∙◌, subst, inl, inr, ◌&&◌, not, Option, List, [], ◌∷◌, ◌++◌, arith,
}
use nyc_taxi.Python.{Result-cases, Float, Dict, Result, ok, err, ◌>>=◌, >>=-elim, ok-injective}
use nyc_taxi.Producer.{
  Client, Taken, encoded, produce_encoded, publish_all, slept, first_delay, backoff, publish_batch,
}
use nyc_taxi.Retry.{retry}
use nyc_taxi.DeadLetter.Publisher.{is_kafka_error}

-- What `n` attempts that broke off and a last one that did not leave: each begins at the first message.
pub data Attempts {ℓ} {A : Type ℓ} (whole : List A) : ℕ → List A → Type ℓ where
  complete : Attempts whole 0 whole
  broken_off :
      {n : ℕ} {rest : List A} (begun left_out : List A)
      → begun ++ left_out ≡ whole
      → Attempts whole n rest
      → Attempts whole (suc n) (begun ++ rest)

module _ (c : Client) where
  -- The messages as they are enqueued.
  unfoldable pub encode_all : List Dict → Result (List (String × String))
  encode_all [] = ok []
  encode_all (m ∷ ms) = do kv ← encoded c m; rest ← encode_all ms; ok (kv ∷ rest)

  -- One attempt publishes all messages, or some first ones.
  abbrev Attempted : List Dict → Taken → Result (Unit {0}) × Taken → Type 0
  Attempted ms s (ok u, t) =
      (whole : List (String × String)) × (encode_all ms ≡ ok whole)
      × (t.enqueued ≡ s.enqueued ++ whole)
      × (t.sleeps ≡ s.sleeps)
  Attempted ms s (err e, t) =
      (begun : List (String × String)) × (t.enqueued ≡ s.enqueued ++ begun)
      × (t.sleeps ≡ s.sleeps)
      × ((whole : List (String × String))
          → encode_all ms ≡ ok whole
          → (left_out : List (String × String)) × (begun ++ left_out ≡ whole))

  Attempted-step :
      (m : Dict) (ms : List Dict) (s t : Taken) (kv : String × String)
      (r : Result (Unit {0}) × Taken)
      → encoded c m ≡ ok kv
      → t.enqueued ≡ s.enqueued ++ kv ∷ []
      → t.sleeps ≡ s.sleeps
      → Attempted ms t r
      → Attempted (m ∷ ms) s r
  unfolding encode_all
  Attempted-step m ms s t kv (ok u, v) e said quiet (whole, enc, all, still) = (
    kv ∷ whole,
    rw (e, enc) refl,
    all ∙ ap (λ l. l ++ whole) said ∙ append_assoc s.enqueued (kv ∷ []) whole,
    still ∙ quiet,
  )
  Attempted-step m ms s t kv (err x, v) e said quiet (begun, all, still, cut) = (
    kv ∷ begun,
    all ∙ ap (λ l. l ++ begun) said ∙ append_assoc s.enqueued (kv ∷ []) begun,
    still ∙ quiet,
    λ whole enc. >>=-elim (encode_all ms) _ (rw e at enc) λ rest er made.
        let (left_out, eq) = cut rest er in (left_out, ap (λ l. kv ∷ l) eq ∙ ok-injective made),
  )

  publish_all-Attempted : (ms : List Dict) (s : Taken) → Attempted ms s (publish_all c ms s)
  unfolding publish_all encode_all
  publish_all-Attempted [] s = ([], refl, sym (append-nil s.enqueued), refl)
  publish_all-Attempted (m ∷ ms) s = elim (Result-cases (encoded c m)) [
    | inr (e, he) ↦
        rw (publish_all, he)
          (
            [],
            rw he (sym (append-nil s.enqueued)),
            rw he refl,
            λ whole enc. absurd (cc (rw he at enc)),
          )
    | inl (kv, hk) ↦ elim (Option-cases (c.produce s.produce_calls)) [
      | inr (e, he) ↦
          rw (publish_all, hk, he)
            (
              [],
              rw (hk, he) (sym (append-nil s.enqueued)),
              rw (hk, he) refl,
              λ whole enc. (whole, refl),
            )
      | inl hn ↦
          let t : Taken = (produce_encoded c (encoded c m) s).1 in
          rw (publish_all, hk, hn)
            (Attempted-step m ms s t kv (publish_all c ms t) hk (rw (hk, hn) refl)
              (rw (hk, hn) refl) (publish_all-Attempted ms t))
    ]
  ]

  -- `n` attempts may break off.
  abbrev pub IsEnqueued : List Dict → ℕ → Taken → Result (Option (Unit {0})) × Taken → Type 0
  IsEnqueued ms n s (ok u, t) =
      (whole : List (String × String)) × (k : ℕ) × (added : List (String × String)) × (encode_all ms
        ≡ ok whole)
      × Attempts whole k added
      × (t.enqueued ≡ s.enqueued ++ added)
      × (k ≤ n)
      × (length t.sleeps ≡ length s.sleeps + k)
  IsEnqueued ms n s (err e, t) = Unit

  IsEnqueued-step :
      (ms : List Dict) (n : ℕ) (s t : Taken) (r : Result (Option (Unit {0})) × Taken)
      → (begun : List (String × String)) → t.enqueued ≡ s.enqueued ++ begun
      → length t.sleeps ≡ length s.sleeps + 1
      → ((whole : List (String × String))
          → encode_all ms ≡ ok whole
          → (left_out : List (String × String)) × (begun ++ left_out ≡ whole))
      → IsEnqueued ms n t r
      → IsEnqueued ms (suc n) s r
  IsEnqueued-step ms n s t (ok u, v) begun said slow cut
        (whole, k, added, enc, tries, all, few, naps) =
      (
        whole,
        suc k,
        begun ++ added,
        enc,
        broken_off begun (cut whole enc).0 (cut whole enc).1 tries,
        all ∙ ap (λ l. l ++ added) said ∙ append_assoc s.enqueued begun added,
        omega (arith, few),
        omega (arith, naps, slow),
      )
  IsEnqueued-step ms n s t (err e, v) begun said slow cut h = tt

  abbrev retried : List Dict → ℕ → Float → Taken → Result (Option (Unit {0})) × Taken
  retried ms n delay s =
      retry is_kafka_error c.times (slept c) (backoff c) (publish_all c ms) n delay s

  -- What the loop does after an attempt, when `again` is what the next attempts deliver.
  settled-IsEnqueued :
      (ms : List Dict) (n : ℕ) (delay : Float) (s : Taken) (r : Result (Unit {0}))
      → (publish_all c ms s).0 ≡ r
      → Attempted ms s (r, (publish_all c ms s).1)
      → ((m : ℕ) (t : Taken)
          → n ≡ suc m
          → IsEnqueued ms m t (retried ms n (c.times delay (backoff c)) t))
      → IsEnqueued ms n s (retried ms (suc n) delay s)
  unfolding retry
  settled-IsEnqueued ms n delay s (ok u) e (whole, enc, said, quiet) again =
      rw (retry, e)
        (whole, 0, whole, enc, complete, said, omega arith, omega (arith, ap length quiet))
  settled-IsEnqueued ms zero delay s (err x) e (begun, said, quiet, cut) again =
      elim (Bool-cases (is_kafka_error x && not (0 == 0))) [
        | inl go ↦ absurd (ground (arith, go))
        | inr stop ↦ rw (retry, e, stop) tt
      ]
  settled-IsEnqueued ms (suc n) delay s (err x) e (begun, said, quiet, cut) again =
      elim (Bool-cases (is_kafka_error x && not (suc n == 0))) [
        | inr stop ↦ rw (retry, e, stop) tt
        | inl go ↦
            let t : Taken = slept c delay (publish_all c ms s).1 in
            let naps : length t.sleeps ≡ length s.sleeps + 1 =
              omega (
                arith,
                length-append (publish_all c ms s).1.sleeps (delay ∷ []),
                ap length quiet,
              ) in
            rw (retry, e, go)
              (IsEnqueued-step ms n s t (retried ms (suc n) (c.times delay (backoff c)) t) begun
                said naps cut (again n t refl))
      ]

  retried-IsEnqueued :
      (ms : List Dict) (n : ℕ) (delay : Float) (s : Taken)
      → IsEnqueued ms n s (retried ms (suc n) delay s)
  retried-IsEnqueued ms zero delay s =
      settled-IsEnqueued ms 0 delay s (publish_all c ms s).0 refl (publish_all-Attempted ms s)
        (λ m t never. absurd (omega (arith, never)))
  retried-IsEnqueued ms (suc n) delay s =
      let later : (t : Taken)
          → IsEnqueued ms n t (retried ms (suc n) (c.times delay (backoff c)) t) =
        retried-IsEnqueued ms n (c.times delay (backoff c)) in
      settled-IsEnqueued ms (suc n) delay s (publish_all c ms s).0 refl (publish_all-Attempted ms s)
        (λ m t is_n.
          let same : n ≡ m = omega (arith, is_n) in
          subst (λ k. IsEnqueued ms k t (retried ms (suc n) (c.times delay (backoff c)) t)) same
            (later t))

  -- When `publish_batch` returns, at most four attempts broke off, there was a pause after each, and
  -- the queue of the client library was given what these attempts had enqueued, each from the first
  -- message on, and then every message of the batch once more, in order.
  pub publish_batch-IsEnqueued :
      (ms : List Dict) (s : Taken) → IsEnqueued ms 4 s (publish_batch c ms s)
  unfolding publish_batch
  publish_batch-IsEnqueued ms s = retried-IsEnqueued ms 4 (first_delay c) s
