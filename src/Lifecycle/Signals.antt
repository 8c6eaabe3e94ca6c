-- ===== src/Lifecycle/Signals.antt =====
-- etl/runtime/shutdown.py. The callbacks work on a state of any kind.
use nyc_taxi.Base.{◌≡◌, refl, inl, inr, Bool, true, List, [], ◌∷◌, ◌++◌}
use nyc_taxi.Python.{Result, ok, err, Result-cases}

-- The flag, and the callbacks in the order of their registration.
pub record ShutdownHandler {ℓ} (S : Type ℓ) : Type ℓ where
  pub requested : Bool
  pub callbacks : List (S → Result (Unit {0}) × S)

module _ {ℓ} {S : Type ℓ} where
  -- `register_callback`
  unfoldable pub register_callback :
      (S → Result (Unit {0}) × S) → ShutdownHandler S → ShutdownHandler S
  register_callback callback h = record h { callbacks = h.callbacks ++ callback ∷ [] }

  -- `_run_callbacks`: what a callback raises goes to the log.
  unfoldable pub run_callbacks : List (S → Result (Unit {0}) × S) → S → S
  run_callbacks [] s = s
  run_callbacks (callback ∷ callbacks) s =
      let (result, t) = callback s in
      elim result [ ok u ↦ run_callbacks callbacks t | err e ↦ run_callbacks callbacks t ]

  -- `request_shutdown`: the flag is set before the callbacks run.
  unfoldable pub request_shutdown : ShutdownHandler S → S → ShutdownHandler S × S
  unfolding run_callbacks
  request_shutdown h s = (record h { requested = true }, run_callbacks h.callbacks s)

  -- `_handle_signal`, which logs the name of the signal first.
  unfoldable pub handle_signal : ShutdownHandler S → S → ShutdownHandler S × S
  unfolding run_callbacks
  handle_signal h s = (record h { requested = true }, run_callbacks h.callbacks s)

  -- `is_shutdown_requested`
  abbrev pub is_shutdown_requested : ShutdownHandler S → Bool
  is_shutdown_requested h = h.requested

  run_callbacks-append :
      (callbacks : List (S → Result (Unit {0}) × S)) (last : S → Result (Unit {0}) × S) (s : S)
      → run_callbacks (callbacks ++ last ∷ []) s ≡ (last (run_callbacks callbacks s)).1
  unfolding run_callbacks
  run_callbacks-append [] last s = elim (Result-cases (last s).0) [
    | inl (u, returned) ↦ rw (run_callbacks, returned) refl
    | inr (e, raised) ↦ rw (run_callbacks, raised) refl
  ]
  run_callbacks-append (callback ∷ callbacks) last s = elim (Result-cases (callback s).0) [
    | inl (u, returned) ↦
        rw (run_callbacks, returned) (run_callbacks-append callbacks last (callback s).1)
    | inr (e, raised) ↦
        rw (run_callbacks, raised) (run_callbacks-append callbacks last (callback s).1)
  ]

  -- The callback registered last runs on what the others left, whether these raised or not, and the
  -- flag is set.
  pub request_shutdown-register_callback :
      (last : S → Result (Unit {0}) × S) (h : ShutdownHandler S) (s : S)
      → let after = request_shutdown (register_callback last h) s in
        (after.0.requested ≡ true) × (after.1 ≡ (last (request_shutdown h s).1).1)
  unfolding request_shutdown register_callback
  request_shutdown-register_callback last h s = (refl, run_callbacks-append h.callbacks last s)
