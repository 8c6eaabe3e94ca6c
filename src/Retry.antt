-- ===== src/Retry.antt =====
-- etl/runtime/retry.py: the loop of the decorator, with `reraise` left at True. The call works on a
-- state; `slept` is what `time.sleep` does to it, and `times` is `*` on floats.
use nyc_taxi.Base.{zero, suc, ◌==◌, ℕ, Bool, true, false, ◌&&◌, not, Option, none, some}
use nyc_taxi.Python.{Float, Error, Result, ok, err}

module _ {κ μ} {S : Type κ} {A : Type μ} (catches : Error → Bool) (times : Float → Float → Float)
    (slept : Float → S → S) (backoff : Float) (call : S → Result A × S) where
  -- As many attempts as the number; `none` is the `return None` behind the loop.
  unfoldable pub retry : ℕ → Float → S → Result (Option A) × S
  retry zero delay s = (ok none, s)
  retry (suc n) delay s =
      let (result, t) = call s in
      elim result [
        | ok a ↦ (ok (some a), t)
        | err e ↦ elim (catches e && not (n == 0)) [
          | true ↦ retry n (times delay backoff) (slept delay t)
          | false ↦ (err e, t)
        ]
      ]
