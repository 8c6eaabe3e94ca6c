-- ===== src/Pipeline/Consuming.antt =====
-- `main` of etl/entrypoints/consumer.py: the loop over the batches between the start and the stop.
use mathlib.Core.Option.{some-injective}
use nyc_taxi.Base.{
  ◌∙◌, Option-cases, Bool, subst, ◌⊎◌, inl, inr, ℕ, ◌≡◌, refl, true, false, Option, none, some,
  List, [],
}
use nyc_taxi.Python.{Error, Result, ok, err}
use nyc_taxi.Lifecycle.{
  Started, stop_lag_monitor, Action, Calls, AppComponents, Ending, completed, failed, startup,
  exit_code, consumer_main,
}
use nyc_taxi.Lifecycle.Release.{IsEnd, consumer_stops, consumer_work, main-IsEnd}
use nyc_taxi.Consumer.{Event, Ports, State, started, Progress, running, finished, raised, consume}
use nyc_taxi.Consumer.Endings.Flagged.{EndsSettled, FailsOrPersists, consume-EndsSettled}

-- How the `try` of `main` ends when the loop stands so; `none` while it goes on.
abbrev pub ended_by : Progress → Option Ending
ended_by running = none
ended_by finished = some completed
ended_by (raised e) = some (failed e)

-- The exit code with the calls, and the consumer as it was left.
abbrev pub Exit : Type 0
Exit = (ℕ × Calls) × State

-- What each call of the start and the stop raises, and what the making of the lag monitor and the start
-- of its thread raise, with whether `lag_monitor_loop` was set by then.
module _ (raises : Action → Option Error) (unmade : Option (Error × Bool)) (p : Ports) where
  abbrev pub exits : State → Option Ending → Option Exit
  exits s none = none
  exits s (some work) = some (consumer_main raises true work, s)

  -- The lag monitor is made, and its thread started, in front of the loop.
  abbrev pub with_monitor : Option (Error × Bool) → Progress × State → ℕ → Option Exit
  with_monitor (some (e, set)) (progress, s) now =
      some (consumer_main raises set (failed e), started now)
  with_monitor none (progress, s) now = exits s (ended_by progress)

  abbrev pub if_started : Result AppComponents → Progress × State → ℕ → Option Exit
  if_started (ok c) s now = with_monitor unmade s now
  if_started (err e) s now = some (consumer_main raises false (failed e), started now)

  -- `main` on the events of the loop so far: `none` while the loop goes on.
  unfoldable pub main : ℕ → List Event → Option Exit
  main now es =
      if_started (startup raises "consumer" []).0 (consume p es (running, started now)) now

  -- Nothing waits in the accumulator and nothing was lost unless a failure set the flag; and the exit
  -- code is 1 unless the loop was ended by the flag.
  abbrev pub LosesNothing : Progress × State → Exit → Type 0
  LosesNothing s end = FailsOrPersists p end.1 × ((end.0.0 ≡ 1) ⊎ (s.0 ≡ finished))

  consumer_work-failed :
      (monitored : Bool) (e : Error)
      → exit_code raises (consumer_work raises monitored (failed e)) ≡ 1
  consumer_work-failed false e = refl
  consumer_work-failed true e = elim (Option-cases (raises stop_lag_monitor)) [
    | inl stops ↦ rw stops refl
    | inr (f, sticks) ↦ rw sticks refl
  ]

  with_monitor-LosesNothing :
      (o : Option (Error × Bool)) (s : Progress × State) (now : ℕ) (end : Exit)
      → EndsSettled p s
      → ((monitored : Bool) (work : Ending)
          → (consumer_main raises monitored work).0
            ≡ exit_code raises (consumer_work raises monitored work))
      → with_monitor o s now ≡ some end
      → LosesNothing s end
  with_monitor-LosesNothing (some (e, set)) s now end settled code h =
      subst (LosesNothing s) (some-injective _ _ h)
        ((refl, inr (refl, refl)), inl (code set (failed e) ∙ consumer_work-failed set e))
  with_monitor-LosesNothing none (running, s) now end settled code h = absurd (cc)
  with_monitor-LosesNothing none (finished, s) now end settled code h =
      subst (LosesNothing (finished, s)) (some-injective _ _ h) (settled, inr refl)
  with_monitor-LosesNothing none (raised e, s) now end settled code h =
      subst (LosesNothing (raised e, s)) (some-injective _ _ h)
        (settled, inl (code true (failed e) ∙ consumer_work-failed true e))

  started-LosesNothing :
      (x : Started) (s : Progress × State) (now : ℕ) (end : Exit)
      → EndsSettled p s
      → ((monitored : Bool) (work : Ending)
          → IsEnd raises
              (consumer_stops raises monitored)
              (consumer_work raises monitored work)
              x
              (consumer_main raises monitored work))
      → if_started x.0 s now ≡ some end
      → LosesNothing s end
  started-LosesNothing (ok c, calls) s now end settled ends h =
      with_monitor-LosesNothing unmade s now end settled (λ monitored work. (ends monitored work).0)
        h
  started-LosesNothing (err e, calls) s now end settled ends h =
      subst (LosesNothing s) (some-injective _ _ h)
        ((refl, inr (refl, refl)), inl (ends false (failed e)).0)

  -- Whatever the start, the broker, the inserts, the commits and the signals do, when the process
  -- exits: nothing waits in its accumulator; either the process has set the flag itself, or every row
  -- received was inserted, in order and each once, and the committed offset is behind all of them; and
  -- the exit code is 1 unless the loop was ended by the flag.
  pub main-LosesNothing :
      (now : ℕ) (es : List Event) (end : Exit)
      → main now es ≡ some end
      → LosesNothing (consume p es (running, started now)) end
  unfolding main
  main-LosesNothing now es end h =
      started-LosesNothing (startup raises "consumer" []) (consume p es (running, started now)) now
        end (consume-EndsSettled p now es) (λ monitored work. (main-IsEnd raises work monitored).1)
        h
