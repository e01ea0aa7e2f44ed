-- ===== src/Retry/Total.antt =====
-- The driver comes to an end: one round more than the budget is fuel enough.
use metralectl.Prelude.{
  ℕ, zero, suc, ◌+◌, ◌≤◌, ◌<◌, ◌^◌, ◌≡◌, arith, refl, Option, some, List, [], ◌∷◌,
}
use metralectl.Prelude.{ap}
use metralectl.Protocol.{NodeId, AgentError, Result, ok, err, ControlReq}
use metralectl.Retry.{RetryBudget, Attempt, Outcome, Step, ControlRun, Duration, start}
use metralectl.Retry.{record_attempt}
use metralectl.Retry.Drive.{drive, drive_from, after, Event, History, begin, next}
use metralectl.Retry.Invariant.{record_attempt-Sends}
use metralectl.Retry.Safety.{History-IsSending, start-sent}

module _ {W : Type 0} (attempt : ControlReq → W → Result Attempt × W) (wait : Duration → W → W)
    (target : NodeId) (req : ControlReq) (budget : RetryBudget) where
  -- How the driver ends: with the outcome of a history, or with the transport's own refusal.
  pub data Ended : Option (Result Outcome × W) → Type 0 where
    finished :
        {run : ControlRun} {log : List Event} {o : Outcome} {w : W}
        → History target req budget run (Step.done o) log
        → Ended (some (ok o, w))
    stopped :
        {run : ControlRun} {log : List Event} {r : ControlReq} {pause : Duration} {e : AgentError}
        {w w' : W}
        → History target req budget run (Step.send r pause) log
        → attempt r w ≡ (err e, w')
        → Ended (some (err e, w'))

  abbrev Ready : ControlRun → Step → ℕ → Type 0
  Ready run (Step.done o) f = 0 < f
  Ready run (Step.send r pause) f = budget.attempts + 2 ≤ f + run.sent

  module _ (some_attempt : 0 < budget.attempts) (fits : budget.attempts < 2 ^ 32) where
    Ready-record :
        {run run' : ControlRun} {r : ControlReq} {pause : Duration} {log : List Event}
        (step' : Step) (f : ℕ) (a : Attempt)
        → History target req budget run (Step.send r pause) log
        → record_attempt run a ≡ (run', step')
        → Ready run (Step.send r pause) (suc f)
        → Ready run' step' f
    Ready-record {run} (Step.done o) f a h e m =
        let i = History-IsSending some_attempt fits h refl in omega (arith, i.sent_le)
    Ready-record {run} (Step.send r' pause') f a h e m =
        let i = History-IsSending some_attempt fits h refl in
        let sends = (record_attempt-Sends run a i.kept e).0 in
        omega (
          arith,
          sends.sent_eq,
          sends.room,
          i.sent_le,
          ap (λ (b : RetryBudget). b.attempts) i.same_budget,
        )

    after-Ended :
        {run : ControlRun} {r : ControlReq} {pause : Duration} {log : List Event} {w : W} (f : ℕ)
        (again : ControlRun → Step → W → Option (Result Outcome × W))
        → ((run' : ControlRun) (step' : Step) (w' : W) (log' : List Event)
            → History target req budget run' step' log'
            → Ready run' step' f
            → Ended (again run' step' w'))
        → History target req budget run (Step.send r pause) log
        → Ready run (Step.send r pause) (suc f)
        → (x : Result Attempt × W) → attempt r w ≡ x
        → Ended (after attempt wait again run x)
    unfolding after
    after-Ended f again ih h m (err e, w') q = stopped h q
    after-Ended {run} {r} {log} f again ih h m (ok a, w') q =
        ih (record_attempt run a).0 (record_attempt run a).1 w'
          (record { req = r; result = a } ∷ log) (next h a refl)
          (Ready-record (record_attempt run a).1 f a h refl m)

    drive_from-Ended :
        (f : ℕ) (run : ControlRun) (step : Step) (w : W) (log : List Event)
        → History target req budget run step log
        → Ready run step f
        → Ended (drive_from attempt wait f run step w)
    unfolding drive_from
    drive_from-Ended zero run (Step.done o) w log h m = elim m [ ]
    drive_from-Ended zero run (Step.send r pause) w log h m =
        absurd (let i = History-IsSending some_attempt fits h refl in omega (arith, i.sent_le))
    drive_from-Ended (suc f) run (Step.done o) w log h m = finished h
    drive_from-Ended (suc f) run (Step.send r pause) w log h m =
        after-Ended f (drive_from attempt wait f) (drive_from-Ended f) h m _ refl

    -- With a budget of at least one attempt, below 2 ^ 32, and at least a round more than it for
    -- fuel, the driver ends, whatever the transport and the clock do: with the outcome of a
    -- history of the run, or with the transport's own refusal.
    pub drive-Ended :
        (fuel : ℕ) (w : W)
        → budget.attempts < fuel
        → Ended (drive attempt wait fuel target req budget w)
    unfolding drive
    drive-Ended fuel w enough =
        drive_from-Ended fuel (start target req budget).0 (start target req budget).1 w []
          (begin refl) (Ready-start (start target req budget).1 refl)
      where
        Ready-start :
            (step : Step)
            → (start target req budget).1 ≡ step
            → Ready (start target req budget).0 step fuel
        Ready-start (Step.done o) e = omega arith
        Ready-start (Step.send r pause) e = omega (arith, start-sent target req budget refl)
