-- ===== src/Retry/Drive.antt =====
-- The driver of a run (crates/metralectl-control/src/control/retry.rs, `drive`), over a world that
-- the transport and the clock change, and the histories that it makes.
use metralectl.Prelude.{ℕ, zero, suc, ◌≡◌, Option, none, some, List, [], ◌∷◌, ◌==◌, if◌then◌else◌}
use metralectl.Protocol.{NodeId, Result, ok, err, ControlReq}
use metralectl.Retry.{RetryBudget, Attempt, Outcome, Step, ControlRun, Duration, start}
use metralectl.Retry.{record_attempt}

-- `attempt` is one send with its answer or its loss, and `wait` the clock; both are the caller's.
module _ {W : Type 0} (attempt : ControlReq → W → Result Attempt × W)
    (wait : Duration → W → W) where
  -- The rest of a round, once the transport has answered; `again` is the loop.
  unfoldable pub after :
      (ControlRun → Step → W → Option (Result Outcome × W))
      → ControlRun
      → Result Attempt × W
      → Option (Result Outcome × W)
  after again run (err e, w) = some (err e, w)
  after again run (ok a, w) = let (run', step') = record_attempt run a in again run' step' w

  -- The loop of `drive`. The fuel bounds its rounds, and `none` means that it ran out.
  unfoldable pub drive_from : ℕ → ControlRun → Step → W → Option (Result Outcome × W)
  unfolding after
  drive_from zero run step w = none
  drive_from (suc f) run (Step.done outcome) w = some (ok outcome, w)
  drive_from (suc f) run (Step.send req pause) w =
      after (drive_from f) run (attempt req (if pause == 0 then w else wait pause w))

  unfoldable pub drive : ℕ → NodeId → ControlReq → RetryBudget → W → Option (Result Outcome × W)
  unfolding drive_from
  drive fuel target req budget w =
      let (run, step) = start target req budget in drive_from fuel run step w

-- One send and what it produced.
pub record Event : Type 0 where
  pub req : ControlReq
  pub result : Attempt

-- What a run can come to, with the sends behind it, the newest first.
module _ (target : NodeId) (req : ControlReq) (budget : RetryBudget) where
  pub data History : ControlRun → Step → List Event → Type 0 where
    begin :
        {run : ControlRun} {step : Step}
        → start target req budget ≡ (run, step)
        → History run step []
    next :
        {run run' : ControlRun} {step' : Step} {r : ControlReq} {pause : Duration}
        {log : List Event}
        → History run (Step.send r pause) log
        → (a : Attempt) → record_attempt run a ≡ (run', step')
        → History run' step' (record { req = r; result = a } ∷ log)
