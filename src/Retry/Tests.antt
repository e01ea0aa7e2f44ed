-- ===== src/Retry/Tests.antt =====
-- Runs of the retry machine at concrete requests, and the theorems at them.
use metralectl.Prelude.{ℕ, suc, ◌+◌, ◌≤◌, ◌<◌, ◌≡◌, arith, refl, none, some, List, [], ◌∷◌}
use metralectl.Prelude.{true, false}
use metralectl.Protocol.{AgentError, Result, ok, ControlReq, ControlRep}
use metralectl.Retry.{
  RetryBudget, Attempt, answered, lost, Outcome, Step, ControlRun, start, Duration,
}
use metralectl.Retry.{record_attempt}
use metralectl.Retry.Drive.{Event, History, begin, next, drive}
use metralectl.Retry.Safety.{LaunchIsSafe, History-launch}
use metralectl.Retry.Ending.{History-attempts}
use metralectl.Retry.Total.{Ended, drive-Ended}

abbrev three : RetryBudget
three = record { attempts = 3; pause = 7 }

abbrev asked : ControlReq
asked = ControlReq.launch "a" []

abbrev silence : Attempt
silence = lost AgentError.not_ready

abbrev nothing_runs : Attempt
nothing_runs = answered (ControlRep.status []) none

abbrev at_start : ControlRun
at_start = record {
  target = "t";
  req = asked;
  budget = three;
  sent = 1;
  probing = false;
  last_responder = none;
  last_lost = none;
}

abbrev probe : ControlRun
probe = record at_start {
  sent = 2;
  probing = true;
  last_lost = some (record { by = none; error = AgentError.not_ready; via = none });
}

abbrev again : ControlRun
again = record at_start { sent = 3; last_responder = some "t" }

abbrev two_sends : List Event
two_sends =
    record { req = ControlReq.status; result = nothing_runs }
    ∷ record { req = asked; result = silence }
    ∷ []

-- A launch whose reply is lost, a `Status` read that shows nothing, and the launch again.
relaunch : History "t" asked three again (Step.send asked 7) two_sends
unfolding start record_attempt
relaunch = next (next (begin refl) silence refl) nothing_runs refl

gave_up :
    History "t" asked three again
      (Step.done (
        Outcome.exhausted 3
          (some "t")
          (record { by = none; error = AgentError.not_ready; via = none })))
      (record { req = asked; result = silence } ∷ two_sends)
unfolding record_attempt
gave_up = next relaunch silence refl

History-launch_example : LaunchIsSafe "a" two_sends
History-launch_example = History-launch (omega arith) (omega arith) "a" refl refl relaunch refl

History-attempts_example : (◌≡◌ {A = ℕ} 3 3) × (0 < 3) × (3 ≤ 3)
History-attempts_example = History-attempts (omega arith) (omega arith) gave_up refl

-- A transport that never answers and counts its sends, and a clock that adds them up.
abbrev deaf : ControlReq → ℕ → Result Attempt × ℕ
deaf req n = (ok silence, suc n)

abbrev clock : Duration → ℕ → ℕ
clock pause n = n + pause

drive-Ended_example : Ended deaf clock "t" asked three (drive deaf clock 4 "t" asked three 0)
drive-Ended_example =
    drive-Ended deaf clock "t" asked three (omega arith) (omega arith) 4 0 (omega arith)

deaf_run :
    drive deaf clock 4 "t" asked three 0
    ≡ some (
      ok (
          Outcome.exhausted 3 none
            (record { by = none; error = AgentError.not_ready; via = none })),
      17,
    )
unfolding drive record_attempt start
deaf_run = refl
