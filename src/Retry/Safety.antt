-- ===== src/Retry/Safety.antt =====
-- What every history of a run keeps: one more launch only after a `Status` read of nothing running,
-- and never more sends than the budget.
use metralectl.Prelude.{subst, ℕ, suc, ◌<◌, ◌^◌, ◌≡◌, ap, sym, ◌∙◌, arith}
use metralectl.Prelude.{true, List, [], ◌∷◌, length, refl}
use metralectl.Prelude.{some}
use metralectl.Protocol.{NodeId, RecipeId, ControlReq}
use metralectl.Retry.{RetryBudget, Attempt, Outcome, Step, ControlRun, Duration}
use metralectl.Retry.{start, launched_of, is_some, both, is_status}
use metralectl.Retry.Drive.{Event, History, begin, next}
use metralectl.Retry.Invariant.{Cause, by_loss, by_absence, IsAbsent, IsSending}
use metralectl.Retry.Invariant.{start-IsSending, record_attempt-IsSending, record_attempt-Sends}

-- The sends that an outcome reports.
abbrev pub attempts_of : Outcome → ℕ
attempts_of (Outcome.answered rep via n) = n
attempts_of (Outcome.refused by error via n) = n
attempts_of (Outcome.already_running recipe launch via n) = n
attempts_of (Outcome.exhausted n last loss) = n

-- The newest send before a launch of `recipe`, if there is one, read `Status` and found no such
-- launch.
abbrev pub LaunchIsSafe : RecipeId → List Event → Type 0
LaunchIsSafe recipe [] = Unit
LaunchIsSafe recipe (e ∷ log) = (e.req ≡ ControlReq.status) × IsAbsent recipe e.result

-- What a send that follows `e` may ask: a repeated launch only after a `Status` read of it absent.
status_of_probing :
    (req r : ControlReq)
    → both (is_status r) (is_some (launched_of req)) ≡ true
    → r ≡ ControlReq.status
status_of_probing req ControlReq.status h = refl
status_of_probing req r h = cc

pub start-sent :
    (target : NodeId) (req : ControlReq) (budget : RetryBudget) {run : ControlRun} {step : Step}
    → start target req budget ≡ (run, step)
    → run.sent ≡ 1
unfolding start
start-sent target req budget e = ground arith

module _ {target : NodeId} {req : ControlReq} {budget : RetryBudget} where
  relaunch_reason :
      {run : ControlRun} {r r' : ControlReq} {pause : Duration} {a : Attempt} (log : List Event)
      (recipe : RecipeId)
      → launched_of req ≡ some recipe
      → launched_of r' ≡ some recipe
      → IsSending target req budget run r pause
      → Cause run.req run.probing a r'
      → LaunchIsSafe recipe (record { req = r; result = a } ∷ log)
  relaunch_reason log recipe l l' i (by_loss first) = absurd (
      let e = first (ap is_some (ap launched_of i.same_req ∙ l)) in let e' = ap launched_of e in cc)
  relaunch_reason {a} log recipe l l' i (by_absence found l'' probing absent) =
      let same : found ≡ recipe = cc (ap launched_of i.same_req) in
      (status_of_probing req _ (sym i.probing_eq ∙ probing), subst (λ n. IsAbsent n a) same absent)

  module _ (some_attempt : 0 < budget.attempts) (fits : budget.attempts < 2 ^ 32) where
    pub History-IsSending :
        {run : ControlRun} {step : Step} {log : List Event} {r : ControlReq} {pause : Duration}
        → History target req budget run step log
        → step ≡ Step.send r pause
        → IsSending target req budget run r pause
    History-IsSending (begin e) s = start-IsSending target req budget _ _ _ some_attempt (cc)
    History-IsSending (next h a e) s =
        record_attempt-IsSending target req budget a fits (History-IsSending h refl) (cc)

    -- While a send is pending, the run has counted it and every send before it.
    pub History-sent :
        {run : ControlRun} {step : Step} {log : List Event} {r : ControlReq} {pause : Duration}
        → History target req budget run step log
        → step ≡ Step.send r pause
        → run.sent ≡ suc (length log)
    History-sent (begin e) s = start-sent target req budget e
    History-sent {run} {r} {pause} (next {run = before} {log = log} h a e) s =
        let i = History-IsSending h refl in
        let sends =
          (record_attempt-Sends {run' = run} {r = r} {pause = pause} before a i.kept (cc)).0 in
        omega (
          arith,
          sends.sent_eq,
          History-sent h refl,
          sends.room,
          ap (λ (b : RetryBudget). b.attempts) i.same_budget,
        )

    -- With a budget of at least one attempt, below 2 ^ 32, a pending launch of a run is the first
    -- send of that run, or follows a `Status` read of it that shows nothing of the recipe running.
    pub History-launch :
        {run : ControlRun} {step : Step} {log : List Event} {r : ControlReq} {pause : Duration}
        (recipe : RecipeId)
        → launched_of req ≡ some recipe
        → launched_of r ≡ some recipe
        → History target req budget run step log
        → step ≡ Step.send r pause
        → LaunchIsSafe recipe log
    History-launch recipe l l' (begin e) s = tt
    History-launch {run} {r} {pause} recipe l l' (next {run = before} {log = log} h a e) s =
        let i = History-IsSending h refl in
        relaunch_reason log recipe l l' i
          (record_attempt-Sends {run' = run} {r = r} {pause = pause} before a i.kept (cc)).1
