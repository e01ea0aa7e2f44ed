-- ===== src/Retry/Invariant.antt =====
-- What holds of a run whose next step is a send.
use metralectl.Prelude.{Bool, refl, subst, ◌+◌, ◌≤◌, ◌<◌, ◌^◌, ◌≡◌, ◌⊎◌, true, Option, some, none}
use metralectl.Prelude.{List, ◌==◌, if◌then◌else◌, find, arith, Option-cases, Bool-cases, inl, inr}
use metralectl.Protocol.{NodeId, RecipeId, AgentError, RunningLaunch, ControlReq, ControlRep}
use metralectl.Retry.{
  RetryBudget, Attempt, answered, lost, Outcome, Step, ControlRun, LostSend, Duration,
}
use metralectl.Retry.{start, record_attempt, on_lost, on_answer, on_refusal, on_rep, probed, resume}
use metralectl.Retry.{launched_of, is_status, is_some, both, u32, runs}

-- What a step from `run` to a further send does.
pub record Sends (run run' : ControlRun) (r : ControlReq) (pause : Duration) : Type 0 where
  pub same_target : run'.target ≡ run.target
  pub same_req : run'.req ≡ run.req
  pub same_budget : run'.budget ≡ run.budget
  pub room : run.sent < run.budget.attempts
  pub sent_eq : run'.sent ≡ u32 (run.sent + 1)
  pub probing_eq : run'.probing ≡ both (is_status r) (is_some (launched_of run.req))
  pub kept : run'.probing ≡ true → is_some run'.last_lost ≡ true
  pub which : (r ≡ run.req) ⊎ ((r ≡ ControlReq.status) × (is_some (launched_of run.req) ≡ true))
  pub paused : pause ≡ (if run.sent == 0 then 0 else run.budget.pause)

-- Only the target, the request, the budget and the count of the run before matter.
Sends-of :
    (run : ControlRun) {run' : ControlRun} {r : ControlReq} {pause : Duration} {probing : Bool}
    {responder : Option NodeId} {loss : Option LostSend}
    → Sends
        (record run { probing = probing; last_responder = responder; last_lost = loss })
        run'
        r
        pause
    → Sends run run' r pause
Sends-of run s = record {
  same_target = s.same_target;
  same_req = s.same_req;
  same_budget = s.same_budget;
  room = s.room;
  sent_eq = s.sent_eq;
  probing_eq = s.probing_eq;
  kept = s.kept;
  which = s.which;
  paused = s.paused;
}

-- The answer on which a launch is sent again: a `Status` read with nothing of it running.
pub record IsAbsent (recipe : RecipeId) (a : Attempt) : Type 0 where
  pub running : List RunningLaunch
  pub via : Option NodeId
  pub said : a ≡ answered (ControlRep.status running) via
  pub absent : find (runs recipe) running ≡ none

-- Why a step of a run of `req` sends once more.
pub data Cause (req : ControlReq) (probing : Bool) (a : Attempt) (r : ControlReq) : Type 0 where
  by_loss : (is_some (launched_of req) ≡ true → r ≡ ControlReq.status) → Cause req probing a r
  by_absence :
      (recipe : RecipeId)
      → launched_of req ≡ some recipe
      → probing ≡ true
      → IsAbsent recipe a
      → Cause req probing a r

-- The equation that `on_answer` on a `Status` unfolds to, at a value of its test.
abbrev Answers :
    ControlRun → RecipeId → List RunningLaunch → Option NodeId → ControlRun × Step → Bool → Type 0
Answers run recipe running via next test =
    (if test
      then probed run recipe running via
      else (run, Step.done (Outcome.answered (ControlRep.status running) via run.sent)))
    ≡ next

module _ {run' : ControlRun} {r : ControlReq} {pause : Duration} where
  on_lost-Sends :
      (run : ControlRun) (loss : LostSend)
      → on_lost run loss ≡ (run', Step.send r pause)
      → Sends run run' r pause
  unfolding on_lost
  on_lost-Sends run loss e = ground arith

  on_lost-status :
      (run : ControlRun) (loss : LostSend)
      → on_lost run loss ≡ (run', Step.send r pause)
      → is_some (launched_of run.req) ≡ true
      → r ≡ ControlReq.status
  unfolding on_lost
  on_lost-status run loss e l = ground arith

  resume-Sends :
      (run : ControlRun) (loss : Option LostSend)
      → is_some loss ≡ true
      → is_some (launched_of run.req) ≡ true
      → resume run loss ≡ (run', Step.send r pause)
      → Sends run run' r pause
  unfolding resume
  resume-Sends run none h l e = cc
  resume-Sends run (some loss) h l e = ground arith

  -- A send that follows an answer is one that follows a `Status` read of nothing running.
  probed-Sends :
      (run : ControlRun) (recipe : RecipeId) (running : List RunningLaunch) (via : Option NodeId)
      → is_some run.last_lost ≡ true
      → launched_of run.req ≡ some recipe
      → probed run recipe running via ≡ (run', Step.send r pause)
      → Sends run run' r pause × (find (runs recipe) running ≡ none)
  unfolding probed
  probed-Sends run recipe running via h l e = elim (Option-cases (find (runs recipe) running)) [
    | inl absent ↦ (
      Sends-of run (
          resume-Sends (record run { last_lost = none }) run.last_lost h (ground arith)
            (rw (absent, probed) at e)),
      absent,
    )
    | inr (launch, found) ↦ absurd (let e' = rw (found, probed) at e in cc)
  ]

  on_answer-Sends :
      (run : ControlRun) (rep : ControlRep) (recipe : Option RecipeId) (via : Option NodeId)
      → (run.probing ≡ true → is_some run.last_lost ≡ true)
      → launched_of run.req ≡ recipe
      → on_answer run rep recipe via ≡ (run', Step.send r pause)
      → Sends run run' r pause × Cause run.req run.probing (answered rep via) r
  unfolding on_answer
  on_answer-Sends run (ControlRep.status running) (some recipe) via h l e =
      elim (Bool-cases run.probing) [
        | inl probing ↦
            let (sends, absent) =
              probed-Sends run recipe running via (h probing) l
                (subst (Answers run recipe running via _) probing e) in
            (
              sends,
              by_absence recipe l probing
                  (record { running = running; via = via; said = refl; absent = absent }),
            )
        | inr quiet ↦ absurd (let e' = subst (Answers run recipe running via _) quiet e in cc)
      ]
  on_answer-Sends run rep recipe via h l e = cc

  on_refusal-Sends :
      (run : ControlRun) (by : NodeId) (error : AgentError) (via : Option NodeId)
      → on_refusal run by error via ≡ (run', Step.send r pause)
      → Sends run run' r pause × (is_some (launched_of run.req) ≡ true → r ≡ ControlReq.status)
  unfolding on_refusal
  on_refusal-Sends run by (AgentError.relay_refused node relay detail true) via e =
      (Sends-of run (on_lost-Sends _ _ e), λ l. on_lost-status _ _ e l)
  on_refusal-Sends run by error via e = cc

  on_rep-Sends :
      (run : ControlRun) (rep : ControlRep) (via : Option NodeId)
      → (run.probing ≡ true → is_some run.last_lost ≡ true)
      → on_rep run rep via ≡ (run', Step.send r pause)
      → Sends run run' r pause × Cause run.req run.probing (answered rep via) r
  unfolding on_rep
  on_rep-Sends run (ControlRep.refused by error) via h e =
      let (sends, status_first) = on_refusal-Sends run by error via e in
      (sends, by_loss status_first)
  on_rep-Sends run rep via h e =
      let (sends, cause) =
        on_answer-Sends (record run { last_responder = some run.target }) rep _ via h refl e in
      (Sends-of run sends, cause)

  -- A step that sends once more has budget left, and keeps the run's request.
  pub record_attempt-Sends :
      (run : ControlRun) (a : Attempt)
      → (run.probing ≡ true → is_some run.last_lost ≡ true)
      → record_attempt run a ≡ (run', Step.send r pause)
      → Sends run run' r pause × Cause run.req run.probing a r
  unfolding record_attempt
  record_attempt-Sends run (answered rep via) h e = on_rep-Sends run rep via h e
  record_attempt-Sends run (lost error) h e =
      (on_lost-Sends run _ e, by_loss (λ l. on_lost-status run _ e l))

module _ (target : NodeId) (req : ControlReq) (budget : RetryBudget) where
  pub record IsSending (run : ControlRun) (r : ControlReq) (pause : Duration) : Type 0 where
    pub same_target : run.target ≡ target
    pub same_req : run.req ≡ req
    pub same_budget : run.budget ≡ budget
    pub sent_pos : 0 < run.sent
    pub sent_le : run.sent ≤ budget.attempts
    pub probing_eq : run.probing ≡ both (is_status r) (is_some (launched_of req))
    pub kept : run.probing ≡ true → is_some run.last_lost ≡ true
    pub which : (r ≡ req) ⊎ ((r ≡ ControlReq.status) × (is_some (launched_of req) ≡ true))
    pub paused : pause ≡ (if run.sent == 1 then 0 else budget.pause)

  pub start-IsSending :
      (run : ControlRun) (r : ControlReq) (pause : Duration)
      → 0 < budget.attempts
      → start target req budget ≡ (run, Step.send r pause)
      → IsSending run r pause
  unfolding start
  start-IsSending run r pause h e = ground arith

  Sends-IsSending :
      {run run' : ControlRun} {r r' : ControlReq} {pause pause' : Duration}
      → budget.attempts < 2 ^ 32
      → IsSending run r pause
      → Sends run run' r' pause'
      → IsSending run' r' pause'
  Sends-IsSending h i s = ground arith

  pub record_attempt-IsSending :
      {run run' : ControlRun} {r r' : ControlReq} {pause pause' : Duration} (a : Attempt)
      → budget.attempts < 2 ^ 32
      → IsSending run r pause
      → record_attempt run a ≡ (run', Step.send r' pause')
      → IsSending run' r' pause'
  record_attempt-IsSending a h i e = Sends-IsSending h i (record_attempt-Sends _ a i.kept e).0
