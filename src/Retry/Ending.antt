-- ===== src/Retry/Ending.antt =====
-- How a run ends: when a step sends once more, what an outcome reports, and enough fuel for the
-- driver.
use metralectl.Prelude.{subst, ℕ, ◌≤◌, ◌<◌, ◌^◌, ◌≡◌, ◌∙◌, ap, arith, Bool, true, false, refl}
use metralectl.Prelude.{List, length, ltb, find, ◌&&◌, ◌||◌, Option, some}
use metralectl.Prelude.{not}
use metralectl.Protocol.{NodeId, RecipeId, AgentError, ControlReq, ControlRep, RunningLaunch}
use metralectl.Retry.{RetryBudget, Attempt, answered, lost, Outcome, Step, ControlRun, LostSend}
use metralectl.Retry.{record_attempt, start, launched_of, is_some, runs, probed}
use metralectl.Retry.{on_lost, on_answer, on_refusal, on_rep}
use metralectl.Retry.Drive.{Event, History, begin, next}
use metralectl.Retry.Safety.{attempts_of, History-IsSending, History-sent}

-- Nobody answered, or a relay says that its own leg to the target was lost.
abbrev pub is_loss : Attempt → Bool
is_loss (lost error) = true
is_loss
      (answered (ControlRep.refused by (AgentError.relay_refused node via detail transient)) via') =
    transient
is_loss (answered rep via) = false

-- The answer to a `Status` read that shows nothing of the recipe running.
abbrev pub shows_absence : Option RecipeId → Attempt → Bool
shows_absence (some recipe) (answered (ControlRep.status running) via) =
    not (is_some (find (runs recipe) running))
shows_absence recipe a = false

abbrev pub sends : Step → Bool
sends (Step.send req pause) = true
sends (Step.done outcome) = false

on_lost-sends :
    (run : ControlRun) (loss : LostSend)
    → sends (on_lost run loss).1 ≡ ltb run.sent run.budget.attempts
unfolding on_lost
on_lost-sends run loss = ground arith

on_answer-sends :
    (run : ControlRun) (rep : ControlRep) (recipe : Option RecipeId) (via : Option NodeId)
    → (run.probing ≡ true → is_some run.last_lost ≡ true)
    → sends (on_answer run rep recipe via).1
      ≡ (run.probing && shows_absence recipe (answered rep via)) && ltb run.sent run.budget.attempts
unfolding on_answer
on_answer-sends run (ControlRep.status running) (some recipe) via h = ground arith
on_answer-sends run rep recipe via h = ground arith

on_refusal-sends :
    (run : ControlRun) (by : NodeId) (error : AgentError) (via : Option NodeId)
    → sends (on_refusal run by error via).1
      ≡ is_loss (answered (ControlRep.refused by error) via) && ltb run.sent run.budget.attempts
unfolding on_refusal
on_refusal-sends run by (AgentError.relay_refused node relay detail true) via = on_lost-sends _ _
on_refusal-sends run by (AgentError.relay_refused node relay detail false) via = refl
on_refusal-sends run by error via = refl

on_rep-sends :
    (run : ControlRun) (rep : ControlRep) (via : Option NodeId)
    → (run.probing ≡ true → is_some run.last_lost ≡ true)
    → sends (on_rep run rep via).1
      ≡ (is_loss (answered rep via)
          || run.probing && shows_absence (launched_of run.req) (answered rep via))
        && ltb run.sent run.budget.attempts
unfolding on_rep
on_rep-sends run (ControlRep.refused by error) via h =
    ground (arith, on_refusal-sends run by error via)
on_rep-sends run rep via h =
    on_answer-sends (record run { last_responder = some run.target }) rep (launched_of run.req) via
      h

-- From a run that has a lost send to report if it is probing, a step sends once more exactly when
-- budget is left and either the send was lost, or it was the `Status` read before a repeated
-- launch and shows nothing of that recipe running.
pub record_attempt-sends :
    (run : ControlRun) (a : Attempt)
    → (run.probing ≡ true → is_some run.last_lost ≡ true)
    → sends (record_attempt run a).1
      ≡ (is_loss a || run.probing && shows_absence (launched_of run.req) a)
        && ltb run.sent run.budget.attempts
unfolding record_attempt
record_attempt-sends run (lost error) h = on_lost-sends run _
record_attempt-sends run (answered rep via) h = on_rep-sends run rep via h

-- An outcome that a step ends with counts the run's sends.
abbrev Reports : ControlRun × Step → ℕ → Type 0
Reports (run, Step.send req pause) n = Unit
Reports (run, Step.done o) n = (attempts_of o ≡ n) × (run.sent ≡ n)

on_lost-Reports : (run : ControlRun) (loss : LostSend) → Reports (on_lost run loss) run.sent
unfolding on_lost
on_lost-Reports run loss = ground arith

probed-Reports :
    (run : ControlRun) (recipe : RecipeId) (running : List RunningLaunch) (via : Option NodeId)
    → Reports (probed run recipe running via) run.sent
unfolding probed
probed-Reports run recipe running via = ground arith

on_rep-Reports :
    (run : ControlRun) (rep : ControlRep) (via : Option NodeId)
    → Reports (on_rep run rep via) run.sent
unfolding on_rep
on_rep-Reports run (ControlRep.refused by (AgentError.relay_refused node relay detail true)) via =
    on_lost-Reports (record run { last_responder = some by })
      (record { by = some by; error = AgentError.relay_refused node relay detail true; via = via })
on_rep-Reports run (ControlRep.refused by error) via = ground arith
on_rep-Reports run (ControlRep.status running) via = ground arith
on_rep-Reports run rep via = ground arith

record_attempt-Reports : (run : ControlRun) (a : Attempt) → Reports (record_attempt run a) run.sent
unfolding record_attempt
record_attempt-Reports run (lost error) = on_lost-Reports run _
record_attempt-Reports run (answered rep via) = on_rep-Reports run rep via

start-sends :
    (target : NodeId) (req : ControlReq) (budget : RetryBudget) {run : ControlRun} {step : Step}
    → start target req budget ≡ (run, step)
    → sends step ≡ true
unfolding start
start-sends target req budget e = ground arith

module _ {target : NodeId} {req : ControlReq} {budget : RetryBudget}
    (some_attempt : 0 < budget.attempts) (fits : budget.attempts < 2 ^ 32) where
  -- With a budget of at least one attempt, below 2 ^ 32, a finished run reports every send that it
  -- made, at least one and within the budget.
  pub History-attempts :
      {run : ControlRun} {step : Step} {log : List Event} {o : Outcome}
      → History target req budget run step log
      → step ≡ Step.done o
      → (attempts_of o ≡ length log) × (0 < length log) × (length log ≤ budget.attempts)
  History-attempts (begin e) s =
      absurd (let first = start-sends target req budget e in let last = ap sends s in cc)
  History-attempts {run} {o} (next {run = before} h a e) s =
      let i = History-IsSending some_attempt fits h refl in
      let counted : Reports (run, Step.done o) before.sent =
        subst (λ t. Reports t before.sent) (e ∙ ap (λ t. (run, t)) s)
          (record_attempt-Reports before a) in
      omega (arith, counted.0, History-sent some_attempt fits h refl, i.sent_le)
