-- ===== src/Retry.antt =====
-- Bounded retry of one control request toward another machine
-- (crates/metralectl-control/src/control/retry.rs): the pure machine `ControlRun`, the relay form
-- of an outcome, and the driver. `ControlRun::record` takes `&mut self`; here it returns the new
-- run beside the step.
pub mod Drive
mod Invariant
mod Safety
mod Ending
mod Total
mod Tests
use metralectl.Prelude.{ℕ, ◌+◌, ◌%◌, ◌^◌, Bool, true, false, List, Option, none, some, String}
use metralectl.Prelude.{find, leb, ◌==◌, if◌then◌else◌, str_eq, ◌<>◌, decimal}
use metralectl.Protocol.{NodeId, RecipeId, short, AgentError, Result, ok, err, RunningLaunch}
use metralectl.Protocol.{ControlReq, ControlRep}

-- A `Duration`, in nanoseconds.
abbrev pub Duration : Type 0
Duration = ℕ

-- `attempts` is a `NonZeroU32`.
pub record RetryBudget : Type 0 where
  pub attempts : ℕ
  pub pause : Duration

pub data Attempt : Type 0 where
  answered : (rep : ControlRep) (via : Option NodeId) → Attempt
  lost : (error : AgentError) → Attempt

pub record LostSend : Type 0 where
  pub by : Option NodeId
  pub error : AgentError
  pub via : Option NodeId

pub data Outcome : Type 0 where
  answered : (rep : ControlRep) (via : Option NodeId) (attempts : ℕ) → Outcome
  refused : (by : NodeId) (error : AgentError) (via : Option NodeId) (attempts : ℕ) → Outcome
  already_running :
      (recipe : RecipeId) (launch : RunningLaunch) (via : Option NodeId) (attempts : ℕ) → Outcome
  exhausted : (attempts : ℕ) (last_responder : Option NodeId) (lost : LostSend) → Outcome

pub data Step : Type 0 where
  send : (req : ControlReq) (pause : Duration) → Step
  done : Outcome → Step

pub record ControlRun : Type 0 where
  pub target : NodeId
  pub req : ControlReq
  pub budget : RetryBudget
  pub sent : ℕ
  pub probing : Bool
  pub last_responder : Option NodeId
  pub last_lost : Option LostSend

-- `sent` is a `u32`.
abbrev pub u32 : ℕ → ℕ
u32 n = n % 2 ^ 32

abbrev pub launched_of : ControlReq → Option RecipeId
launched_of (ControlReq.launch recipe settings) = some recipe
launched_of _ = none

-- The recipe of a `Launch` run; `none` for every other verb.
abbrev pub launched_recipe : ControlRun → Option RecipeId
launched_recipe run = launched_of run.req

abbrev pub is_status : ControlReq → Bool
is_status ControlReq.status = true
is_status _ = false

abbrev pub is_some {ℓ} : {A : Type ℓ} → Option A → Bool
is_some none = false
is_some (some a) = true

abbrev pub both : Bool → Bool → Bool
both true b = b
both false b = false

unfoldable pub send_req : ControlRun → ControlReq → ControlRun × Step
send_req run req = (
  record run {
    probing = both (is_status req) (is_some (launched_recipe run));
    sent = u32 (run.sent + 1);
  },
  Step.send req (if run.sent == 0 then 0 else run.budget.pause),
)

unfoldable pub exhaust : ControlRun → LostSend → Step
exhaust run loss = done (exhausted run.sent run.last_responder loss)

-- `lost`: retry within the budget, reading `Status` first when the request was a `Launch`.
unfoldable pub on_lost : ControlRun → LostSend → ControlRun × Step
unfolding send_req exhaust
on_lost run loss =
    if leb run.budget.attempts run.sent
    then (run, exhaust run loss)
    else (let run' = record run { last_lost = some loss } in
        if is_some (launched_recipe run')
        then send_req run' ControlReq.status
        else send_req run' run'.req)

-- `l.recipe.as_ref() == Some(&recipe)`.
abbrev pub runs : RecipeId → RunningLaunch → Bool
runs recipe l = elim l.recipe [ none ↦ false | some r ↦ str_eq r recipe ]

-- `match self.last_lost.take() { Some(lost) if … }`.
resume : ControlRun → Option LostSend → ControlRun × Step
unfolding send_req exhaust
resume run none = send_req run run.req
resume run (some loss) =
    if leb run.budget.attempts run.sent then (run, exhaust run loss) else send_req run run.req

-- The `Status` read before a repeated `Launch` came back.
unfoldable pub probed :
    ControlRun → RecipeId → List RunningLaunch → Option NodeId → ControlRun × Step
unfolding resume
probed run recipe running via = elim (find (runs recipe) running) [
  | some launch ↦ (run, done (already_running recipe launch via run.sent))
  | none ↦ resume (record run { last_lost = none }) run.last_lost
]

-- The inner match of `record`: an answer that is no refusal.
on_answer : ControlRun → ControlRep → Option RecipeId → Option NodeId → ControlRun × Step
unfolding probed
on_answer run (ControlRep.status running) (some recipe) via =
    if run.probing
    then probed run recipe running via
    else (run, done (answered (ControlRep.status running) via run.sent))
on_answer run rep recipe via = (run, done (answered rep via run.sent))

on_refusal : ControlRun → NodeId → AgentError → Option NodeId → ControlRun × Step
unfolding on_lost
on_refusal run by (AgentError.relay_refused node relay detail true) via =
    on_lost (record run { last_responder = some by })
      (record { by = some by; error = AgentError.relay_refused node relay detail true; via = via })
on_refusal run by error via = (run, done (refused by error via run.sent))

on_rep : ControlRun → ControlRep → Option NodeId → ControlRun × Step
unfolding on_answer on_refusal
on_rep run (ControlRep.refused by error) via = on_refusal run by error via
on_rep run rep via =
    let run' = record run { last_responder = some run.target } in
    on_answer run' rep (launched_recipe run') via

-- Record what the last send produced and decide the next step.
unfoldable pub record_attempt : ControlRun → Attempt → ControlRun × Step
unfolding on_lost on_rep
record_attempt run (lost error) = on_lost run (record { by = none; error = error; via = none })
record_attempt run (answered rep via) = on_rep run rep via

unfoldable pub start : NodeId → ControlReq → RetryBudget → ControlRun × Step
unfolding send_req
start target req budget =
    send_req
      (record {
        target = target;
        req = req;
        budget = budget;
        sent = 0;
        probing = false;
        last_responder = none;
        last_lost = none;
      })
      req

-- The note that `noted` writes behind an error's text.
abbrev pub note : ℕ → Option NodeId → String
note attempts (some n) =
    " (gave up after " <> decimal attempts <> " attempts; last answer from " <> short n <> ")"
note attempts none = " (gave up after " <> decimal attempts <> " attempts; no machine answered)"

unfoldable pub noted : AgentError → ℕ → Option NodeId → AgentError
noted (AgentError.not_routable node reason) attempts last =
    AgentError.not_routable node (reason <> note attempts last)
noted (AgentError.relay_refused node via detail transient) attempts last =
    AgentError.relay_refused node via (detail <> note attempts last) transient
noted other attempts last = other

-- The shape the session's relay port answers in.
unfoldable pub into_relay : Outcome → Result (ControlRep × Option NodeId)
unfolding noted
into_relay (answered rep via attempts) = ok (rep, via)
into_relay (refused by error via attempts) = ok (ControlRep.refused by error, via)
into_relay (already_running recipe launch via attempts) = err (AgentError.already_running recipe)
into_relay (exhausted attempts last loss) =
    let error = noted loss.error attempts last in
    elim loss.by [ some by ↦ ok (ControlRep.refused by error, loss.via) | none ↦ err error ]
