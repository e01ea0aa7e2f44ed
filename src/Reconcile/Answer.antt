-- ===== src/Reconcile/Answer.antt =====
-- What the driver of a convergence answers (crates/metralectl-control/src/reconcile/driver.rs), what
-- it asks of the control core (crates/metralectl-control/src/control.rs), and the monad of its calls.
use metralectl.Prelude.{List, [], ◌∷◌, Option, none, some, String}
use metralectl.Prelude.{map, if◌then◌else◌, str_eq, ◌<>◌}
use metralectl.Protocol.{RecipeId, AgentError, Result, ok, err}
use metralectl.Reconcile.{max_option}
use metralectl.Reconcile.Contract.{DeploymentName, Generation, Placement, Intent, run, stopped}
use metralectl.Reconcile.Contract.{Desired, RefusalReason}
use metralectl.Reconcile.Action.{HexId, ActionKind, DeploymentAction, ActionOutcome}
use metralectl.Reconcile.Action.{refused}
use metralectl.Reconcile.Action.{VerifiedRelease, LaunchFor, Workload, Started}
use metralectl.Reconcile.Action.{Admission, is_open, cordoned, draining, apply}

-- What a deployment runs, as the host resolved it.
pub record Target : Type 0 where
  pub recipe : RecipeId
  pub release : VerifiedRelease
  pub placement : Placement

abbrev intent_of : ActionKind → Target → Intent
intent_of apply target = run target.recipe target.release.model target.placement
intent_of ActionKind.stop target = stopped

-- The desired state that an action asks for.
unfoldable pub desired_for : DeploymentAction → Target → Desired
desired_for action target = record {
  deployment = action.deployment;
  generation = action.generation;
  intent = intent_of action.action target;
}

pub record Answer : Type 0 where
  pub outcome : ActionOutcome
  pub detail : Option String
  pub running_generation : Option Generation
  pub instances : List HexId

-- The deployment's own workloads, with their generations.
unfoldable pub own_workloads : DeploymentName → List Workload → List (HexId × Generation)
own_workloads ours [] = []
own_workloads ours (w ∷ ws) =
    let rest = own_workloads ours ws in
    elim w.instance.owner [
      | none ↦ rest
      | some o ↦ if str_eq o.deployment ours then (w.id, o.generation) ∷ rest else rest
    ]

abbrev newest_of : List (HexId × Generation) → Option Generation
newest_of [] = none
newest_of ((id, g) ∷ ws) = max_option (some g) (newest_of ws)

-- The answer for an outcome, from what this deployment runs here.
unfoldable pub answer : ActionOutcome → Desired → List Workload → Answer
unfolding own_workloads
answer outcome desired workloads =
    let ours = own_workloads desired.deployment workloads in
    record {
      outcome = outcome;
      detail = none;
      running_generation = newest_of ours;
      instances = map (λ w. w.0) ours;
    }

-- What the driver asks of the control core, over a world `W`. The registry and the accelerator's
-- name do not change; `some` of `fetch_image` is its error.
pub record Control (W : Type 0) : Type 0 where
  pub accelerator : String
  pub recipe_model : RecipeId → Option String
  pub admission : W → Admission
  pub workloads : W → Result (List Workload) × W
  pub fetch_image : String → W → Option String × W
  pub launch : RecipeId → LaunchFor → W → Result Started × W
  pub stop : RecipeId → W → Result (Unit {0}) × W

-- The refusal that a cordoned or draining node answers a launch with.
unfoldable pub closed_by : Admission → Option ActionOutcome
closed_by is_open = none
closed_by (cordoned why) = some (refused RefusalReason.cordoned)
closed_by (draining why) = some (refused RefusalReason.draining)

-- `to_string` of the two errors that a failed launch reports.
abbrev pub message : AgentError → String
message (AgentError.launch_failed detail) = "launch failed: " <> detail
message (AgentError.docker_unavailable detail) = "docker is not available: " <> detail
message e = ""

-- A call that changes the world and may fail.
abbrev pub M : Type 0 → Type 0 → Type 0
M W A = W → Result A × W

abbrev pub then_do : {W A B : Type 0} → Result A × W → (A → M W B) → Result B × W
then_do (ok a, w) f = f a w
then_do (err e, w) f = (err e, w)

infixl 5 ◌>>=◌
abbrev pub ◌>>=◌ : {W A B : Type 0} → M W A → (A → M W B) → M W B
◌>>=◌ m f w = then_do (m w) f

abbrev pub give : {W A : Type 0} → A → M W A
give a w = (ok a, w)

abbrev pub fail : {W A : Type 0} → AgentError → M W A
fail e w = (err e, w)
