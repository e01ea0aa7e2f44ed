-- ===== src/Reconcile/Driver.antt =====
-- The host half of convergence (crates/metralectl-control/src/reconcile/driver.rs): observe, decide,
-- carry out, and ask again; then answer the plane. The control core is an interface over a world
-- that every call may change.
mod Attempts
pub mod Rounds
pub mod Outcome
pub mod Tenants
pub mod Liveness
pub mod Obedient
mod Addressed
mod Tests
use metralectl.Prelude.{ℕ, zero, suc, Bool, true, false, List, [], ◌∷◌, Option, none, some, String}
use metralectl.Prelude.{not, map, if◌then◌else◌, str_eq, ◌<>◌, decimal}
use metralectl.Protocol.{NodeId, RecipeId, AgentError, Result, ok, err}
use metralectl.Reconcile.{decide, max_option}
use metralectl.Reconcile.Contract.{
  DeploymentName, Generation, Owner, Placement, Intent, run, stopped,
}
use metralectl.Reconcile.Contract.{Desired, Instance, Observed, Step, RefusalReason, reason}
use metralectl.Reconcile.Action.{HexId, ActionKind, DeploymentAction, FailureReason, ActionOutcome}
use metralectl.Reconcile.Action.{applied, already_applied, refused, failed, DeploymentActionResult}
use metralectl.Reconcile.Action.{VerifiedRelease, ControlTrace, LaunchFor, Workload, Started}
use metralectl.Reconcile.Action.{Admission, is_open, cordoned, draining, apply}
use metralectl.Reconcile.Answer.{Target, desired_for, Answer, answer, Control, closed_by, message}
use metralectl.Reconcile.Answer.{M, ◌>>=◌, give, fail}

abbrev pub model_differs : Option VerifiedRelease → String → Bool
model_differs none model = true
model_differs (some r) model = not (str_eq r.model model)

-- Whether a `Run` has no release, or one for another model.
abbrev pub is_unreleased : Intent → Option VerifiedRelease → Bool
is_unreleased (run recipe model placement) release = model_differs release model
is_unreleased stopped release = false

abbrev pub wanted_model : {W : Type 0} → Control W → Intent → Option String
wanted_model c (run recipe model placement) = c.recipe_model recipe
wanted_model c stopped = none

module _ {W : Type 0} (c : Control W) (desired : Desired) (release : Option VerifiedRelease)
    (trace : Option ControlTrace) where
  -- The answer from what runs now.
  unfoldable pub answer_now : ActionOutcome → Option String → M W Answer
  answer_now outcome detail = do
    ws ← c.workloads
    give (record (answer outcome desired ws) { detail = detail })

  -- What `Attempt::launch` makes of the control core's reply; `some` answers the action.
  unfoldable pub launch_reply :
      Result Started × W → Result (Option (ActionOutcome × Option String)) × W
  launch_reply (ok s, w) = (ok none, w)
  launch_reply (err (AgentError.launch_failed detail), w) = (
    ok (
        some
          (failed FailureReason.launch_failed, some (message (AgentError.launch_failed detail)))),
    w,
  )
  launch_reply (err (AgentError.docker_unavailable detail), w) = (
    ok (
        some (
          failed FailureReason.launch_failed,
          some (message (AgentError.docker_unavailable detail)),
        )),
    w,
  )
  launch_reply (err (AgentError.not_launchable r why), w) = elim (closed_by (c.admission w)) [
    | some closed ↦ (ok (some (closed, none)), w)
    | none ↦ (err (AgentError.not_launchable r why), w)
  ]
  launch_reply (err e, w) = (err e, w)

  abbrev pub launch_for : LaunchFor
  launch_for = record {
    owner = some (record { deployment = desired.deployment; generation = desired.generation });
    release = release;
    trace = trace;
  }

  -- After the image is fetched, or was not needed; `some` is the fetch's error.
  launch_fetched :
      RecipeId → Option String × W → Result (Option (ActionOutcome × Option String)) × W
  unfolding launch_reply
  launch_fetched recipe (some why, w) =
      (ok (some (failed FailureReason.image_unavailable, some why)), w)
  launch_fetched recipe (none, w) = launch_reply (c.launch recipe launch_for w)

  unfoldable pub fetch : Option VerifiedRelease → W → Option String × W
  fetch none w = (none, w)
  fetch (some r) w = c.fetch_image r.image w

  -- One launch of `recipe`, as the reconciler attempts it.
  unfoldable pub attempt_launch : RecipeId → M W (Option (ActionOutcome × Option String))
  unfolding launch_fetched fetch
  attempt_launch recipe w = elim (closed_by (c.admission w)) [
    | some closed ↦ (ok (some (closed, none)), w)
    | none ↦ launch_fetched recipe (fetch release w)
  ]

  abbrev pub stop_closed : Intent → W → Option ActionOutcome
  stop_closed (run recipe model placement) w = closed_by (c.admission w)
  stop_closed stopped w = none

  abbrev pub was : Option RecipeId → RecipeId → Bool
  was none recipe = false
  was (some r) recipe = str_eq r recipe

  -- What follows an attempted launch.
  after_launch :
      (Bool → Option RecipeId → M W Answer)
      → RecipeId
      → Option (ActionOutcome × Option String)
      → M W Answer
  unfolding answer_now
  after_launch again recipe (some (outcome, detail)) = answer_now outcome detail
  after_launch again recipe none = again true (some recipe)

  -- Carry out one step; `again` is the next round.
  unfoldable pub carry_out :
      (Bool → Option RecipeId → M W Answer)
      → Bool
      → Option RecipeId
      → List Workload
      → Step
      → M W Answer
  unfolding answer_now attempt_launch after_launch
  carry_out again acted launched ws Step.converged w =
      give (answer (if acted then applied else already_applied) desired ws) w
  carry_out again acted launched ws (Step.refuse refusal) w =
      give (answer (refused (reason refusal)) desired ws) w
  carry_out again acted launched ws (Step.launch recipe) w =
      if was launched recipe
      then answer_now (failed FailureReason.exited) none w
      else (attempt_launch recipe >>= after_launch again recipe) w
  carry_out again acted launched ws (Step.stop recipe) w = elim (stop_closed desired.intent w) [
    | some closed ↦ give (answer closed desired ws) w
    | none ↦ (c.stop recipe >>= λ _. again true launched) w
  ]

  -- What one observation shows the decision.
  abbrev pub observed_of : List Workload → Observed
  observed_of ws = record {
    instances = map (λ (w : Workload). w.instance) ws;
    accelerator = c.accelerator;
    recipe_model = wanted_model c desired.intent;
  }

  -- The loop of `converge`; the first number is the rounds left, and the second `max_steps`.
  unfoldable pub rounds : ℕ → ℕ → Bool → Option RecipeId → M W Answer
  unfolding carry_out
  rounds zero most acted launched = fail (
      AgentError.launch_failed (
        "deployment "
        <> desired.deployment
        <> " did not converge within "
        <> decimal most
        <> " launches and stops"))
  rounds (suc n) most acted launched = do
    ws ← c.workloads
    carry_out (rounds n most) acted launched ws (decide desired (observed_of ws))

  -- Converge `desired` on this node: `max_steps + 1` rounds.
  unfoldable pub converge : ℕ → M W Answer
  unfolding rounds
  converge max_steps =
      if is_unreleased desired.intent release
      then answer_now (refused RefusalReason.release_unverified) none
      else rounds (suc max_steps) max_steps false none

module _ {W : Type 0} (c : Control W) where
  abbrev pub result_of : DeploymentAction → NodeId → ℕ → Answer → DeploymentActionResult
  result_of action node now a = record {
    idempotency_key = action.idempotency_key;
    node_id = node;
    outcome = a.outcome;
    running_generation = a.running_generation;
    instances = a.instances;
    answered_at_unix_ms = now;
  }

  -- Answer one action addressed to `node`; `now` is the clock.
  unfoldable pub answer_action :
      NodeId → DeploymentAction → Target → ℕ → (W → ℕ) → M W DeploymentActionResult
  unfolding desired_for converge
  answer_action node action target max_steps now =
      let desired = desired_for action target in
      let trace : ControlTrace = record {
        attempt = action.idempotency_key;
        trace_id = action.trace_id;
      } in
      (if str_eq action.node_id node
        then converge c desired (some target.release) (some trace) max_steps
        else answer_now c desired none none (refused RefusalReason.not_here) none)
      >>= λ a w. (ok (result_of action node (now w) a), w)
