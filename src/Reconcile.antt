-- ===== src/Reconcile.antt =====
-- Per-generation convergence of one deployment on this node
-- (crates/metralectl-control/src/reconcile.rs): `decide`, pure and level-triggered.
pub mod Contract
pub mod Action
pub mod Answer
pub mod Driver
mod Sorting
mod Safety
mod Realised
mod Stale
mod Replace
pub mod Ready
mod Tests
use metralectl.Prelude.{
  ℕ, ◌<◌, Bool, true, false, not, List, [], ◌∷◌, Option, none, some, String, max,
}
use metralectl.Prelude.{find, filter, head?, ltb, ◌==◌, if◌then◌else◌, str_eq, ◌<>◌, ◌&&◌}
use metralectl.Protocol.{RecipeId, ControlReq}
use metralectl.Hardware.{check}
use Contract.{DeploymentName, Generation, Owner, Placement, hardware_class, this_node, Intent, run}
use Contract.{stopped, Desired, Instance, Observed, Refusal, Step}

-- Whether a workload was started for deployment `ours`.
abbrev pub is_ours : DeploymentName → Instance → Bool
is_ours ours i = elim i.owner [ none ↦ false | some o ↦ str_eq o.deployment ours ]

-- The closure `generation_of`.
abbrev pub generation_of : Instance → Option Generation
generation_of i = elim i.owner [ none ↦ none | some o ↦ some o.generation ]

-- A running workload of `recipe` that is not deployment `ours`'s.
abbrev pub is_foreign : RecipeId → DeploymentName → Instance → Bool
is_foreign recipe ours i = str_eq i.recipe recipe && not (is_ours ours i)

unfoldable pub foreign : RecipeId → List Instance → DeploymentName → Option Instance
foreign recipe instances ours = find (is_foreign recipe ours) instances

-- `filter_map(generation_of).max()`.
abbrev pub max_option : Option ℕ → Option ℕ → Option ℕ
max_option none b = b
max_option (some a) none = some a
max_option (some a) (some b) = some (max a b)

unfoldable pub newest : List Instance → Option Generation
newest [] = none
newest (i ∷ is) = max_option (generation_of i) (newest is)

-- Stop this deployment's recipe, unless that would also stop a workload that is not its own.
unfoldable pub stop : RecipeId → List Instance → DeploymentName → Step
stop recipe instances ours = elim (foreign recipe instances ours) [
  | some other ↦ Step.refuse (Refusal.busy recipe other.owner)
  | none ↦ Step.stop recipe
]

-- The gate of a placement: the reason, when it forbids this machine.
abbrev pub misplaced : Placement → String → Option String
misplaced (hardware_class class) accelerator = check class accelerator
misplaced this_node accelerator = none

-- Why `recipe` cannot be launched for this deployment here, if it cannot.
unfoldable pub launch_blocked :
    RecipeId → String → Placement → Observed → DeploymentName → Option Refusal
launch_blocked recipe model placement observed ours =
    elim (misplaced placement observed.accelerator) [
      | some why ↦ some (Refusal.hardware_incompatible why)
      | none ↦ elim observed.recipe_model [
        | none ↦ some (Refusal.release_unverified ("this node has no recipe " <> recipe))
        | some here ↦
            if str_eq here model
            then (elim (foreign recipe observed.instances ours) [
              | some other ↦ some (Refusal.busy recipe other.owner)
              | none ↦ none
            ])
            else some (
                Refusal.release_unverified (
                  "the release says " <> recipe <> " serves " <> model <> "; this node's " <> recipe
                  <> " serves " <> here))
      ]
    ]

abbrev pub is_current : Generation → Instance → Bool
is_current generation i = elim (generation_of i) [ none ↦ false | some g ↦ g == generation ]

abbrev pub is_older : Generation → Instance → Bool
is_older generation i = not (is_current generation i)

-- The last match of a `Run`: the oldest first, then the launch.
unfoldable pub next_step :
    RecipeId → DeploymentName → List Instance → List Instance → List Instance → Step
unfolding stop foreign
next_step recipe ours instances (old ∷ older) current = stop old.recipe instances ours
next_step recipe ours instances [] [] = Step.launch recipe
next_step recipe ours instances [] (_ ∷ _) = Step.converged

-- What blocks a launch is asked only when nothing of the generation runs.
unfoldable pub blocked_by :
    RecipeId → String → Placement → Observed → DeploymentName → List Instance → Option Refusal
unfolding launch_blocked foreign
blocked_by recipe model placement observed ours [] =
    launch_blocked recipe model placement observed ours
blocked_by recipe model placement observed ours (_ ∷ _) = none

-- The `Run` arm of `decide`, over the deployment's own workloads.
unfoldable pub decide_run :
    RecipeId → String → Placement → Generation → DeploymentName → Observed → List Instance → Step
unfolding next_step blocked_by
decide_run recipe model placement generation ours observed mine =
    let current = filter (is_current generation) mine in
    let older = filter (is_older generation) mine in
    elim (find (λ i. not (str_eq i.recipe recipe)) current) [
      | some other ↦ Step.refuse (Refusal.idempotency_conflict other.recipe)
      | none ↦ elim (blocked_by recipe model placement observed ours current) [
        | some refusal ↦ Step.refuse refusal
        | none ↦ next_step recipe ours observed.instances older current
      ]
    ]

-- The `Stopped` arm of `decide`.
unfoldable pub decide_stopped : DeploymentName → List Instance → List Instance → Step
unfolding stop foreign
decide_stopped ours instances [] = Step.converged
decide_stopped ours instances (own ∷ _) = stop own.recipe instances ours

unfoldable pub decide_intent :
    Intent → Generation → DeploymentName → Observed → List Instance → Step
unfolding decide_run decide_stopped
decide_intent stopped generation ours observed mine = decide_stopped ours observed.instances mine
decide_intent (run recipe model placement) generation ours observed mine =
    decide_run recipe model placement generation ours observed mine

-- The running generation, when it is newer than the desired one.
abbrev pub stale : Generation → Option Generation → Option Generation
stale generation none = none
stale generation (some running) = if ltb generation running then some running else none

-- The next step toward `desired`, given what this node runs.
unfoldable pub decide : Desired → Observed → Step
unfolding newest decide_intent
decide desired observed =
    let mine = filter (is_ours desired.deployment) observed.instances in
    elim (stale desired.generation (newest mine)) [
      | some running ↦ Step.refuse (Refusal.stale_generation running)
      | none ↦ decide_intent desired.intent desired.generation desired.deployment observed mine
    ]

-- The control request that carries a step out, when it is an action.
unfoldable pub request : Step → Option ControlReq
request (Step.launch recipe) = some (ControlReq.launch recipe [])
request (Step.stop recipe) = some (ControlReq.stop recipe)
request Step.converged = none
request (Step.refuse refusal) = none
