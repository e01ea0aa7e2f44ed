-- ===== src/LocalControl.antt =====
-- The single execution core of the control operations (crates/metralectl-control/src/control.rs).
pub mod Recipes
pub mod Ports
mod Gates
mod Effects
mod Core
mod Tests
mod Served
use metralectl.Prelude.{
  List, [], ◌∷◌, Option, none, some, String, ◌<>◌, str_eq, if◌then◌else◌, Fallible, success, error,
  map, Bool, true, false,
}
use metralectl.Protocol.{
  RecipeId, AgentError, Result, ok, err, ControlReq, ControlRep, RecipeInfo, SettingValue,
  SettingError, LaunchReading, RunningLaunch,
}
use metralectl.Prelude.{ℕ, Result as Either, ok as valid, err as invalid}
use metralectl.Protocol.Name.{RecipeIdError, parse_name}
use metralectl.Hardware.{check}
use metralectl.Settings.{Floats}
use metralectl.Settings.Gate.{ScalarValue, Requested, Overrides, validate, caution}
use metralectl.Reconcile.Action.{
  Admission, admits, LaunchFor, VerifiedRelease, ControlTrace, Started, Workload,
}
use metralectl.Reconcile.Answer.{M, give, fail, then_do}
use Recipes.{Recipe, HardwareRequirement, NotLaunchable, launchable, not_launchable_text}
use Ports.{
  Preview, LogTail, Joined, completed, lost, Launcher, LaunchTelemetry, Registry, Local,
  clamp_lines,
}

-- A call on the blocking pool: a task that was lost is a launch that failed.
abbrev pub blocking : {W A : Type 0} → Joined (Result A) × W → Result A × W
blocking (completed r, w) = (r, w)
blocking (lost why, w) =
    (err (AgentError.launch_failed ("the launcher task did not complete: " <> why)), w)

infixl 5 ◌>>=◌ ◌>>◌
abbrev pub ◌>>=◌ : {A B : Type 0} → Result A → (A → Result B) → Result B
ok a >>= k = k a
err e >>= k = err e

abbrev pub ◌>>◌ : {B : Type 0} → Result (Unit {0}) → Result B → Result B
m >> k = m >>= λ _. k

-- An early return with the error, if there is one.
abbrev pub refuse : Option AgentError → Result (Unit {0})
refuse none = ok tt
refuse (some e) = err e

abbrev pub because : RecipeId → Option String → Option AgentError
because id none = none
because id (some why) = some (AgentError.not_launchable id why)

abbrev pub resolved : RecipeId → Option Recipe → Result Recipe
resolved id none = err (AgentError.unknown_recipe id)
resolved id (some recipe) = ok recipe

abbrev pub launch_refusal : RecipeId → Recipe → Option AgentError
launch_refusal id recipe = elim (launchable recipe) [
  | none ↦ none
  | some why ↦ some (AgentError.not_launchable id (not_launchable_text why))
]

abbrev pub hardware_refusal : RecipeId → Option HardwareRequirement → String → Option AgentError
hardware_refusal id none accelerator = none
hardware_refusal id (some required) accelerator = elim (check required.hardware_class accelerator) [
  | none ↦ none
  | some why ↦ some (AgentError.not_launchable id ("this machine cannot run it: " <> why))
]

abbrev pub model_refusal : RecipeId → Option VerifiedRelease → String → Option AgentError
model_refusal id none model = none
model_refusal id (some release) model =
    if str_eq release.model model
    then none
    else some (
        AgentError.not_launchable id
          ("the release serves " <> release.model <> "; this recipe serves " <> model))

abbrev pub bad_settings_of : Either (List SettingError) Overrides → Result Overrides
bad_settings_of (valid out) = ok out
bad_settings_of (invalid errors) = err (AgentError.bad_settings errors)

-- Validate requested settings against the schema.
unfoldable pub check_settings : Floats → Requested → Result Overrides
check_settings f requested = bad_settings_of (validate f requested)

abbrev pub cautioned : String → Option String → Option AgentError → Option AgentError
cautioned key none rest = rest
cautioned key (some why) rest = some (AgentError.bad_settings (SettingError.denied key why ∷ []))

abbrev pub caution_of : Floats → String → ScalarValue → String → Option String
caution_of f key (ScalarValue.float x) accelerator = caution f key x accelerator
caution_of f key _ accelerator = none

-- The first override that the unattended surface refuses.
unfoldable pub first_caution : Floats → String → Overrides → Option AgentError
first_caution f accelerator [] = none
first_caution f accelerator ((key, value) ∷ rest) =
    cautioned key (caution_of f key value accelerator) (first_caution f accelerator rest)

abbrev pub is_none : {A : Type 0} → Option A → Bool
is_none none = true
is_none (some a) = false

abbrev pub reason_of : Option NotLaunchable → Option String
reason_of none = none
reason_of (some why) = some (not_launchable_text why)

-- A recipe default, as the wire carries it.
abbrev pub to_wire : ScalarValue → SettingValue
to_wire (ScalarValue.bool b) = SettingValue.bool b
to_wire (ScalarValue.int n) = SettingValue.int n
to_wire (ScalarValue.float x) = SettingValue.float x
to_wire (ScalarValue.str s) = SettingValue.str s

module _ {W : Type 0} (c : Local W) where
  unfoldable pub resolve : RecipeId → Result Recipe
  resolve id = resolved id (c.registry.resolve id)

  abbrev pub asked : RecipeId → Requested → Result (Recipe × Overrides)
  asked id requested = do
    recipe ← resolve id
    overrides ← check_settings c.floats requested
    ok (recipe, overrides)

  abbrev pub preview_with : Result (Recipe × Overrides) → M W Preview
  preview_with (err e) w = (err e, w)
  preview_with (ok (recipe, overrides)) w = c.launcher.preview recipe overrides w

  -- Render the command that a launch would run, without running it.
  unfoldable pub preview : RecipeId → Requested → M W Preview
  unfolding resolve check_settings
  preview id requested w = preview_with (asked id requested) w

  -- Everything that `launch` asks before the launcher.
  unfoldable pub gates : RecipeId → Requested → LaunchFor → Admission → Result (Recipe × Overrides)
  unfolding resolve check_settings first_caution
  gates id requested launch_for admission = do
    refuse (because id c.can_launch)
    refuse (because id (admits admission))
    recipe ← resolve id
    refuse (launch_refusal id recipe)
    refuse (hardware_refusal id recipe.requires c.accelerator)
    refuse (model_refusal id launch_for.release recipe.model)
    overrides ← check_settings c.floats requested
    refuse (first_caution c.floats c.accelerator overrides)
    ok (recipe, overrides)

  abbrev pub launch_with : LaunchFor → Result (Recipe × Overrides) → M W Started
  launch_with launch_for (err e) w = (err e, w)
  launch_with launch_for (ok (recipe, overrides)) w =
      blocking (c.launcher.launch recipe overrides launch_for w)

  -- Start a recipe on this machine.
  unfoldable pub launch : RecipeId → Requested → LaunchFor → M W Started
  unfolding gates
  launch id requested launch_for w =
      launch_with launch_for (gates id requested launch_for (c.admission w)) w

  unfoldable pub stop : RecipeId → M W (Unit {0})
  stop id w = blocking (c.launcher.stop id w)

  abbrev pub fetched : Joined (Fallible (Unit {0})) × W → Option String × W
  fetched (completed (success u), w) = (none, w)
  fetched (completed (error why), w) = (some why, w)
  fetched (lost why, w) = (some ("launch failed: the launcher task did not complete: " <> why), w)

  -- `some` is the error.
  unfoldable pub fetch_image : String → W → Option String × W
  fetch_image image w = fetched (c.launcher.fetch_image image w)

  unfoldable pub status : M W (List RunningLaunch)
  status w = blocking (c.launcher.running w)

  unfoldable pub workloads : M W (List Workload)
  workloads w = blocking (c.launcher.workloads w)

  -- The model that this machine's own copy of a recipe serves.
  unfoldable pub recipe_model : RecipeId → Option String
  unfolding resolve
  recipe_model id = elim (resolve id) [ ok recipe ↦ some recipe.model | err e ↦ none ]

  abbrev pub reading : {A : Type 0} → RecipeId → Fallible A × W → Result A × W
  reading id (success a, w) = (ok a, w)
  reading id (error why, w) = (err (AgentError.not_launchable id why), w)

  unfoldable pub stats : RecipeId → M W LaunchReading
  stats id w = elim c.telemetry [
    | none ↦ (err AgentError.not_ready, w)
    | some telemetry ↦ reading id (telemetry.sample id w)
  ]

  -- This machine caps the line count.
  unfoldable pub logs : RecipeId → ℕ → M W LogTail
  unfolding clamp_lines
  logs id lines w = elim c.telemetry [
    | none ↦ (err AgentError.not_ready, w)
    | some telemetry ↦ reading id (telemetry.logs id (clamp_lines lines) w)
  ]

  abbrev info : String → Recipe → RecipeInfo
  info name r = record {
    id = name;
    model = r.model;
    nodes = r.topology.min_nodes;
    runnable = is_none (launchable r);
    reason = reason_of (launchable r);
    defaults = map (λ (kv : String × ScalarValue). (kv.0, to_wire kv.1)) r.defaults;
  }

  abbrev listed : Either RecipeIdError String → Option Recipe → List RecipeInfo → List RecipeInfo
  listed (valid name) (some r) rest = info name r ∷ rest
  listed (valid name) none rest = rest
  listed (invalid e) found rest = rest

  abbrev infos : List String → List RecipeInfo
  infos [] = []
  infos (name ∷ names) = listed (parse_name name) (c.registry.resolve name) (infos names)

  -- The recipe inventory.
  unfoldable pub recipes : List RecipeInfo
  unfolding launchable parse_name
  recipes = infos c.registry.names

  abbrev pub replied : {A : Type 0} → (A → ControlRep) → Result A × W → Result ControlRep × W
  replied f (ok a, w) = (ok (f a), w)
  replied f (err e, w) = (err e, w)

  -- Execute one relayed control request through the same operations.
  unfoldable pub execute : ControlReq → Option ControlTrace → M W ControlRep
  unfolding recipes preview launch stop status stats logs
  execute ControlReq.list_recipes trace w = (ok (ControlRep.recipes recipes), w)
  execute (ControlReq.preview id settings) trace w =
      replied (λ p. ControlRep.previewed p.command p.unapplied) (preview id settings w)
  execute (ControlReq.launch id settings) trace w =
      replied (λ s. ControlRep.started id s.container s.endpoint)
        (launch id settings (record { owner = none; release = none; trace = trace }) w)
  execute (ControlReq.stop id) trace w = replied (λ u. ControlRep.stopped id) (stop id w)
  execute ControlReq.status trace w = replied (λ running. ControlRep.status running) (status w)
  execute (ControlReq.stats id) trace w = replied (λ s. ControlRep.stats id s) (stats id w)
  execute (ControlReq.logs id lines) trace w =
      replied (λ t. ControlRep.logs id t.container t.lines t.running) (logs id lines w)
