-- ===== src/LocalControl/Ports.antt =====
-- What the control core is given (crates/metralectl-control/src/launcher.rs,
-- launch_telemetry.rs, logs.rs, and the fields of `LocalControl` in control.rs). The launcher, the
-- telemetry and the registry are interfaces; every call of the first two may change the world.
use metralectl.Prelude.{ℕ, List, Option, String, Bool, Fallible, min, if◌then◌else◌, ◌==◌}
use metralectl.Protocol.{RecipeId, LaunchReading, RunningLaunch, Result}
use metralectl.Reconcile.Action.{Admission, LaunchFor, Started, Workload}
use metralectl.Settings.{Floats}
use metralectl.Settings.Gate.{Overrides}
use metralectl.LocalControl.Recipes.{Recipe}

pub record Preview : Type 0 where
  pub command : String
  pub unapplied : List String

pub record LogTail : Type 0 where
  pub container : String
  pub lines : List String
  pub running : Bool

-- How a task of the blocking pool ends: with what it returned, or not (a panic, by its message).
pub data Joined (A : Type 0) : Type 0 where
  completed : A → Joined A
  lost : String → Joined A

pub record Launcher (W : Type 0) : Type 0 where
  pub preview : Recipe → Overrides → W → Result Preview × W
  pub launch : Recipe → Overrides → LaunchFor → W → Joined (Result Started) × W
  pub fetch_image : String → W → Joined (Fallible (Unit {0})) × W
  pub stop : RecipeId → W → Joined (Result (Unit {0})) × W
  pub running : W → Joined (Result (List RunningLaunch)) × W
  pub workloads : W → Joined (Result (List Workload)) × W

pub record LaunchTelemetry (W : Type 0) : Type 0 where
  pub sample : RecipeId → W → Fallible LaunchReading × W
  pub logs : RecipeId → ℕ → W → Fallible LogTail × W

-- The recipes that are named here, and the recipe of a bare name.
pub record Registry : Type 0 where
  pub names : List String
  pub resolve : String → Option Recipe

-- `can_launch` is the reason why the machine cannot, if it cannot.
pub record Local (W : Type 0) : Type 0 where
  pub registry : Registry
  pub launcher : Launcher W
  pub telemetry : Option (LaunchTelemetry W)
  pub can_launch : Option String
  pub accelerator : String
  pub admission : W → Admission
  pub floats : Floats

abbrev pub max_lines : ℕ
max_lines = 500

unfoldable pub clamp_lines : ℕ → ℕ
clamp_lines asked = if asked == 0 then 200 else min asked max_lines
