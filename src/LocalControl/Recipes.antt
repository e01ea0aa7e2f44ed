-- ===== src/LocalControl/Recipes.antt =====
-- A parsed recipe, and whether it can be launched (crates/metralectl-core/src/recipe/mod.rs,
-- crates/metralectl-core/src/recipe/topology.rs).
use metralectl.Prelude.{ℕ, List, [], ◌∷◌, Option, none, some, String, ◌<>◌, if◌then◌else◌, str_eq}
use metralectl.Hardware.{HardwareClass}
use metralectl.Settings.Gate.{Overrides}

pub data Provenance : Type 0 where
  builtin : (path : String) → Provenance
  remote : (registry url : String) → Provenance
  local_path : (path : String) → Provenance

pub data RuntimeKind : Type 0 where
  metrale : RuntimeKind
  unsupported : String → RuntimeKind

pub record Topology : Type 0 where
  pub min_nodes : ℕ
  pub max_nodes : Option ℕ

pub record HardwareRequirement : Type 0 where
  pub hardware_class : HardwareClass

pub record Recipe : Type 0 where
  pub name : String
  pub provenance : Provenance
  pub recipe_version : String
  pub model : String
  pub model_revision : Option String
  pub runtime : RuntimeKind
  pub container : String
  pub topology : Topology
  pub defaults : Overrides
  pub env : List (String × String)
  pub description : Option String
  pub requires : Option HardwareRequirement
  pub unknown_keys : List String
  pub refused_keys : List String

pub data NotLaunchable : Type 0 where
  executable_content : List String → NotLaunchable
  foreign_runtime : String → NotLaunchable
  no_runtime_declared : String → NotLaunchable

-- `join(", ")`.
abbrev pub comma_joined : List String → String
comma_joined [] = ""
comma_joined (s ∷ []) = s
comma_joined (s ∷ t ∷ rest) = s <> ", " <> comma_joined (t ∷ rest)

abbrev pub not_launchable_text : NotLaunchable → String
not_launchable_text (NotLaunchable.executable_content keys) =
    "recipe carries executable-content keys ["
    <> comma_joined keys
    <> "]. metralectl never runs recipe-supplied commands — that mechanism is what allowed the tool "
    <> "this replaces to be turned against its users. Move the work into explicit recipe fields, or "
    <> "run it yourself before launching."
not_launchable_text (NotLaunchable.foreign_runtime r) =
    "recipe targets runtime `" <> r <> "`; metralectl launches the `metrale` runtime only"
not_launchable_text (NotLaunchable.no_runtime_declared version) =
    "recipe declares no `runtime:` (schema version " <> version
    <> "). The reference tool guessed one by inspecting the command template; metralectl does not "
    <> "guess what to execute."

abbrev pub runtime_refusal : String → RuntimeKind → Option NotLaunchable
runtime_refusal version RuntimeKind.metrale = none
runtime_refusal version (RuntimeKind.unsupported r) =
    if str_eq r ""
    then some (NotLaunchable.no_runtime_declared version)
    else some (NotLaunchable.foreign_runtime r)

abbrev pub refusal_of : List String → String → RuntimeKind → Option NotLaunchable
refusal_of [] version runtime = runtime_refusal version runtime
refusal_of (key ∷ keys) version runtime = some (NotLaunchable.executable_content (key ∷ keys))

-- Why the recipe cannot be launched, if it cannot.
unfoldable pub launchable : Recipe → Option NotLaunchable
launchable r = refusal_of r.refused_keys r.recipe_version r.runtime
