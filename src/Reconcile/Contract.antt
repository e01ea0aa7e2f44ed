-- ===== src/Reconcile/Contract.antt =====
-- The reconciler's inputs and outputs (crates/metralectl-control/src/reconcile/contract.rs), with
-- the contract's reasons (crates/metralectl-control/src/platform/action.rs).
use metralectl.Prelude.{ℕ, List, Option, String}
use metralectl.Protocol.{RecipeId}
use metralectl.Hardware.{HardwareClass}

-- A deployment's name, the text that `as_str` returns.
abbrev pub DeploymentName : Type 0
DeploymentName = String

-- A `NonZeroU64`.
abbrev pub Generation : Type 0
Generation = ℕ

pub record Owner : Type 0 where
  pub deployment : DeploymentName
  pub generation : Generation

pub data Placement : Type 0 where
  hardware_class : HardwareClass → Placement
  this_node : Placement

pub data Intent : Type 0 where
  run : (recipe : RecipeId) (model : String) (placement : Placement) → Intent
  stopped : Intent

pub record Desired : Type 0 where
  pub deployment : DeploymentName
  pub generation : Generation
  pub intent : Intent

pub record Instance : Type 0 where
  pub recipe : RecipeId
  pub owner : Option Owner

pub record Observed : Type 0 where
  pub instances : List Instance
  pub accelerator : String
  pub recipe_model : Option String

pub data Refusal : Type 0 where
  stale_generation : (running : Generation) → Refusal
  idempotency_conflict : (running : RecipeId) → Refusal
  release_unverified : (reason : String) → Refusal
  hardware_incompatible : (reason : String) → Refusal
  busy : (recipe : RecipeId) (owner : Option Owner) → Refusal

pub data Step : Type 0 where
  converged : Step
  launch : (recipe : RecipeId) → Step
  stop : (recipe : RecipeId) → Step
  refuse : Refusal → Step

-- Why an action was not applied, in the platform's words.
pub data RefusalReason : Type 0 where
  stale_generation idempotency_conflict release_unverified receipt_missing : RefusalReason
  hardware_incompatible not_here busy cordoned draining : RefusalReason

-- The contract's reason for a refusal.
unfoldable pub reason : Refusal → RefusalReason
reason (Refusal.stale_generation running) = RefusalReason.stale_generation
reason (Refusal.idempotency_conflict running) = RefusalReason.idempotency_conflict
reason (Refusal.release_unverified why) = RefusalReason.release_unverified
reason (Refusal.hardware_incompatible why) = RefusalReason.hardware_incompatible
reason (Refusal.busy recipe owner) = RefusalReason.busy
