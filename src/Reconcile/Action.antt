-- ===== src/Reconcile/Action.antt =====
-- The one command that the plane sends about a deployment, and the answer
-- (crates/metralectl-control/src/platform/action.rs), with the values that a launch carries
-- (crates/metralectl-control/src/launcher.rs, release.rs, admission.rs).
use metralectl.Prelude.{ℕ, List, Option, none, some, String, ◌<>◌}
use metralectl.Protocol.{NodeId}
use metralectl.Reconcile.Contract.{DeploymentName, Generation, Owner, Instance}
use metralectl.Reconcile.Contract.{RefusalReason}

-- A fixed-width id, by its hex digits.
abbrev pub HexId : Type 0
HexId = String

pub data ActionKind : Type 0 where
  apply stop : ActionKind

pub record Scope : Type 0 where
  pub tenant : String
  pub project : String

pub record DeploymentAction : Type 0 where
  pub idempotency_key : HexId
  pub trace_id : HexId
  pub scope : Scope
  pub deployment : DeploymentName
  pub generation : Generation
  pub node_id : NodeId
  pub action : ActionKind
  pub issued_at_unix_ms : ℕ

pub data FailureReason : Type 0 where
  image_unavailable launch_failed not_ready exited : FailureReason

pub data ActionOutcome : Type 0 where
  applied already_applied : ActionOutcome
  refused : RefusalReason → ActionOutcome
  failed : FailureReason → ActionOutcome

pub record DeploymentActionResult : Type 0 where
  pub idempotency_key : HexId
  pub node_id : NodeId
  pub outcome : ActionOutcome
  pub running_generation : Option Generation
  pub instances : List HexId
  pub answered_at_unix_ms : ℕ

-- A release that passed verification.
pub record VerifiedRelease : Type 0 where
  pub digest : HexId
  pub image : String
  pub model : String
  pub signer : HexId

pub record ControlTrace : Type 0 where
  pub attempt : HexId
  pub trace_id : HexId

pub record LaunchFor : Type 0 where
  pub owner : Option Owner
  pub release : Option VerifiedRelease
  pub trace : Option ControlTrace

pub record Workload : Type 0 where
  pub id : HexId
  pub instance : Instance

pub record Started : Type 0 where
  pub container : String
  pub endpoint : Option String

-- A node's admission state.
pub data Admission : Type 0 where
  is_open : Admission
  cordoned : (why : String) → Admission
  draining : (why : String) → Admission

-- Whether a new launch may start; `some` is the refusal's reason.
unfoldable pub admits : Admission → Option String
admits is_open = none
admits (cordoned why) = some ("this machine is cordoned and takes no new launches: " <> why)
admits (draining why) = some ("this machine is draining and takes no new launches: " <> why)
