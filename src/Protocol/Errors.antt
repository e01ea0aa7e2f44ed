-- ===== src/Protocol/Errors.antt =====
-- Why the agent said no (crates/metralectl-protocol/src/msg/error.rs).
use metralectl.Prelude.{ℕ, Bool, List, Option, String}
use metralectl.Protocol.Ids.{NodeId, RecipeId}
use metralectl.Protocol.Settings.{SettingError}

pub data AgentError : Type 0 where
  unsupported_protocol : (min max requested : ℕ) → AgentError
  not_paired : AgentError
  not_ready : AgentError
  invalid_message : (detail : String) → AgentError
  unknown_recipe : (recipe : String) → AgentError
  not_launchable : (recipe : RecipeId) (reason : String) → AgentError
  bad_settings : (errors : List SettingError) → AgentError
  already_running : (recipe : RecipeId) → AgentError
  docker_unavailable : (detail : String) → AgentError
  launch_failed : (detail : String) → AgentError
  not_routable : (node : NodeId) (reason : String) → AgentError
  relay_refused :
      (node : NodeId) (via : Option NodeId) (detail : String) (transient : Bool) → AgentError
  control_refused : (node : NodeId) (reason : String) → AgentError

-- `Result<A, AgentError>`.
pub data Result (A : Type 0) : Type 0 where
  ok : A → Result A
  err : AgentError → Result A
