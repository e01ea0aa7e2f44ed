-- ===== src/Protocol/Messages.antt =====
-- The forwardable control vocabulary (crates/metralectl-protocol/src/msg/control.rs) and the
-- payloads that its answers carry (crates/metralectl-protocol/src/msg.rs, telemetry.rs).
use metralectl.Prelude.{ℕ, Bool, List, Option, String}
use metralectl.Protocol.Ids.{NodeId, RecipeId}
use metralectl.Protocol.Settings.{ℤ, Float, Settings}
use metralectl.Protocol.Errors.{AgentError}

pub record RecipeInfo : Type 0 where
  pub id : RecipeId
  pub model : String
  pub nodes : ℕ
  pub runnable : Bool
  pub reason : Option String
  pub defaults : Settings

pub record RunningLaunch : Type 0 where
  pub container : String
  pub recipe : Option RecipeId
  pub status : String

pub data LaunchPhase : Type 0 where
  pulling starting loading_weights ready serving : LaunchPhase
  degraded : (reason : String) → LaunchPhase
  stopping : LaunchPhase
  exited : (code : Option ℤ) → LaunchPhase

pub record LaunchReading : Type 0 where
  pub requests_total : Option Float
  pub requests_active : Option Float
  pub decode_tokens_per_s : Option Float
  pub prompt_tokens_per_s : Option Float
  pub ttft_p50_s : Option Float
  pub ttft_p90_s : Option Float
  pub accept_rate : Option Float
  pub prefix_hit_rate : Option Float
  pub isl_mean : Option Float
  pub osl_mean : Option Float
  pub window_s : Option Float
  pub prompt_tokens_total : Option ℕ
  pub generation_tokens_total : Option ℕ
  pub tpot_p50_s : Option Float
  pub queue_time_p50_s : Option Float
  pub gpu_energy_mj_total : Option ℕ
  pub phase : Option LaunchPhase
  pub engine_commit : Option String

-- What one agent may ask another to do on the target's own hardware.
pub data ControlReq : Type 0 where
  list_recipes : ControlReq
  preview : (recipe : RecipeId) (settings : Settings) → ControlReq
  launch : (recipe : RecipeId) (settings : Settings) → ControlReq
  stop : (recipe : RecipeId) → ControlReq
  status : ControlReq
  stats : (recipe : RecipeId) → ControlReq
  logs : (recipe : RecipeId) (lines : ℕ) → ControlReq

-- The answer to a `ControlReq`.
pub data ControlRep : Type 0 where
  recipes : List RecipeInfo → ControlRep
  previewed : (command : String) (unapplied : List String) → ControlRep
  started : (recipe : RecipeId) (container : String) (endpoint : Option String) → ControlRep
  stopped : (recipe : RecipeId) → ControlRep
  status : List RunningLaunch → ControlRep
  stats : (recipe : RecipeId) (stats : LaunchReading) → ControlRep
  logs :
      (recipe : RecipeId) (container : String) (lines : List String) (running : Bool) → ControlRep
  refused : (by : NodeId) (error : AgentError) → ControlRep
