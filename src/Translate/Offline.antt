-- ===== src/Translate/Offline.antt =====
-- What a command that a recipe was translated to holds, whatever the recipe says
-- (crates/metralectl-core/src/docker/translate.rs).
use metralectl.Prelude.{◌≡◌, ◌≤◌}
use metralectl.Prelude.{List, [], ◌∷◌, none, some, String}
use metralectl.Prelude.{Memᴰ}
use metralectl.LocalControl.Recipes.{Recipe, launchable}
use metralectl.Translate.Maps.{get}
use metralectl.Translate.Flags
use metralectl.Translate.Environment.{HostSnapshot}
use metralectl.Translate.Environment.{egress_env, container_hf_home}
use metralectl.Translate.{Placement, LaunchContext, LaunchPlan, supplied_nodes}
use metralectl.Translate.{container_name, user_of}

-- What a launch holds: the recipe is one that may be launched, on machines enough; the switches of
-- the network are the program's; the container is managed and has the name that stops it; its
-- isolation is the profile's and its accelerator the machine's; its one volume is the cache, and it
-- runs as the host's user, whose rendering (Docker) mounts the account files beside the cache.
pub record IsConfined (c : LaunchContext) (recipe : Recipe) (host : HostSnapshot)
    (placement : Placement) (plan : LaunchPlan) : Type 0 where
  pub accepted : launchable recipe ≡ none
  pub enough : recipe.topology.min_nodes ≤ supplied_nodes placement
  pub offline : (k : String) → Memᴰ k egress_env → get k plan.docker.env ≡ some "1"
  pub managed : Memᴰ ("io.metralectl.managed", "1") plan.docker.labels
  pub called : plan.docker.name ≡ container_name recipe.name placement
  pub privileges :
      (plan.docker.privileged ≡ c.profile.privileged)
      × (plan.docker.cap_add ≡ c.profile.cap_add)
      × (plan.docker.security_opts ≡ c.profile.security_opts)
      × (plan.docker.ulimits ≡ c.profile.ulimits)
  pub namespaces : (plan.docker.ipc ≡ c.profile.ipc) × (plan.docker.network ≡ c.profile.network)
  pub devices :
      (plan.docker.devices ≡ c.profile.devices) × (plan.docker.device_flags ≡ c.device_flags)
  pub as_user : plan.docker.user ≡ user_of c host.posix_user
  pub mounted : plan.docker.volumes ≡ (host.hf_cache_dir, container_hf_home) ∷ []
  pub runs : (flags : List String) × (plan.docker.command ≡ "met" ∷ "serve" ∷ recipe.model ∷ flags)
