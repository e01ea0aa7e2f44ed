-- ===== src/Translate.antt =====
-- From a recipe to the command that launches it (crates/metralectl-core/src/docker/translate.rs,
-- docker/collective.rs, docker/profile.rs). Reading an IP address is the standard library's, a
-- parameter; so are the letters and digits, and the rendering of a float.
pub mod Maps
mod Chain
pub mod Flags
pub mod Environment
mod Secrets
mod Offline
pub mod Samples
mod Tests
use metralectl.Prelude.{ℕ, Bool, true, false, List, [], ◌∷◌, ◌++◌, Option, none, some}
use metralectl.Prelude.{String, ◌<>◌, decimal, ltb, not, if◌then◌else◌}
use metralectl.Prelude.{Result, ok, err, ◌>>=◌, ◌>>◌, require, map_err}
use metralectl.Settings.Gate.{Overrides, Rendering}
use metralectl.LocalControl.Recipes.{Recipe, Topology, NotLaunchable, launchable}
use metralectl.Docker.{DockerCommand, UserSpec}
use metralectl.Translate.Chain.{resolve}
use metralectl.Translate.Flags.{AliasConflict, UnmappedKey, validate_no_alias_conflict}
use metralectl.Translate.Flags
use metralectl.Translate.Environment.{PosixUser, HostSnapshot, build_env, container_hf_home}

pub data Placement : Type 0 where
  solo : Placement
  rank : (rank world_size : ℕ) (master_addr : String) (master_port : ℕ) → Placement

pub record LaunchPlan : Type 0 where
  pub docker : DockerCommand
  pub unmapped : List UnmappedKey
  pub unknown_keys : List String

-- Each case but the first names the recipe first.
pub data TranslateError : Type 0 where
  not_launchable : (name : String) (source : NotLaunchable) → TranslateError
  egress_override : (name key : String) → TranslateError
  alias_conflict : (name : String) (source : AliasConflict) → TranslateError
  node_count_mismatch : (name : String) (required supplied : ℕ) → TranslateError
  bad_rendezvous_address : (name addr : String) → TranslateError

pub record LaunchProfile : Type 0 where
  pub name : String
  pub ipc : String
  pub network : String
  pub shm_size : String
  pub privileged : Bool
  pub security_opts : List String
  pub cap_add : List String
  pub ulimits : List String
  pub devices : List String
  pub entrypoint : Option String

abbrev pub rootless_v1 : LaunchProfile
rootless_v1 = record {
  name = "rootless-v1";
  ipc = "host";
  network = "host";
  shm_size = "32gb";
  privileged = false;
  security_opts = "no-new-privileges" ∷ "seccomp=unconfined" ∷ [];
  cap_add = "IPC_LOCK" ∷ "SYS_NICE" ∷ [];
  ulimits = "memlock=-1:-1" ∷ "stack=67108864" ∷ [];
  devices = "/dev/infiniband" ∷ [];
  entrypoint = some "";
}

abbrev pub nvidia_flags : List String
nvidia_flags = "--gpus" ∷ "all" ∷ []

abbrev pub amd_flags : List String
amd_flags = "--device" ∷ "/dev/kfd" ∷ "--device" ∷ "/dev/dri" ∷ "--group-add" ∷ "video" ∷ []

-- NCCL's variables for a RoCE fabric, in key order.
abbrev pub nccl_env : List (String × String)
nccl_env =
    ("NCCL_ALGO", "Ring")
    ∷ ("NCCL_BUFFSIZE", "33554432")
    ∷ ("NCCL_CROSS_NIC", "")
    ∷ ("NCCL_CUMEM_HOST_ENABLE", "0")
    ∷ ("NCCL_DEBUG", "INFO")
    ∷ ("NCCL_DMABUF_ENABLE", "0")
    ∷ ("NCCL_IB_ADDR_FAMILY", "AF_INET")
    ∷ ("NCCL_IB_DISABLE", "0")
    ∷ ("NCCL_IB_GID_INDEX", "")
    ∷ ("NCCL_IB_RETRY_CNT", "7")
    ∷ ("NCCL_IB_ROCE_VERSION_NUM", "2")
    ∷ ("NCCL_IB_TIMEOUT", "22")
    ∷ ("NCCL_MAX_NCHANNELS", "2")
    ∷ ("NCCL_MIN_NCHANNELS", "1")
    ∷ ("NCCL_NET_GDR_LEVEL", "0")
    ∷ ("NCCL_NVLS_ENABLE", "0")
    ∷ ("NCCL_PROTO", "Simple")
    ∷ []

-- The policy of a launch (the isolation, the accelerator's flags, the fabric's variables), and the
-- standard library's parts.
pub record LaunchContext : Type 0 where
  pub profile : LaunchProfile
  pub device_flags : List String
  pub cluster_env : List (String × String)
  pub rendering : Rendering
  pub alphanumeric : ℕ → Bool
  pub is_ip_addr : String → Bool

abbrev pub supplied_nodes : Placement → ℕ
supplied_nodes Placement.solo = 1
supplied_nodes (Placement.rank r world addr port) = world

unfoldable pub check_node_count : Recipe → Placement → Result TranslateError (Unit {0})
check_node_count recipe placement =
    require (not (ltb (supplied_nodes placement) recipe.topology.min_nodes)) (
      TranslateError.node_count_mismatch recipe.name recipe.topology.min_nodes
        (supplied_nodes placement))

-- A worker's port is forced.
abbrev pub skipped : Placement → List String
skipped Placement.solo = []
skipped (Placement.rank r world addr port) = if ltb 0 r then "port" ∷ [] else []

unfoldable pub require_launchable : String → Option NotLaunchable → Result TranslateError (Unit {0})
require_launchable name none = ok tt
require_launchable name (some why) = err (TranslateError.not_launchable name why)

-- The same for every launch of a recipe, and of its own for each rank.
unfoldable pub container_name : String → Placement → String
container_name recipe Placement.solo = "metrale-" <> recipe
container_name recipe (Placement.rank r world addr port) =
    "metrale-" <> recipe <> "-rank" <> decimal r

module _ (c : LaunchContext) where
  -- The serve flags, and those that place a rank among the others.
  unfoldable pub placed_flags :
      String → Placement → List String → Result TranslateError (List String)
  placed_flags name Placement.solo flags = ok flags
  placed_flags name (Placement.rank r world addr port) flags = do
    require (c.is_ip_addr addr) (TranslateError.bad_rendezvous_address name addr)
    ok (
        flags
        ++ (if ltb 0 r then "--port" ∷ "0" ∷ [] else [])
        ++ ("--rank"
            ∷ decimal r
            ∷ "--world-size"
            ∷ decimal world
            ∷ "--master-addr"
            ∷ addr
            ∷ "--master-port"
            ∷ decimal port
            ∷ []))

  abbrev pub fabric_env : Placement → List (String × String)
  fabric_env Placement.solo = []
  fabric_env (Placement.rank r world addr port) = c.cluster_env

  abbrev pub user_of : Option PosixUser → Option UserSpec
  user_of none = none
  user_of (some u) = some (record { uid = u.uid; gid = u.gid })

  command_of :
      Recipe → HostSnapshot → Placement → List String → List (String × String) → DockerCommand
  unfolding container_name
  command_of recipe host placement flags env = record {
    detach = true;
    entrypoint = c.profile.entrypoint;
    privileged = c.profile.privileged;
    device_flags = c.device_flags;
    ipc = c.profile.ipc;
    shm_size = c.profile.shm_size;
    network = c.profile.network;
    user = user_of host.posix_user;
    security_opts = c.profile.security_opts;
    cap_add = c.profile.cap_add;
    ulimits = c.profile.ulimits;
    devices = c.profile.devices;
    memory = none;
    labels = ("io.metralectl.managed", "1") ∷ ("io.metralectl.recipe", recipe.name) ∷ [];
    auto_remove = true;
    restart = none;
    name = container_name recipe.name placement;
    env = env;
    volumes = (host.hf_cache_dir, container_hf_home) ∷ [];
    image = recipe.container;
    command = "met" ∷ "serve" ∷ recipe.model ∷ flags;
  }

  abbrev pub env_of :
      Recipe → HostSnapshot → Placement → Result TranslateError (List (String × String))
  env_of recipe host placement =
      map_err (TranslateError.egress_override recipe.name)
        (build_env c.alphanumeric host recipe.env (fabric_env placement))

  plan_of :
      Recipe
      → HostSnapshot
      → Placement
      → List UnmappedKey
      → List String
      → List (String × String)
      → LaunchPlan
  unfolding command_of
  plan_of recipe host placement unmapped flags env = record {
    docker = command_of recipe host placement flags env;
    unmapped = unmapped;
    unknown_keys = recipe.unknown_keys;
  }

  unfoldable pub with_flags :
      Recipe
      → HostSnapshot
      → Placement
      → List UnmappedKey
      → List String
      → Result TranslateError LaunchPlan
  unfolding plan_of build_env
  with_flags recipe host placement unmapped flags = do
    env ← env_of recipe host placement
    ok (plan_of recipe host placement unmapped flags env)

  -- What is left once the configuration is known.
  unfoldable pub assembled :
      Recipe → HostSnapshot → Placement → Overrides → Result TranslateError LaunchPlan
  unfolding placed_flags with_flags Flags.render
  assembled recipe host placement cfg = do
    let rendered = Flags.render c.rendering cfg (skipped placement)
    flags ← placed_flags recipe.name placement rendered.0
    with_flags recipe host placement rendered.1 flags

  unfoldable pub translate :
      Recipe → Overrides → Overrides → HostSnapshot → Placement → Result TranslateError LaunchPlan
  unfolding assembled resolve launchable require_launchable check_node_count
      validate_no_alias_conflict
  translate recipe overrides user host placement = do
    require_launchable recipe.name (launchable recipe)
    check_node_count recipe placement
    let cfg = resolve recipe.defaults user overrides
    map_err (TranslateError.alias_conflict recipe.name) (validate_no_alias_conflict cfg)
    assembled recipe host placement cfg
