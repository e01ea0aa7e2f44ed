-- ===== src/Docker.antt =====
-- The `docker run` of a launch as structure, and its renderings
-- (crates/metralectl-core/src/docker/command.rs). The translation of a recipe to it is not modelled.
use metralectl.Prelude.{ℕ, Bool, true, false, List, [], ◌∷◌, ◌++◌, Option, none, some}
use metralectl.Prelude.{String, ◌<>◌, decimal, map, str_eq, codes, if◌then◌else◌}
use metralectl.Shell.{shell_quote, shell_join, joined}

pub record UserSpec : Type 0 where
  pub uid : ℕ
  pub gid : ℕ

-- The maps are lists in key order.
pub record DockerCommand : Type 0 where
  pub detach : Bool
  pub entrypoint : Option String
  pub privileged : Bool
  pub device_flags : List String
  pub ipc : String
  pub shm_size : String
  pub network : String
  pub user : Option UserSpec
  pub security_opts : List String
  pub cap_add : List String
  pub ulimits : List String
  pub devices : List String
  pub memory : Option String
  pub labels : List (String × String)
  pub auto_remove : Bool
  pub restart : Option String
  pub name : String
  pub env : List (String × String)
  pub volumes : List (String × String)
  pub image : String
  pub command : List String

-- One argument, and whether the shell is meant to interpret it.
pub record Arg : Type 0 where
  pub text : String
  pub symbolic : Bool

abbrev pub arg : String → Arg
arg s = record { text = s; symbolic = false }

abbrev pub symbolic : String → Arg
symbolic s = record { text = s; symbolic = true }

-- How the user and the home directory are rendered: as ids, or kept for a paste elsewhere.
pub data UserRender : Type 0 where
  resolved portable : UserRender

abbrev pub when : Bool → List Arg → List Arg
when true args = args
when false args = []

abbrev pub given : {A : Type 0} → Option A → (A → List Arg) → List Arg
given none f = []
given (some a) f = f a

abbrev pub each : {A : Type 0} → (A → List Arg) → List A → List Arg
each f [] = []
each f (a ∷ rest) = f a ++ each f rest

abbrev pub two : String → String → List Arg
two flag value = arg flag ∷ arg value ∷ []

abbrev pub user_arg : UserRender → UserSpec → Arg
user_arg resolved u = arg (decimal u.uid <> ":" <> decimal u.gid)
user_arg portable u = symbolic "$(id -u):$(id -g)"

abbrev pub user_args : UserRender → UserSpec → List Arg
user_args r u =
    arg "--user"
    ∷ user_arg r u
    ∷ arg "-v"
    ∷ arg "/etc/passwd:/etc/passwd:ro"
    ∷ arg "-v"
    ∷ arg "/etc/group:/etc/group:ro"
    ∷ []

-- `strip_prefix`.
strip_prefix : String → String → Option String
strip_prefix String.[] t = some t
strip_prefix (String.◌∷◌ c s) String.[] = none
strip_prefix (String.◌∷◌ c s) (String.◌∷◌ d t) =
    let rest = strip_prefix s t in if str_eq (String.◌∷◌ c "") (String.◌∷◌ d "") then rest else none

home_rest : UserRender → Option String → String → Option String
unfolding strip_prefix
home_rest portable (some home) host = if str_eq home "" then none else strip_prefix home host
home_rest r home host = none

-- A volume, with the home directory of its host's side replaced where that is asked for.
volume_arg : UserRender → Option String → String → String × String → List Arg
unfolding home_rest
volume_arg r home placeholder (host, ctr) =
    arg "-v"
    ∷ elim (home_rest r home host) [
      | none ↦ arg (host <> ":" <> ctr)
      | some rest ↦ symbolic (placeholder <> rest <> ":" <> ctr)
    ]
    ∷ []

-- `push` and `extend`, one group after another.
abbrev pub flat : List (List Arg) → List Arg
flat [] = []
flat (group ∷ rest) = group ++ flat rest

unfoldable pub render : DockerCommand → UserRender → Option String → String → List Arg
unfolding volume_arg
render d r home placeholder = flat (
    two "docker" "run"
    ∷ when d.detach (arg "-d" ∷ [])
    ∷ given d.entrypoint (two "--entrypoint")
    ∷ when d.privileged (arg "--privileged" ∷ [])
    ∷ map arg d.device_flags
    ∷ (arg ("--ipc=" <> d.ipc) ∷ [])
    ∷ (arg ("--shm-size=" <> d.shm_size) ∷ [])
    ∷ (arg ("--network=" <> d.network) ∷ [])
    ∷ given d.user (user_args r)
    ∷ each (two "--security-opt") d.security_opts
    ∷ map (λ c. arg ("--cap-add=" <> c)) d.cap_add
    ∷ each (two "--ulimit") d.ulimits
    ∷ each (two "--device") d.devices
    ∷ given d.memory (λ m. arg ("--memory=" <> m) ∷ [])
    ∷ each (λ (l : String × String). two "--label" (l.0 <> "=" <> l.1)) d.labels
    ∷ when d.auto_remove (arg "--rm" ∷ [])
    ∷ given d.restart (two "--restart")
    ∷ two "--name" d.name
    ∷ each (λ (e : String × String). two "-e" (e.0 <> "=" <> e.1)) d.env
    ∷ each (volume_arg r home placeholder) d.volumes
    ∷ (arg d.image ∷ [])
    ∷ map arg d.command
    ∷ [])

-- The argv that is executed.
unfoldable pub to_argv : DockerCommand → List String
unfolding render
to_argv d = map (λ (a : Arg). a.text) (render d resolved none "")

-- The line that is shown, by its code points.
unfoldable pub display : DockerCommand → List ℕ
unfolding to_argv shell_join
display d = shell_join (map codes (to_argv d))

-- A line for another machine: what the renderer made symbolic is not quoted.
unfoldable pub display_portable : DockerCommand → Option String → String → List ℕ
unfolding render shell_quote joined
display_portable d home placeholder = joined (
    map (λ (a : Arg). if a.symbolic then codes a.text else shell_quote (codes a.text))
      (render d portable home placeholder))
