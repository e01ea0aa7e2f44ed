-- ===== src/Cluster/Host.antt =====
-- What a machine's rank service is given, and the command that it renders for an assignment
-- (crates/metralectl/src/rankservice/mod.rs and reservation.rs). The registry, the hash of a recipe,
-- the text of a translation's error, the collective's variables for an interface, processes, the
-- clock and the network are parameters.
use metralectl.Prelude.{ℕ, ◌*◌, ◌^◌, Bool, false, not, ◌&&◌, List, []}
use metralectl.Prelude.{Option, none, some, String, ◌<>◌, decimal, str_eq, find, filter, map}
use metralectl.Prelude.{
  ltb, if◌then◌else◌, Fallible, success, error, Result, ok, err, ◌>>=◌, ◌>>◌, require, map_err,
}
use metralectl.Protocol.{SettingError, ℤ}
use metralectl.Settings.{Floats}
use metralectl.Settings.Gate.{Overrides, validate}
use metralectl.LocalControl.Recipes.{Recipe}
use metralectl.Translate.Environment.{HostSnapshot}
use metralectl.Translate.{Placement, LaunchPlan, LaunchContext, TranslateError, translate}
use metralectl.Translate.Maps.{extend}
use metralectl.Cluster.Fleet.{NodeAddress}
use metralectl.Cluster.Rendezvous.{shares_network}
use metralectl.Cluster.Plan.{RankAssignment}
use metralectl.Cluster.Loops.{joined}

pub record Output : Type 0 where
  pub status : ℤ
  pub stdout : String
  pub stderr : String

-- A time is in nanoseconds.
pub record Reservation : Type 0 where
  pub epoch : String
  pub recipe : String
  pub plan : LaunchPlan
  pub expires : ℕ

abbrev pub reservation_ttl : ℕ
reservation_ttl = 600 * 10 ^ 9

pub record Host (W : Type 0) : Type 0 where
  pub resolve : String → Fallible Recipe
  pub content_hash : Recipe → String
  pub snapshot : HostSnapshot
  pub policy : LaunchContext
  pub translate_text : TranslateError → String
  pub bind_interface : String → Option String → List (String × String)
  pub floats : Floats
  pub run : List String → W → Fallible Output × W
  pub now : W → ℕ × W
  pub answers : String → ℕ → W → Bool × W
  pub can_launch : Option String
  pub local_addresses : List NodeAddress
  pub rdma_devices : List (String × String)
  pub parse_ip : String → Option ℕ
  pub trim : String → String

-- Why a prepare was refused.
pub data RefusalReason : Type 0 where
  unknown_recipe : String → RefusalReason
  recipe_mismatch : (recipe head mine : String) → RefusalReason
  already_running : String → RefusalReason
  reserved : (recipe : String) (expires_in_s : ℕ) → RefusalReason
  rendezvous_unreachable : String → RefusalReason
  docker_unavailable : RefusalReason
  not_launchable : String → RefusalReason

abbrev pub refusal_text : RefusalReason → String
refusal_text (RefusalReason.unknown_recipe r) = "this node does not ship recipe " <> r
refusal_text (RefusalReason.recipe_mismatch recipe head mine) =
    "recipe " <> recipe <> " differs between nodes: head has " <> head <> ", this node has " <> mine
    <> ". Update both to the same metralectl before launching."
refusal_text (RefusalReason.already_running r) = r <> " is already running on this node"
refusal_text (RefusalReason.reserved recipe left) =
    "this node is already reserved for a launch of "
    <> recipe
    <> "; abort that launch, or wait "
    <> decimal left
    <> "s for the reservation to lapse, before starting another"
refusal_text (RefusalReason.rendezvous_unreachable why) = why
refusal_text RefusalReason.docker_unavailable =
    "the container runtime is not answering on this node"
refusal_text (RefusalReason.not_launchable why) = "this node cannot run models: " <> why

-- An error with its context, as `{:#}` prints the two.
abbrev pub context : {A : Type 0} → String → Fallible A → Result String A
context what (success a) = ok a
context what (error why) = err (what <> ": " <> why)

-- `to_string` of a setting's error.
abbrev pub setting_text : SettingError → String
setting_text (SettingError.unknown_key key) =
    "`" <> key <> "` is not a setting this agent understands"
setting_text (SettingError.denied key reason) = "`" <> key <> "` cannot be set remotely: " <> reason
setting_text (SettingError.out_of_range key least most) =
    "`" <> key <> "` must be between " <> least <> " and " <> most
setting_text (SettingError.not_a_variant key allowed) =
    "`" <> key <> "` must be one of: " <> joined ", " allowed
setting_text (SettingError.wrong_type key expected) = "`" <> key <> "` expected " <> expected

abbrev pub accepted_settings : Result (List SettingError) Overrides → Result String Overrides
accepted_settings (ok overrides) = ok overrides
accepted_settings (err errors) =
    err ("this node will not accept those settings: " <> joined "; " (map setting_text errors))

abbrev pub entry_of : Option (String × String) → Option String
entry_of none = none
entry_of (some (k, v)) = some v

module _ {W : Type 0} (h : Host W) where
  abbrev pub carries : String → NodeAddress → Bool
  carries master a = shares_network h.parse_ip a.addr a.prefix_len master

  -- The variables that name the interface and the device of an address, if one is attached to it.
  unfoldable pub collective_binding : String → List (String × String)
  collective_binding master =
      elim (find (carries master)
        (filter (λ a. ltb 0 a.prefix_len && not (str_eq a.iface "")) h.local_addresses)) [
          | none ↦ []
          | some a ↦
              h.bind_interface a.iface
                (entry_of (find (λ (e : String × String). str_eq e.0 a.iface) h.rdma_devices))
        ]

  -- The plan with the collective pinned to the link, and the container kept when it ends.
  pinned : RankAssignment → LaunchPlan → LaunchPlan
  unfolding extend collective_binding
  pinned a plan = record plan {
    docker = record plan.docker {
      env = extend (collective_binding a.master_addr) plan.docker.env;
      auto_remove = false;
    };
  }

  abbrev pub head_hash : String → String
  head_hash hash = if str_eq hash "" then "(none sent)" else hash

  abbrev pub rank_context : RankAssignment → TranslateError → String
  rank_context a why =
      "rendering rank " <> decimal a.rank <> " of " <> a.recipe <> ": " <> h.translate_text why

  -- Resolve, agree on the revision, and translate.
  unfoldable pub plan_for : RankAssignment → Result String LaunchPlan
  unfolding pinned validate translate
  plan_for a = do
    recipe ← context ("this node does not ship recipe " <> a.recipe) (h.resolve a.recipe)
    let mine = h.content_hash recipe
    require (str_eq a.recipe_hash mine)
        (refusal_text (RefusalReason.recipe_mismatch a.recipe (head_hash a.recipe_hash) mine))
    overrides ← accepted_settings (validate h.floats a.settings)
    plan ← map_err (rank_context a) (
        translate h.policy recipe overrides [] h.snapshot
          (Placement.rank a.rank a.world_size a.master_addr a.master_port))
    ok (pinned a plan)
