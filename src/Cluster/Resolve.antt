-- ===== src/Cluster/Resolve.antt =====
-- From a selection of machines to the ranks that can be asked
-- (crates/metralectl-agent/src/clusterdriver/plan.rs).
use metralectl.Prelude.{ℕ, ◌-◌, ◌^◌, List, [], ◌∷◌, Option, none, some, String}
use metralectl.Prelude.{◌<>◌, decimal, str_eq, find, length, ltb, ◌==◌, if◌then◌else◌}
use metralectl.Prelude.{Fallible, success, error, Result, ok, err, ◌>>=◌, ◌>>◌, require, map_err}
use metralectl.Protocol.{NodeId, RecipeId, SettingValue, pos}
use metralectl.Settings.Gate.{Requested}
use metralectl.Cluster.Fleet.{NodeDescriptor, NodeAddress}
use metralectl.Cluster.Rendezvous.{best_reachable}
use metralectl.Cluster.Plan.{RankAssignment, ClusterPlan, PlanError, plan}
use metralectl.Cluster.Ports.{SocketAddr, Machines, Target, Pending}

-- `to_string` of a plan's error.
abbrev pub plan_error_text : PlanError → String
plan_error_text (PlanError.node_count recipe required selected) =
    recipe <> " needs exactly " <> decimal required <> " nodes, " <> decimal selected <> " selected"
plan_error_text (PlanError.not_launchable name reason) = name <> " cannot run a model: " <> reason
plan_error_text (PlanError.not_paired name) =
    name <> " is not paired; pair it before launching on it"
plan_error_text (PlanError.no_usable_link name) =
    name <> " has no usable network link for a cluster"
plan_error_text PlanError.head_not_selected = "the head must be one of the selected nodes"
plan_error_text PlanError.duplicate_node = "a node cannot take two ranks in one launch"

abbrev pub fallible : {A : Type 0} → Fallible A → Result String A
fallible (success a) = ok a
fallible (error why) = err why

abbrev pub or_why : {A : Type 0} → Option A → String → Result String A
or_why none why = err why
or_why (some a) why = ok a

abbrev pub kept : {A : Type 0} → Option A → List A → List A
kept none rest = rest
kept (some a) rest = a ∷ rest

-- `filter_map` of the nodes that are known.
unfoldable pub select : List NodeDescriptor → List NodeId → List NodeDescriptor
select known [] = []
select known (id ∷ ids) = kept (find (λ n. str_eq n.id id) known) (select known ids)

-- `u32::try_from(n).unwrap_or(u32::MAX)`.
abbrev pub to_u32 : ℕ → ℕ
to_u32 n = if ltb n (2 ^ 32) then n else 2 ^ 32 - 1

abbrev pub addresses_of : Option NodeDescriptor → List NodeAddress
addresses_of none = []
addresses_of (some n) = n.addresses

abbrev pub default_serve_port : ℕ
default_serve_port = 8888

abbrev pub value_of : Option (String × SettingValue) → Option SettingValue
value_of none = none
value_of (some (k, v)) = some v

abbrev pub setting : String → Option Target → Option SettingValue
setting key none = none
setting key (some t) =
    value_of (find (λ (e : String × SettingValue). str_eq e.0 key) t.assignment.settings)

-- `u16::try_from` of a port that the operator set.
abbrev pub set_port : Option SettingValue → Option ℕ
set_port (some (SettingValue.int (pos n))) = if ltb n (2 ^ 16) then some n else none
set_port v = none

abbrev pub pinned_port : Fallible (Option ℕ) → ℕ
pinned_port (success (some p)) = p
pinned_port r = default_serve_port

module _ {W : Type 0} (c : Machines W) where
  -- Where to reach a rank, or `none` when it is this machine.
  unfoldable pub address_of : NodeDescriptor → W → Result String (Option SocketAddr)
  unfolding best_reachable
  address_of node w = if node.is_local then ok none else (do
    addr ←
        or_why
          (best_reachable c.parse_ip node.addresses
            (addresses_of (find (λ n. n.is_local) (c.nodes w))))
          (node.name <> " has no usable network link")
    socket ←
        or_why (c.parse_socket (addr.addr <> ":" <> decimal c.peer_port))
          (node.name <> " has an address we cannot dial")
    ok (some socket))

  -- The loop over the ranks of the plan.
  unfoldable pub targets_of :
      List NodeDescriptor → List RankAssignment → W → Result String (List Target)
  unfolding address_of
  targets_of selected [] w = ok []
  targets_of selected (a ∷ rest) w = do
    node ←
        or_why (find (λ n. str_eq n.id a.node) selected)
          "the plan named a machine that left the fleet"
    addr ← address_of node w
    targets ← targets_of selected rest w
    ok (record { assignment = a; addr = addr; name = node.name } ∷ targets)

  -- The port that rank 0 serves on: the operator's, the recipe's, or the default.
  unfoldable pub serve_port : RecipeId → List Target → ℕ
  serve_port recipe targets =
      elim (set_port (setting "port" (find (λ t. t.assignment.rank == 0) targets))) [
        | some p ↦ p
        | none ↦ pinned_port (c.rank.recipe_port recipe)
      ]

  -- Everything that can fail with no side effect.
  unfoldable pub resolve :
      RecipeId → List NodeId → NodeId → Requested → String → W → Result String Pending
  unfolding select plan targets_of serve_port
  resolve recipe nodes head settings epoch w = do
    let selected = select (c.nodes w) nodes
    require (length selected == length nodes) "one of those machines is not in this fleet"
    hash ← fallible (c.rank.content_hash recipe)
    planned ←
        map_err plan_error_text
          (plan c.parse_ip recipe hash (to_u32 (length nodes)) selected head settings epoch)
    targets ← targets_of selected planned.ranks w
    ok (record { epoch = epoch; port = serve_port recipe targets; targets = targets })

  abbrev pub warning_in : Result PlanError ClusterPlan → Option String
  warning_in (err e) = none
  warning_in (ok p) = p.link_warning

  abbrev pub warning_with :
      Fallible String → RecipeId → List NodeId → NodeId → Requested → W → Option String
  warning_with (error why) recipe nodes head settings w = none
  warning_with (success hash) recipe nodes head settings w = warning_in (
      plan c.parse_ip recipe hash (to_u32 (length nodes)) (select (c.nodes w) nodes) head settings
        "preview")

  unfoldable pub link_warning : RecipeId → List NodeId → NodeId → Requested → W → Option String
  unfolding plan select
  link_warning recipe nodes head settings w =
      warning_with (c.rank.content_hash recipe) recipe nodes head settings w
