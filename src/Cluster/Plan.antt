-- ===== src/Cluster/Plan.antt =====
-- The plan of a launch on several machines (`plan` and `rendezvous_address` of
-- crates/metralectl-agent/src/cluster.rs).
use metralectl.Prelude.{ℕ, suc, ◌-◌, ◌%◌, ◌^◌, Bool, true, false, not, ◌||◌, ◌&&◌}
use metralectl.Prelude.{List, [], ◌∷◌, Option, none, some, String, ◌<>◌, filter, find, any, all}
use metralectl.Prelude.{ltb, ◌==◌, if◌then◌else◌, str_eq, length, has}
use metralectl.Prelude.{Result, ok, err, ◌>>=◌, ◌>>◌, require}
use metralectl.Protocol.{NodeId}
use metralectl.Settings.Gate.{Requested}
use metralectl.Cluster.Fleet.{LinkClass, ethernet, link_rank, warns, label, usable_for_cluster}
use metralectl.Cluster.Fleet.{NodeAddress, NodeDescriptor, PairingState, paired, best}
use metralectl.Cluster.Fleet.{preferred_address}
use metralectl.Cluster.Rendezvous.{shares_network, or_else, str_le}

abbrev pub default_master_port : ℕ
default_master_port = 29500

-- What one node is told to do.
pub record RankAssignment : Type 0 where
  pub node : NodeId
  pub rank : ℕ
  pub world_size : ℕ
  pub master_addr : String
  pub master_port : ℕ
  pub recipe : String
  pub recipe_hash : String
  pub settings : Requested

pub record ClusterPlan : Type 0 where
  pub epoch : String
  pub recipe : String
  pub ranks : List RankAssignment
  pub link : LinkClass
  pub link_warning : Option String

pub data PlanError : Type 0 where
  node_count : (recipe : String) (required selected : ℕ) → PlanError
  not_launchable : (name reason : String) → PlanError
  not_paired : (name : String) → PlanError
  no_usable_link : (name : String) → PlanError
  head_not_selected : PlanError
  duplicate_node : PlanError

abbrev pub is_paired : PairingState → Bool
is_paired paired = true
is_paired p = false

-- One round of the loop over the selected nodes; `seen` are the ids before it.
unfoldable pub check_node : List NodeId → NodeDescriptor → Result PlanError (Unit {0})
check_node seen n = do
  require (not (has str_eq seen n.id)) PlanError.duplicate_node
  require (is_paired n.pairing || n.is_local) (PlanError.not_paired n.name)
  require n.launchability.can_launch (PlanError.not_launchable n.name n.launchability.reason)

unfoldable pub check_nodes : List NodeId → List NodeDescriptor → Result PlanError (Unit {0})
unfolding check_node
check_nodes seen [] = ok tt
check_nodes seen (n ∷ ns) = do check_node seen n; check_nodes (n.id ∷ seen) ns

abbrev pub or_error : {A : Type 0} → Option A → PlanError → Result PlanError A
or_error none e = err e
or_error (some a) e = ok a

-- `sort_by_key` by the id, which is stable.
insert_node : NodeDescriptor → List NodeDescriptor → List NodeDescriptor
insert_node n [] = n ∷ []
insert_node n (m ∷ ms) =
    let rest = insert_node n ms in if str_le n.id m.id then n ∷ m ∷ ms else m ∷ rest

unfoldable pub sort_nodes : List NodeDescriptor → List NodeDescriptor
unfolding insert_node
sort_nodes [] = []
sort_nodes (n ∷ ns) = insert_node n (sort_nodes ns)

abbrev pub others_of : NodeId → List NodeDescriptor → List NodeDescriptor
others_of head nodes = filter (λ n. not (str_eq n.id head)) nodes

-- The class of the best link of each node.
abbrev pub class_of : Option NodeAddress → List LinkClass → List LinkClass
class_of none rest = rest
class_of (some a) rest = a.class ∷ rest

link_classes : List NodeDescriptor → List LinkClass
link_classes [] = []
link_classes (n ∷ ns) = class_of (preferred_address n) (link_classes ns)

-- `min_by_key` by the rank: of equal least elements, the first.
worst_from : LinkClass → List LinkClass → LinkClass
worst_from worst [] = worst
worst_from worst (c ∷ cs) = worst_from (if ltb (link_rank c) (link_rank worst) then c else worst) cs

abbrev pub worst_of : List LinkClass → LinkClass
unfolding worst_from
worst_of [] = ethernet
worst_of (c ∷ cs) = worst_from c cs

unfoldable pub warning_of : LinkClass → Option String
warning_of worst =
    if warns worst
    then some (
        "this cluster would run over "
        <> label worst
        <> ", not RDMA. EP=2 decode is all-reduce bound, so expect several times lower throughput "
        <> "than the published numbers.")
    else none

-- `u16::try_from(n).unwrap_or(u16::MAX)`.
abbrev pub to_u16 : ℕ → ℕ
to_u16 n = if ltb n (2 ^ 16) then n else 2 ^ 16 - 1

module _ (parse : String → Option ℕ) where
  abbrev pub is_shared : NodeAddress → NodeDescriptor → Bool
  is_shared candidate w =
      any
        (λ a.
          usable_for_cluster a.class
          && shares_network parse candidate.addr candidate.prefix_len a.addr)
        w.addresses

  -- An address of the head that every worker shares a subnet with, or the head's favourite.
  unfoldable pub rendezvous_address : NodeDescriptor → List NodeDescriptor → Option NodeAddress
  unfolding shares_network best usable_for_cluster preferred_address
  rendezvous_address head selected =
      or_else
        (best (
          filter (λ a. all (is_shared a) (others_of head.id selected))
            (filter (λ a. usable_for_cluster a.class && ltb 0 a.prefix_len) head.addresses)))
        (preferred_address head)

  assignment : String → String → Requested → ℕ → String → ℕ → NodeId → RankAssignment
  assignment recipe hash settings size master i id = record {
    node = id;
    rank = to_u16 i;
    world_size = to_u16 size;
    master_addr = master;
    master_port = default_master_port;
    recipe = recipe;
    recipe_hash = hash;
    settings = settings;
  }

  -- `enumerate` and `map`; `i` is the place of the first.
  unfoldable pub assignments :
      String → String → Requested → ℕ → String → ℕ → List NodeDescriptor → List RankAssignment
  unfolding assignment
  assignments recipe hash settings size master i [] = []
  assignments recipe hash settings size master i (n ∷ ns) =
      assignment recipe hash settings size master i n.id
      ∷ assignments recipe hash settings size master (suc i) ns

  -- Build a plan.
  unfoldable pub plan :
      String
      → String
      → ℕ
      → List NodeDescriptor
      → NodeId
      → Requested
      → String
      → Result PlanError ClusterPlan
  unfolding assignments link_classes check_nodes rendezvous_address sort_nodes warning_of
  plan recipe hash required selected head settings epoch = do
    require (length selected % 2 ^ 32 == required)
        (PlanError.node_count recipe required (length selected))
    check_nodes [] selected
    head_node ← or_error (find (λ n. str_eq n.id head) selected) PlanError.head_not_selected
    master ←
        or_error (rendezvous_address head_node selected) (PlanError.no_usable_link head_node.name)
    let worst = worst_of (link_classes selected)
    let ordered = head_node ∷ sort_nodes (others_of head selected)
    ok (record {
      epoch = epoch;
      recipe = recipe;
      ranks = assignments recipe hash settings (length ordered) master.addr 0 ordered;
      link = worst;
      link_warning = warning_of worst;
    })
