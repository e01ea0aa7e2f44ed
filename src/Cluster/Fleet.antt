-- ===== src/Cluster/Fleet.antt =====
-- The machines of a fleet and the links between them (crates/metralectl-protocol/src/fleet.rs and
-- fleet/node.rs), by the fields that planning a cluster reads.
use metralectl.Prelude.{ℕ, ◌||◌, ◌&&◌, Bool, true, false, List, [], ◌∷◌, Option, none, some}
use metralectl.Prelude.{String, filter, ltb, ◌==◌, if◌then◌else◌}
use metralectl.Protocol.{NodeId}

pub data LinkClass : Type 0 where
  roce infini_band ethernet wireless virtual loopback unverified : LinkClass

-- `LinkClass::rank`: higher is better.
unfoldable pub link_rank : LinkClass → ℕ
link_rank infini_band = 5
link_rank roce = 4
link_rank ethernet = 3
link_rank wireless = 2
link_rank unverified = 1
link_rank virtual = 0
link_rank loopback = 0

unfoldable pub usable_for_cluster : LinkClass → Bool
usable_for_cluster infini_band = true
usable_for_cluster roce = true
usable_for_cluster ethernet = true
usable_for_cluster unverified = true
usable_for_cluster c = false

unfoldable pub warns : LinkClass → Bool
warns infini_band = false
warns roce = false
warns unverified = false
warns c = true

unfoldable pub label : LinkClass → String
label roce = "RoCE"
label infini_band = "InfiniBand"
label ethernet = "Ethernet"
label wireless = "Wi-Fi"
label virtual = "virtual"
label loopback = "loopback"
label unverified = "link unverified"

-- A negotiated speed is in Mb/s, when the kernel reports one.
pub record NodeAddress : Type 0 where
  pub iface : String
  pub addr : String
  pub prefix_len : ℕ
  pub class : LinkClass
  pub speed_mbps : Option ℕ
  pub rdma : Bool

pub record Launchability : Type 0 where
  pub can_launch : Bool
  pub reason : String

pub data PairingState : Type 0 where
  discovered pairing paired unreachable vouched : PairingState

-- What a node reports, without the fields that only a page shows.
pub record NodeDescriptor : Type 0 where
  pub id : NodeId
  pub name : String
  pub is_local : Bool
  pub pairing : PairingState
  pub addresses : List NodeAddress
  pub launchability : Launchability

abbrev pub speed_or_zero : Option ℕ → ℕ
speed_or_zero none = 0
speed_or_zero (some s) = s

-- The order of the key `(class.rank(), speed_mbps.unwrap_or(0))`.
unfoldable pub is_better : NodeAddress → NodeAddress → Bool
is_better a b =
    let ra = link_rank a.class in
    let rb = link_rank b.class in
    ltb rb ra || (ra == rb && ltb (speed_or_zero b.speed_mbps) (speed_or_zero a.speed_mbps))

-- `max_by_key` of an iterator: of equal greatest elements, the last.
best_from : NodeAddress → List NodeAddress → NodeAddress
best_from b [] = b
best_from b (a ∷ rest) = best_from (if is_better b a then b else a) rest

unfoldable pub best : List NodeAddress → Option NodeAddress
unfolding best_from
best [] = none
best (a ∷ rest) = some (best_from a rest)

abbrev pub usable : List NodeAddress → List NodeAddress
usable addresses = filter (λ a. usable_for_cluster a.class) addresses

-- The address that a collective should use.
unfoldable pub preferred_address : NodeDescriptor → Option NodeAddress
unfolding best usable_for_cluster
preferred_address n = best (usable n.addresses)
