-- ===== src/Cluster/Ports.antt =====
-- What the driver of a cluster is given (crates/metralectl-agent/src/rank.rs, transport.rs, the
-- fields of `ClusterDriver` in clusterdriver.rs) and its records (clusterdriver/types.rs;
-- crates/metralectl-protocol/src/msg/fleet.rs). Every call of a rank may change the world. A
-- machine's own rank and another's are asked alike; a panic of the local rank, which the code
-- raises again, is not modelled.
use metralectl.Prelude.{
  ℕ, ◌/◌, ◌%◌, Bool, List, [], ◌∷◌, Option, none, some, String, ◌<>◌, Fallible,
}
use metralectl.Prelude.{Bytes, digit_text}
use metralectl.Protocol.{NodeId}
use metralectl.Cluster.Fleet.{NodeDescriptor}
use metralectl.Cluster.Plan.{RankAssignment}

-- What a rank says when asked to prepare.
pub data PrepareReply : Type 0 where
  prepared : PrepareReply
  refused : (reason : String) → PrepareReply

-- This machine, as a rank. A command line is given by its code points. The hash and the port of a recipe are lookups.
pub record RankService (W : Type 0) : Type 0 where
  pub render : RankAssignment → W → Fallible (List ℕ × List String) × W
  pub content_hash : String → Fallible String
  pub recipe_port : String → Fallible (Option ℕ)
  pub prepare : String → RankAssignment → W → PrepareReply × W
  pub commit : String → W → Fallible String × W
  pub alive : String → W → Fallible Bool × W
  pub stop : String → W → Fallible (Unit {0}) × W
  pub abort : String → W → W

-- A socket address, by its text.
abbrev pub SocketAddr : Type 0
SocketAddr = String

-- Another machine, as a rank, at an address.
pub record RankTransport (W : Type 0) : Type 0 where
  pub preview : NodeId → SocketAddr → RankAssignment → W → Fallible (List ℕ × List String) × W
  pub prepare : NodeId → SocketAddr → String → RankAssignment → W → PrepareReply × W
  pub commit : NodeId → SocketAddr → String → W → Fallible String × W
  pub abort : NodeId → SocketAddr → String → W → W
  pub alive : NodeId → SocketAddr → String → W → Fallible Bool × W
  pub stop : NodeId → SocketAddr → String → W → Fallible (Unit {0}) × W

-- A driver's fields, with the system's entropy (16 bytes), its sleep and the parsers of addresses.
-- The settling window is in nanoseconds.
pub record Machines (W : Type 0) : Type 0 where
  pub nodes : W → List NodeDescriptor
  pub rank : RankService W
  pub transport : RankTransport W
  pub peer_port : ℕ
  pub settle : ℕ
  pub entropy : W → Bytes × W
  pub sleep : ℕ → W → W
  pub parse_ip : String → Option ℕ
  pub parse_socket : String → Option SocketAddr

abbrev hex_names : List String
hex_names =
    "0" ∷ "1" ∷ "2" ∷ "3" ∷ "4" ∷ "5" ∷ "6" ∷ "7" ∷ "8" ∷ "9" ∷ "a" ∷ "b" ∷ "c" ∷ "d" ∷ "e" ∷ "f"
    ∷ []

hex_text : Bytes → String
hex_text [] = ""
hex_text (b ∷ bs) = digit_text (b / 16) hex_names <> digit_text (b % 16) hex_names <> hex_text bs

-- A rank resolved to somewhere reachable; no address is this machine.
pub record Target : Type 0 where
  pub assignment : RankAssignment
  pub addr : Option SocketAddr
  pub name : String

pub record Pending : Type 0 where
  pub epoch : String
  pub port : ℕ
  pub targets : List Target

pub record RankPreview : Type 0 where
  pub node : NodeId
  pub name : String
  pub rank : ℕ
  pub master_addr : String
  pub command : List ℕ
  pub unmapped : List String

pub record RankPrepare : Type 0 where
  pub node : NodeId
  pub name : String
  pub rank : ℕ
  pub prepared : Bool
  pub reason : String

pub record RankStarted : Type 0 where
  pub node : NodeId
  pub name : String
  pub rank : ℕ
  pub container : String
  pub endpoint : Option String

pub record Running : Type 0 where
  pub targets : List Target
  pub started : List RankStarted

-- What supervision found.
pub record Torn : Type 0 where
  pub nodes : List NodeId
  pub why : String

-- The driver's own state beside the world that its calls change.
pub record Driver (W : Type 0) : Type 0 where
  pub world : W
  pub pending : Option Pending
  pub running : Option Running

module _ {W : Type 0} (c : Machines W) where
  unfoldable pub new_epoch : W → String × W
  unfolding hex_text
  new_epoch w = let (bytes, w') = c.entropy w in (hex_text bytes, w')

  unfoldable pub preview_at : Target → Option SocketAddr → W → Fallible (List ℕ × List String) × W
  preview_at t none w = c.rank.render t.assignment w
  preview_at t (some addr) w = c.transport.preview t.assignment.node addr t.assignment w

  unfoldable pub ask_preview : Target → W → Fallible (List ℕ × List String) × W
  unfolding preview_at
  ask_preview t w = preview_at t t.addr w

  unfoldable pub prepare_at : Target → String → Option SocketAddr → W → PrepareReply × W
  prepare_at t epoch none w = c.rank.prepare epoch t.assignment w
  prepare_at t epoch (some addr) w = c.transport.prepare t.assignment.node addr epoch t.assignment w

  unfoldable pub ask_prepare : Target → String → W → PrepareReply × W
  unfolding prepare_at
  ask_prepare t epoch w = prepare_at t epoch t.addr w

  unfoldable pub commit_at : Target → String → Option SocketAddr → W → Fallible String × W
  commit_at t epoch none w = c.rank.commit epoch w
  commit_at t epoch (some addr) w = c.transport.commit t.assignment.node addr epoch w

  unfoldable pub ask_commit : Target → String → W → Fallible String × W
  unfolding commit_at
  ask_commit t epoch w = commit_at t epoch t.addr w

  unfoldable pub alive_at : Target → String → Option SocketAddr → W → Fallible Bool × W
  alive_at t container none w = c.rank.alive container w
  alive_at t container (some addr) w = c.transport.alive t.assignment.node addr container w

  unfoldable pub ask_alive : Target → String → W → Fallible Bool × W
  unfolding alive_at
  ask_alive t container w = alive_at t container t.addr w

  unfoldable pub stop_at : Target → String → Option SocketAddr → W → Fallible (Unit {0}) × W
  stop_at t container none w = c.rank.stop container w
  stop_at t container (some addr) w = c.transport.stop t.assignment.node addr container w

  unfoldable pub ask_stop : Target → String → W → Fallible (Unit {0}) × W
  unfolding stop_at
  ask_stop t container w = stop_at t container t.addr w

  unfoldable pub abort_at : Target → String → Option SocketAddr → W → W
  abort_at t epoch none w = c.rank.abort epoch w
  abort_at t epoch (some addr) w = c.transport.abort t.assignment.node addr epoch w

  unfoldable pub ask_abort : Target → String → W → W
  unfolding abort_at
  ask_abort t epoch w = abort_at t epoch t.addr w
