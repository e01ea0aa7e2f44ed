-- ===== src/Cluster/Samples.antt =====
-- A fleet of two machines, the second of which may be busy: it then refuses what it is asked, and
-- an abort to it is lost.
pub mod Laws
use metralectl.Prelude.{
  ℕ, ◌≡◌, ◌⊎◌, inl, inr, refl, sym, ap, subst, ◌∙◌, Bool, true, false, not, ◌&&◌, List, [], ◌∷◌,
}
use metralectl.Prelude.{
  Option, none, some, String, Memᴰ, filter, mem-filter, any, Bool-cases, str_eq, eq_iff, arith,
  false≢true, Fallible, success, error, if◌then◌else◌,
}
use metralectl.Protocol.{NodeId}
use metralectl.Cluster.Fleet.{NodeDescriptor, NodeAddress, roce, paired}
use metralectl.Cluster.Plan.{RankAssignment}
use metralectl.Cluster.Ports.{
  PrepareReply, prepared, refused, RankService, RankTransport, Machines, Target, Pending, Driver,
}
use metralectl.Cluster.Ports.{
  ask_prepare, ask_commit, ask_alive, ask_stop, ask_abort, prepare_at, commit_at, alive_at, stop_at,
  abort_at, new_epoch,
}
use metralectl.Cluster.Faithful.{IsPlaced, IsFaithful}
use metralectl.Cluster.Whole.{IsWhole}
use metralectl.Cluster.Placed.{IsAlone}
use metralectl.Cluster.Honoured.{IsHonoured}
use metralectl.Cluster.Reserved.{IsReserved, prepare-IsReserved}
use metralectl.Cluster.Driver.{prepare, commit}

-- What runs, and what is reserved, each by its machine, and whether the second is busy.
pub record Site : Type 0 where
  pub up : List (NodeId × String)
  pub held : List (NodeId × String)
  pub busy : Bool

abbrev pub is_pair : NodeId → String → NodeId × String → Bool
is_pair n k (m, j) = str_eq n m && str_eq k j

abbrev pub without : NodeId → String → List (NodeId × String) → List (NodeId × String)
without n k xs = filter (λ x. not (is_pair n k x)) xs

abbrev pub refuses : NodeId → Site → Bool
refuses n s = s.busy && str_eq n "n1"

abbrev pub reserve : NodeId → String → Site → PrepareReply × Site
reserve n e s =
    if refuses n s then (refused "busy", s) else (prepared, record s { held = (n, e) ∷ s.held })

abbrev pub start : NodeId → Site → Fallible String × Site
start n s =
    if refuses n s then (error "busy", s) else (success "c", record s { up = (n, "c") ∷ s.up })

abbrev pub look : NodeId → String → Site → Fallible Bool × Site
look n k s = (success (any (is_pair n k) s.up), s)

abbrev pub halt : NodeId → String → Site → Fallible (Unit {0}) × Site
halt n k s =
    if str_eq k "c" then (success tt, record s { up = without n k s.up }) else (error "no rank", s)

abbrev pub release : NodeId → String → Site → Site
release n e s = record s { held = without n e s.held }

abbrev here_rank : RankService Site
here_rank = record {
  render = λ a s. (success ([], []), s);
  content_hash = λ recipe. success "h";
  recipe_port = λ recipe. success none;
  prepare = λ e a s. reserve "n0" e s;
  commit = λ e s. start "n0" s;
  alive = λ k s. look "n0" k s;
  stop = λ k s. halt "n0" k s;
  abort = λ e s. release "n0" e s;
}

abbrev there : RankTransport Site
there = record {
  preview = λ n addr a s. (success ([], []), s);
  prepare = λ n addr e a s. reserve n e s;
  commit = λ n addr e s. start n s;
  abort = λ n addr e s. if s.busy then s else release n e s;
  alive = λ n addr k s. look n k s;
  stop = λ n addr k s. halt n k s;
}

abbrev address : String → NodeAddress
address addr = record {
  iface = "enp1s0f0np0";
  addr = addr;
  prefix_len = 30;
  class = roce;
  speed_mbps = some 200000;
  rdma = true;
}

abbrev pub node : NodeId → String → Bool → NodeDescriptor
node id addr is_local = record {
  id = id;
  name = id;
  is_local = is_local;
  pairing = paired;
  addresses = address addr ∷ [];
  launchability = record { can_launch = true; reason = "" };
}

abbrev pub pair : Machines Site
pair = record {
  nodes = λ s. node "n0" "10.10.10.9" true ∷ node "n1" "10.10.10.10" false ∷ [];
  rank = here_rank;
  transport = there;
  peer_port = 7700;
  settle = 5000000000;
  entropy = λ s. (171 ∷ [], s);
  sleep = λ time s. s;
  parse_ip = λ addr. some 168430090;
  parse_socket = λ addr. some addr;
}

abbrev pub Runs : Site → NodeId → String → Type 0
Runs s n k = Memᴰ (n, k) s.up

abbrev pub Holds : Site → NodeId → String → Type 0
Holds s n e = Memᴰ (n, e) s.held

abbrev pub Loses : Site → Target → String → Type 0
Loses s t e = s.busy ≡ true
