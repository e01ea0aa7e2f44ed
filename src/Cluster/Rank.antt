-- ===== src/Cluster/Rank.antt =====
-- This machine as one rank of somebody's cluster: the reservation between a prepare and its commit
-- (crates/metralectl/src/rankservice/mod.rs).
mod Requests
mod Issued
mod Tests
use metralectl.Prelude.{
  ℕ, ◌^◌, ltb, ◌+◌, ◌-◌, Bool, true, false, not, ◌||◌, ◌&&◌, List, [], ◌∷◌, Option, none,
}
use metralectl.Prelude.{some, String, ◌<>◌, str_eq, find, map, codes, leb, all, if◌then◌else◌, ◌==◌}
use metralectl.Prelude.{Fallible, success, error, Result, ok, err}
use metralectl.Protocol.{SettingError, pos}
use metralectl.Protocol.Name.{is_id_char}
use metralectl.Hardware.{contains}
use metralectl.Settings.{int_text}
use metralectl.Settings.Gate.{is_zero_int, ScalarValue, Overrides}
use metralectl.LocalControl.Recipes.{Recipe}
use metralectl.Docker.{DockerCommand, to_argv, display}
use metralectl.Cluster.Rendezvous.{on_local_subnet, explain}
use metralectl.Cluster.Plan.{RankAssignment}
use metralectl.Cluster.Ports.{PrepareReply, prepared, refused, RankService}
use metralectl.Cluster.Loops.{as_secs}
use metralectl.Translate.{LaunchPlan}
use metralectl.Translate.Flags.{UnmappedKey}
use metralectl.Cluster.Host.{Output, Reservation, reservation_ttl, Host, RefusalReason}
use metralectl.Cluster.Host.{refusal_text, plan_for}

-- The service's state: the world that its calls change, and what is reserved.
pub record Rank (W : Type 0) : Type 0 where
  pub world : W
  pub reserved : Option Reservation

abbrev pub succeeded : Output → Bool
succeeded out = is_zero_int out.status

abbrev pub docker_probe_argv : List String
docker_probe_argv = "docker" ∷ "info" ∷ "--format" ∷ "{{.ServerVersion}}" ∷ []

abbrev pub remove_argv : String → List String
remove_argv name = "docker" ∷ "rm" ∷ "-f" ∷ name ∷ []

abbrev pub inspect_argv : String → List String
inspect_argv name = "docker" ∷ "inspect" ∷ "-f" ∷ "{{.State.Running}}" ∷ name ∷ []

-- What is left of a text after a prefix.
stripped : List ℕ → List ℕ → Option (List ℕ)
stripped [] cs = some cs
stripped (p ∷ ps) [] = none
stripped (p ∷ ps) (c ∷ cs) = let rest = stripped ps cs in if p == c then rest else none

abbrev pub is_name : Option (List ℕ) → Bool
is_name none = false
is_name (some []) = false
is_name (some (c ∷ cs)) = all is_id_char (c ∷ cs)

-- Whether a container's name is one that this fleet could have created.
unfoldable pub is_ours : String → Bool
unfolding stripped
is_ours container = is_name (stripped (codes "metrale-") (codes container))

abbrev pub refuse : RefusalReason → PrepareReply
refuse r = refused (refusal_text r)

abbrev pub is_success : Fallible Output → Bool
is_success (success out) = succeeded out
is_success (error why) = false

-- `u16::try_from` of a port that a recipe pins.
abbrev pub port_of : Option (String × ScalarValue) → Option ℕ
port_of (some (key, ScalarValue.int (pos n))) = if ltb n (2 ^ 16) then some n else none
port_of d = none

module _ {W : Type 0} (h : Host W) where
  abbrev pub docker_ok : W → Bool × W
  docker_ok w = let (out, w') = h.run docker_probe_argv w in (is_success out, w')

  -- The subnets first, and the network only for an address that they do not account for.
  abbrev pub can_reach : String → ℕ → W → Bool × W
  can_reach addr port w =
      if on_local_subnet h.parse_ip addr h.local_addresses then (true, w) else h.answers addr port w

  -- Another epoch's reservation that has lapsed is dropped; one that binds refuses.
  expire : Reservation → Rank W → Option RefusalReason × Rank W
  expire r s =
      let (t, w) = h.now s.world in
      let (u, w') = h.now w in
      if leb r.expires t then (none, record { world = w; reserved = none }) else (
        some (RefusalReason.reserved r.recipe (as_secs (r.expires - u))),
        record { world = w'; reserved = some r },
      )

  vacate : String → Rank W → Option RefusalReason × Rank W
  unfolding expire
  vacate epoch s = elim s.reserved [
    | none ↦ (none, s)
    | some r ↦ if str_eq r.epoch epoch then (none, s) else expire r s
  ]

  rendered : String → RankAssignment → Result String LaunchPlan → Rank W → PrepareReply × Rank W
  rendered epoch a (err why) s = (refused why, s)
  rendered epoch a (ok plan) s =
      let (t, w) = h.now s.world in
      (
        prepared,
        record {
          world = w;
          reserved = some (record {
            epoch = epoch;
            recipe = a.recipe;
            plan = plan;
            expires = t + reservation_ttl;
          });
        },
      )

  reached : String → RankAssignment → Bool × W → Rank W → PrepareReply × Rank W
  unfolding rendered plan_for
  reached epoch a (true, w) s = rendered epoch a (plan_for h a) (record s { world = w })
  reached epoch a (false, w) s = (
    refuse (RefusalReason.rendezvous_unreachable (explain a.master_addr h.local_addresses)),
    record s { world = w },
  )

  probed : String → RankAssignment → Bool × W → Rank W → PrepareReply × Rank W
  unfolding reached
  probed epoch a (true, w) s = reached epoch a (can_reach a.master_addr a.master_port w) s
  probed epoch a (false, w) s = (refuse RefusalReason.docker_unavailable, record s { world = w })

  vacated : String → RankAssignment → Option RefusalReason × Rank W → PrepareReply × Rank W
  unfolding probed
  vacated epoch a (some why, s) = (refuse why, s)
  vacated epoch a (none, s) = probed epoch a (docker_ok s.world) s

  -- Validate and reserve, starting nothing.
  unfoldable pub prepare : String → RankAssignment → Rank W → PrepareReply × Rank W
  unfolding vacate vacated on_local_subnet plan_for
  prepare epoch a s = elim h.can_launch [
    | some why ↦ (refuse (RefusalReason.not_launchable why), s)
    | none ↦ vacated epoch a (vacate epoch s)
  ]

  launched : String → Fallible Output → Fallible String
  launched name (error why) = error ("starting the rank: " <> why)
  launched name (success out) =
      if succeeded out
      then success name
      else error ("docker run exited " <> int_text out.status <> ": " <> h.trim out.stderr)

  -- Clear a container of the name, and run the command that was rendered.
  start : LaunchPlan → W → Fallible String × W
  unfolding launched to_argv
  start plan w =
      let (cleared, w') = h.run (remove_argv plan.docker.name) w in
      let (out, w'') = h.run (to_argv plan.docker) w' in (launched plan.docker.name out, w'')

  -- Start what was prepared under this epoch: a reservation is spent by it.
  unfoldable pub commit : String → Rank W → Fallible String × Rank W
  unfolding start
  commit epoch s = elim s.reserved [
    | none ↦ (error ("this node has no reservation for " <> epoch <> "; prepare first"), s)
    | some r ↦
        if str_eq r.epoch epoch
        then (let (x, w) = start r.plan s.world in (x, record { world = w; reserved = none }))
        else (error ("this node is holding a reservation for " <> r.epoch <> ", not " <> epoch), s)
  ]

  is_running : Fallible Output → Fallible Bool
  is_running (error why) = error ("asking the container runtime about a rank: " <> why)
  is_running (success out) =
      if succeeded out then success (str_eq (h.trim out.stdout) "true") else success false

  unfoldable pub alive : String → Rank W → Fallible Bool × Rank W
  unfolding is_running is_ours
  alive container s =
      if is_ours container
      then (let (out, w) = h.run (inspect_argv container) s.world in
          (is_running out, record s { world = w }))
      else (success false, s)

  removed : Fallible Output → Fallible (Unit {0})
  removed (error why) = error ("stopping the rank: " <> why)
  removed (success out) =
      if succeeded out || contains (codes "No such container") (codes out.stderr)
      then success tt
      else error ("docker rm exited " <> int_text out.status <> ": " <> h.trim out.stderr)

  unfoldable pub stop : String → Rank W → Fallible (Unit {0}) × Rank W
  unfolding removed is_ours
  stop container s =
      if is_ours container
      then (let (out, w) = h.run (remove_argv container) s.world in
          (removed out, record s { world = w }))
      else (
        error (
            "refusing to stop `" <> container
            <> "`: a rank may only stop a container this fleet launched, and that name is not one"),
        s,
      )

  -- Only the named reservation is released.
  unfoldable pub abort : String → Rank W → Rank W
  abort epoch s = elim s.reserved [
    | none ↦ s
    | some r ↦ if str_eq r.epoch epoch then record s { reserved = none } else s
  ]

  shown : Result String LaunchPlan → Fallible (List ℕ × List String)
  unfolding display
  shown (err why) = error why
  shown (ok plan) = success (display plan.docker, map (λ (u : UnmappedKey). u.key) plan.unmapped)

  unfoldable pub render : RankAssignment → Fallible (List ℕ × List String)
  unfolding shown plan_for
  render a = shown (plan_for h a)

  abbrev pub recipe_port_of : Recipe → Option ℕ
  recipe_port_of recipe =
      port_of (find (λ (d : String × ScalarValue). str_eq d.0 "port") recipe.defaults)

  abbrev pub hash_of : String → Fallible Recipe → Fallible String
  hash_of name (success recipe) = success (h.content_hash recipe)
  hash_of name (error why) = error ("this node does not ship recipe " <> name <> ": " <> why)

  abbrev pub pinned_port_of : String → Fallible Recipe → Fallible (Option ℕ)
  pinned_port_of name (success recipe) = success (recipe_port_of recipe)
  pinned_port_of name (error why) = error ("this node does not ship recipe " <> name <> ": " <> why)

  -- The service, as the driver of a cluster asks it.
  abbrev pub service : RankService (Rank W)
  service = record {
    render = λ a s. (render a, s);
    content_hash = λ name. hash_of name (h.resolve name);
    recipe_port = λ name. pinned_port_of name (h.resolve name);
    prepare = prepare;
    commit = commit;
    alive = alive;
    stop = stop;
    abort = abort;
  }
