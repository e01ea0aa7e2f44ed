-- ===== src/Cluster/Loops.antt =====
-- The loops over the ranks in the ceremonies of a cluster
-- (crates/metralectl-agent/src/clusterdriver/ceremonies.rs, clusterdriver.rs and
-- clusterdriver/types.rs).
use metralectl.Prelude.{
  ℕ, ◌/◌, ◌^◌, Bool, true, false, not, List, [], ◌∷◌, ◌++◌, Option, none, some,
}
use metralectl.Prelude.{String, ◌<>◌, decimal, str_eq, find, ◌==◌}
use metralectl.Prelude.{if◌then◌else◌, Fallible, success, error}
use metralectl.Protocol.{NodeId}
use metralectl.Cluster.Ports.{PrepareReply, prepared, refused, Machines, Target, RankPreview}
use metralectl.Cluster.Ports.{RankPrepare, RankStarted}
use metralectl.Cluster.Ports.{ask_preview, ask_prepare, ask_commit, ask_alive, ask_stop, ask_abort}

-- `join` with a separator.
unfoldable pub joined : String → List String → String
joined sep [] = ""
joined sep (s ∷ []) = s
joined sep (s ∷ t ∷ rest) = s <> sep <> joined sep (t ∷ rest)

abbrev pub target_at : List Target → NodeId → Option Target
target_at targets node = find (λ t. str_eq t.assignment.node node) targets

abbrev pub started_at : List RankStarted → NodeId → Option RankStarted
started_at started node = find (λ r. str_eq r.node node) started

abbrev pub is_prepared : PrepareReply → Bool
is_prepared prepared = true
is_prepared (refused reason) = false

abbrev pub refusal : PrepareReply → String
refusal prepared = ""
refusal (refused reason) = reason

abbrev pub answer_of : Target → PrepareReply → RankPrepare
answer_of t reply = record {
  node = t.assignment.node;
  name = t.name;
  rank = t.assignment.rank;
  prepared = is_prepared reply;
  reason = refusal reply;
}

-- Only rank 0 serves the API.
abbrev pub endpoint_of : ℕ → Target → Option String
endpoint_of port t =
    if t.assignment.rank == 0
    then some ("http://" <> t.assignment.master_addr <> ":" <> decimal port)
    else none

abbrev pub started_of : ℕ → Target → String → RankStarted
started_of port t container = record {
  node = t.assignment.node;
  name = t.name;
  rank = t.assignment.rank;
  container = container;
  endpoint = endpoint_of port t;
}

abbrev pub preview_of : Target → List ℕ × List String → RankPreview
preview_of t (command, unmapped) = record {
  node = t.assignment.node;
  name = t.name;
  rank = t.assignment.rank;
  master_addr = t.assignment.master_addr;
  command = command;
  unmapped = unmapped;
}

-- A rank that cannot be asked is not alive.
abbrev pub is_alive : Fallible Bool → Bool
is_alive (success alive) = alive
is_alive (error why) = false

abbrev pub kept_if : {A : Type 0} → Bool → A → List A → List A
kept_if true a rest = a ∷ rest
kept_if false a rest = rest

-- The whole seconds of a duration in nanoseconds.
abbrev pub as_secs : ℕ → ℕ
as_secs d = d / 10 ^ 9

module _ {W : Type 0} (c : Machines W) where
  unfoldable pub roll_back : String → List Target → W → W
  unfolding ask_abort
  roll_back epoch [] w = w
  roll_back epoch (t ∷ ts) w = roll_back epoch ts (ask_abort c t epoch w)

  unfoldable pub stop_if : Option Target → String → W → W
  stop_if none container w = w
  stop_if (some t) container w = (ask_stop c t container w).1

  -- Stop what started, each with the target of its node, whatever comes of it.
  unfoldable pub stop_started : List RankStarted → List Target → W → W
  unfolding stop_if ask_stop
  stop_started [] targets w = w
  stop_started (r ∷ rs) targets w =
      stop_started rs targets (stop_if (target_at targets r.node) r.container w)

  -- The loop of `preview_inner`.
  unfoldable pub preview_all : List Target → W → Fallible (List RankPreview) × W
  unfolding ask_preview
  preview_all [] w = (success [], w)
  preview_all (t ∷ ts) w =
      let (r, w') = ask_preview c t w in
      elim r [
        | error why ↦ (error (t.name <> ": " <> why), w')
        | success rendered ↦
            let (rest, w'') = preview_all ts w' in
            elim rest [
              | error why ↦ (error why, w'')
              | success previews ↦ (success (preview_of t rendered ∷ previews), w'')
            ]
      ]

  -- The loop of `prepare_inner`: the answers, and the targets that accepted.
  unfoldable pub prepare_all : String → List Target → W → (List RankPrepare × List Target) × W
  unfolding ask_prepare
  prepare_all epoch [] w = (([], []), w)
  prepare_all epoch (t ∷ ts) w =
      let (reply, w') = ask_prepare c t epoch w in
      let ((answers, accepted), w'') = prepare_all epoch ts w' in
      ((answer_of t reply ∷ answers, kept_if (is_prepared reply) t accepted), w'')

  -- The loop of `commit_inner`; `done` are the targets that started.
  unfoldable pub start_all :
      ℕ
      → String
      → List Target
      → List RankStarted
      → List Target
      → W
      → Fallible (List RankStarted) × W
  unfolding ask_commit stop_started roll_back
  start_all port epoch done started [] w = (success started, w)
  start_all port epoch done started (t ∷ ts) w =
      let (r, w') = ask_commit c t epoch w in
      elim r [
        | success container ↦
            start_all port epoch (done ++ (t ∷ [])) (started ++ (started_of port t container ∷ []))
              ts w'
        | error why ↦ (
          error (t.name <> " could not start: " <> why),
          roll_back epoch (t ∷ ts) (stop_started started done w'),
        )
      ]

  -- Ask whether a rank is alive, if there is one to ask of.
  unfoldable pub alive_if : Option RankStarted → Target → W → Bool × W
  alive_if none t w = (true, w)
  alive_if (some r) t w = let (alive, w') = ask_alive c t r.container w in (is_alive alive, w')

  -- The names of the targets that are not alive, after the settling window.
  unfoldable pub dead_targets : List RankStarted → List Target → W → List String × W
  unfolding alive_if ask_alive
  dead_targets started [] w = ([], w)
  dead_targets started (t ∷ ts) w =
      let (alive, w') = alive_if (started_at started t.assignment.node) t w in
      let (dead, w'') = dead_targets started ts w' in (kept_if (not alive) t.name dead, w'')

  -- The roster as supervision asks it: what is not alive.
  unfoldable pub found_dead : Option Target → RankStarted → W → List (NodeId × String) × W
  found_dead none r w = ([], w)
  found_dead (some t) r w =
      let (alive, w') = ask_alive c t r.container w in
      (kept_if (not (is_alive alive)) (t.assignment.node, t.name) [], w')

  unfoldable pub dead_started : List RankStarted → List Target → W → List (NodeId × String) × W
  unfolding found_dead ask_alive
  dead_started [] targets w = ([], w)
  dead_started (r ∷ rs) targets w =
      let (here, w') = found_dead (target_at targets r.node) r w in
      let (dead, w'') = dead_started rs targets w' in (here ++ dead, w'')

  unfoldable pub failed_stop :
      Option Target → RankStarted → W → (List String × List RankStarted) × W
  failed_stop none r w = (([], []), w)
  failed_stop (some t) r w =
      let (outcome, w') = ask_stop c t r.container w in
      elim outcome [
        | success u ↦ (([], []), w')
        | error why ↦ (((t.name <> ": " <> why) ∷ [], r ∷ []), w')
      ]

  -- Every rank is attempted: the failures, and what still runs.
  unfoldable pub stop_all :
      List RankStarted → List Target → W → (List String × List RankStarted) × W
  unfolding failed_stop ask_stop
  stop_all [] targets w = (([], []), w)
  stop_all (r ∷ rs) targets w =
      let ((why, up), w') = failed_stop (target_at targets r.node) r w in
      let ((failures, still), w'') = stop_all rs targets w' in ((why ++ failures, up ++ still), w'')
