-- ===== src/Cluster/Driver.antt =====
-- The ceremonies of a cluster: preview, prepare, commit, abort, stop and supervise
-- (crates/metralectl-agent/src/clusterdriver/ceremonies.rs). A call takes and gives back the
-- driver's state; the locks are not held across a call of a rank.
use metralectl.Prelude.{Bool, true, false, List, [], ◌∷◌, Option, none, some, String, ◌<>◌}
use metralectl.Prelude.{decimal, str_eq, map, all, ltb, max, if◌then◌else◌}
use metralectl.Prelude.{Fallible, success, error, Result, ok, err}
use metralectl.Protocol.{NodeId, RecipeId}
use metralectl.Settings.Gate.{Requested}
use metralectl.Cluster.Ports.{Machines, Target, Pending, RankPreview, RankPrepare, RankStarted}
use metralectl.Cluster.Ports.{Running, Torn, Driver, new_epoch}
use metralectl.Cluster.Resolve.{resolve, link_warning}
use metralectl.Cluster.Loops.{joined, as_secs, roll_back, stop_started, preview_all, prepare_all}
use metralectl.Cluster.Loops.{start_all, dead_targets, dead_started, stop_all}

abbrev pub started_names : List RankStarted → List String
started_names started = map (λ (r : RankStarted). r.name) started

abbrev pub all_prepared : List RankPrepare → Bool
all_prepared answers = all (λ (r : RankPrepare). r.prepared) answers

module _ {W : Type 0} (c : Machines W) where
  abbrev pub with_warning :
      Fallible (List RankPreview) → Option String → Fallible (List RankPreview × Option String)
  with_warning (error why) warning = error why
  with_warning (success previews) warning = success (previews, warning)

  previewed :
      RecipeId
      → List NodeId
      → NodeId
      → Requested
      → Result String Pending
      → Driver W
      → Fallible (List RankPreview × Option String) × Driver W
  previewed recipe nodes head settings (err why) d = (error why, d)
  previewed recipe nodes head settings (ok p) d =
      let (r, w) = preview_all c p.targets d.world in
      (with_warning r (link_warning c recipe nodes head settings w), record d { world = w })

  unfoldable pub preview :
      RecipeId
      → List NodeId
      → NodeId
      → Requested
      → Driver W
      → Fallible (List RankPreview × Option String) × Driver W
  unfolding previewed preview_all link_warning resolve
  preview recipe nodes head settings d =
      previewed recipe nodes head settings (resolve c recipe nodes head settings "preview" d.world)
        d

  -- What is answered where a cluster runs already.
  abbrev pub already_running : Running → String
  already_running r =
      "a cluster is already running on "
      <> joined ", " (started_names r.started)
      <> "; stop it before starting another"

  -- What follows the last answer.
  unfoldable pub concluded :
      String
      → Pending
      → (List RankPrepare × List Target) × W
      → Driver W
      → Fallible (String × List RankPrepare × Bool) × Driver W
  concluded epoch p ((answers, accepted), w) d =
      if all_prepared answers
      then (success (epoch, answers, true), record d { world = w; pending = some p })
      else (success (epoch, answers, false), record d { world = roll_back c epoch accepted w })

  unfoldable pub asked :
      String
      → Result String Pending
      → Driver W
      → Fallible (String × List RankPrepare × Bool) × Driver W
  unfolding concluded
  asked epoch (err why) d = (error why, d)
  asked epoch (ok p) d = concluded epoch p (prepare_all c epoch p.targets d.world) d

  unfoldable pub prepare :
      RecipeId
      → List NodeId
      → NodeId
      → Requested
      → Driver W
      → Fallible (String × List RankPrepare × Bool) × Driver W
  unfolding joined asked concluded prepare_all roll_back resolve new_epoch
  prepare recipe nodes head settings d = elim d.running [
    | some r ↦ (error (already_running r), d)
    | none ↦
        let (epoch, w) = new_epoch c d.world in
        asked epoch (resolve c recipe nodes head settings epoch w) (record d { world = w })
  ]

  -- The end of a commit: every rank is alive, or the cluster is torn down.
  unfoldable pub whole :
      Pending
      → List RankStarted
      → List String × W
      → Driver W
      → Fallible (List RankStarted) × Driver W
  whole p started ([], w) d = (
    success started,
    record d { world = w; running = some (record { targets = p.targets; started = started }) },
  )
  whole p started (name ∷ dead, w) d = (
    error (
        joined " and " (name ∷ dead)
        <> " stopped within "
        <> decimal (max (as_secs c.settle) 1)
        <> "s of starting. The whole cluster has been shut down; check that machine's container "
        <> "logs."),
    record d { world = stop_started c started p.targets w },
  )

  abbrev pub settled : W → W
  settled w = if ltb 0 c.settle then c.sleep c.settle w else w

  unfoldable pub after_start :
      Pending → Fallible (List RankStarted) × W → Driver W → Fallible (List RankStarted) × Driver W
  unfolding whole
  after_start p (error why, w) d = (error why, record d { world = w })
  after_start p (success started, w) d =
      whole p started (dead_targets c started p.targets (settled w)) d

  -- A commit consumes its prepare.
  unfoldable pub commit : String → Driver W → Fallible (List RankStarted) × Driver W
  unfolding joined after_start whole start_all dead_targets stop_started
  commit epoch d = elim d.pending [
    | none ↦ (error ("no prepare is outstanding for " <> epoch), d)
    | some p ↦
        if str_eq p.epoch epoch
        then after_start p (start_all c p.port epoch [] [] p.targets d.world)
            (record d { pending = none })
        else (error ("this agent is holding a prepare for " <> p.epoch <> ", not " <> epoch), d)
  ]

  -- Only the named prepare is released.
  unfoldable pub abort : String → Driver W → Driver W
  unfolding roll_back
  abort epoch d = elim d.pending [
    | none ↦ d
    | some p ↦
        if str_eq p.epoch epoch
        then record d { world = roll_back c epoch p.targets d.world; pending = none }
        else d
  ]

  -- What is kept after every rank was asked to stop.
  unfoldable pub stopped :
      Running
      → (List String × List RankStarted) × W
      → Driver W
      → Fallible (List RankStarted) × Driver W
  stopped r (([], still), w) d = (success r.started, record d { world = w; running = none })
  stopped r ((failure ∷ failures, still), w) d = (
    error ("could not stop " <> joined "; " (failure ∷ failures)),
    record d { world = w; running = some (record r { started = still }) },
  )

  unfoldable pub stop_cluster : Driver W → Fallible (List RankStarted) × Driver W
  unfolding joined stopped stop_all
  stop_cluster d = elim d.running [
    | none ↦ (error "this agent did not start a cluster", d)
    | some r ↦ stopped r (stop_all c r.started r.targets d.world) d
  ]

  abbrev pub torn_of : List (NodeId × String) → Torn
  torn_of dead = record {
    nodes = map (λ (x : NodeId × String). x.0) dead;
    why =
        joined " and " (map (λ (x : NodeId × String). x.1) dead)
        <> " stopped, so the cluster was torn down. A half cluster waits at a rendezvous that will "
        <> "never complete while its survivors hold their GPUs.";
  }

  unfoldable pub torn : List (NodeId × String) × W → Driver W → Option Torn × Driver W
  unfolding stop_cluster
  torn ([], w) d = (none, record d { world = w })
  torn (x ∷ dead, w) d =
      let (outcome, d') = stop_cluster (record d { world = w }) in
      (some (torn_of (x ∷ dead)), record d' { running = none })

  unfoldable pub supervise : Driver W → Option Torn × Driver W
  unfolding joined torn dead_started stop_cluster
  supervise d = elim d.running [
    | none ↦ (none, d)
    | some r ↦ torn (dead_started c r.started r.targets d.world) d
  ]
