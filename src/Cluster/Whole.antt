-- ===== src/Cluster/Whole.antt =====
-- A cluster is whole or absent after a commit (`commit_inner` of
-- crates/metralectl-agent/src/clusterdriver/ceremonies.rs).
use metralectl.Prelude.{ℕ, ◌≡◌, ◌⊎◌, List, [], ◌∷◌, ◌++◌, none, some}
use metralectl.Prelude.{String, All}
use metralectl.Prelude.{Fallible, success, error}
use metralectl.Protocol.{NodeId}
use metralectl.Cluster.Ports.{Machines, Target, Pending, RankStarted, Driver, ask_commit}
use metralectl.Cluster.Loops.{start_all, dead_targets, started_of}
use metralectl.Cluster.Driver.{settled}
use metralectl.Cluster.Faithful.{
  IsFaithful, IsPlaced, IsUnstopped, IsCovered, IsStarted, IsAmong, RunsStarted,
}

module _ {W : Type 0} (c : Machines W) (self : NodeId) (Runs : W → NodeId → String → Type 0)
    (f : IsFaithful c self Runs) where
  -- What runs at one world and did not at another is among what was started.
  abbrev pub IsFresh : W → W → List RankStarted → Type 0
  IsFresh w0 w started =
      (n : NodeId) (k : String) → Runs w n k → Runs w0 n k ⊎ IsAmong c self Runs f started n k

  -- What the start of these targets from this world may leave running: a commit answers an error,
  -- and its machine runs what it started, or the stop of what an earlier one started fails.
  abbrev pub StartLeaves :
      ℕ → String → List Target → List RankStarted → List Target → W → NodeId → String → Type 0
  StartLeaves port epoch done started [] w n k = ⊥
  StartLeaves port epoch done started (t ∷ ts) w n k =
      ((why : String) × ((ask_commit c t epoch w).0 ≡ error why)
        × ((n ≡ t.assignment.node)
            ⊎ IsUnstopped c self Runs f started done (ask_commit c t epoch w).1 n k))
      ⊎ ((container : String) × ((ask_commit c t epoch w).0 ≡ success container)
          × StartLeaves port epoch (done ++ (t ∷ []))
              (started ++ (started_of port t container ∷ [])) ts (ask_commit c t epoch w).1 n k)

  -- What the commit of a prepare from this world may leave running: what the start does, or, where
  -- that succeeded, what does not stop when a rank was found dead.
  abbrev pub IsLeft : Pending → W → NodeId → String → Type 0
  IsLeft p w n k =
      StartLeaves p.port p.epoch [] [] p.targets w n k
      ⊎ ((started : List RankStarted) × (w' : W) × (start_all c p.port p.epoch [] [] p.targets w
            ≡ (success started, w'))
          × IsUnstopped c self Runs f started p.targets
              (dead_targets c started p.targets (settled c w')).1 n k)

  -- Nothing runs that did not run before, but for what is left.
  abbrev pub IsAbsent : (NodeId → String → Type 0) → W → W → Type 0
  IsAbsent L w0 w = (n : NodeId) (k : String) → Runs w n k → Runs w0 n k ⊎ L n k

  record IsUnderway (w0 w : W) (targets : List Target) (started : List RankStarted) : Type 0 where
    fresh : IsFresh w0 w started
    covered : All (IsCovered targets) started
    reached : All (IsStarted started) targets
    placed : All (IsPlaced self) targets

  abbrev Outcome :
      (NodeId → String → Type 0) → W → List Target → Fallible (List RankStarted) × W → Type 0
  Outcome L w0 targets (error why, w) = IsAbsent L w0 w
  Outcome L w0 targets (success started, w) = IsUnderway w0 w targets started

  -- After a commit: an error leaves nothing running that did not run before, but for what may be left
  -- of the plan, and the record of what runs as it was; a success consumed the prepare, recorded the
  -- cluster, and started a container on each machine of the plan, where it runs, and no other.
  abbrev pub IsWhole : String → Driver W → Fallible (List RankStarted) × Driver W → Type 0
  IsWhole epoch d (error why, d') =
      ((n : NodeId) (k : String)
        → Runs d'.world n k
        → Runs d.world n k
          ⊎ ((p : Pending) × (d.pending ≡ some p) × (p.epoch ≡ epoch) × IsLeft p d.world n k))
      × (d'.running ≡ d.running)
  IsWhole epoch d (success started, d') =
      (p : Pending) × (d.pending ≡ some p)
      × (p.epoch ≡ epoch)
      × (d'.pending ≡ none)
      × (d'.running ≡ some (record { targets = p.targets; started = started }))
      × All (RunsStarted c self Runs f d'.world started) p.targets
      × IsFresh d.world d'.world started
