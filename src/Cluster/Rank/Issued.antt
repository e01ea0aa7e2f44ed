-- ===== src/Cluster/Rank/Issued.antt =====
-- What a rank service runs, over every sequence of requests
-- (crates/metralectl/src/rankservice/mod.rs).
use metralectl.Prelude.{◌≡◌, List, [], ◌∷◌}
use metralectl.Prelude.{none, some, String, ok}
use metralectl.Docker.{to_argv}
use metralectl.Cluster.Plan.{RankAssignment}
use metralectl.Translate.{LaunchPlan}
use metralectl.Cluster.Host.{Host, Reservation, plan_for}
use metralectl.Cluster.Rank.{Rank}
use metralectl.Cluster.Rank.Requests.{
  Request, prepares, commits, aborts, IsLogged, perform, launches,
}

-- Whether a request spends a reservation of the epoch.
abbrev pub Spends : Request → String → Type 0
Spends (commits e') e = e' ≡ e
Spends (aborts e') e = e' ≡ e
Spends q e = ⊥

-- The requests, the last one first, have a prepare of the epoch for the assignment that no later
-- commit or abort of the epoch has spent.
pub data IsOutstanding : List Request → String → RankAssignment → Type 0 where
  asked :
      (hs : List Request) (e : String) (a : RankAssignment) → IsOutstanding (prepares e a ∷ hs) e a
  since :
      (q : Request) (hs : List Request) (e : String) (a : RankAssignment)
      → ¬ Spends q e
      → IsOutstanding hs e a
      → IsOutstanding (q ∷ hs) e a

module _ {W : Type 0} (h : Host W) (log : W → List (List String)) (l : IsLogged h log) where
  -- The commands, the last one first, that commits among the requests ran: each by a commit of its
  -- own, and each the one that this machine renders for an assignment whose prepare was outstanding
  -- when that commit came.
  pub data IsIssued : List Request → List (List String) → Type 0 where
    none_yet : IsIssued [] []
    committed :
        (hs : List Request) (e : String) (a : RankAssignment) (plan : LaunchPlan)
        (argvs : List (List String))
        → IsOutstanding hs e a
        → plan_for h a ≡ ok plan
        → IsIssued hs argvs
        → IsIssued (commits e ∷ hs) (to_argv plan.docker ∷ argvs)
    no_launch :
        (q : Request) (hs : List Request) (argvs : List (List String))
        → IsIssued hs argvs
        → IsIssued (q ∷ hs) argvs

  -- The states of a service that has answered these requests, the last one first, from a start with
  -- nothing run and nothing reserved; between them the world may change but for its log.
  pub data Reached : List Request → Rank W → Type 0 where
    begun : (s : Rank W) → log s.world ≡ [] → s.reserved ≡ none → Reached [] s
    moved :
        (hs : List Request) (s s' : Rank W)
        → Reached hs s
        → log s'.world ≡ log s.world
        → s'.reserved ≡ s.reserved
        → Reached hs s'
    answered :
        (q : Request) (hs : List Request) (s s' : Rank W)
        → Reached hs s
        → s' ≡ perform h log l q s
        → Reached (q ∷ hs) s'

  -- A reservation is held for a prepare that is outstanding, with what is rendered for it.
  record IsOwed (hs : List Request) (s : Rank W) : Type 0 where
    owed :
        (r : Reservation)
        → s.reserved ≡ some r
        → (a : RankAssignment) × IsOutstanding hs r.epoch a × (plan_for h a ≡ ok r.plan)
    issued : IsIssued hs (launches h log l s.world)
