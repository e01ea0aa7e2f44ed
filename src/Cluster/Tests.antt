-- ===== src/Cluster/Tests.antt =====
-- Ceremonies of the clusters of two machines, the second of which may be busy.
use metralectl.Prelude.{ℕ, ◌≡◌, refl, [], ◌∷◌}
use metralectl.Prelude.{none, some}
use metralectl.Protocol.{NodeId}
use metralectl.Cluster.Plan.{RankAssignment}
use metralectl.Cluster.Ports.{Pending, Driver}
use metralectl.Cluster.Ports.{new_epoch}
use metralectl.Cluster.Reserved.{IsReserved, prepare-IsReserved}
use metralectl.Cluster.Driver.{prepare, commit}
use metralectl.Prelude.{Bool, true, false}
use metralectl.Cluster.Resolve.{resolve}
use metralectl.Cluster.Samples.{Holds, Loses, Site, pair}
use metralectl.Cluster.Samples.Laws.{pair-IsAlone, pair-IsHonoured}

abbrev idle : Bool → Driver Site
idle busy = record {
  world = record { up = []; held = []; busy = busy };
  pending = none;
  running = none;
}

-- The second machine refuses.
prepare-IsReserved_example :
    IsReserved pair "n0" Holds Loses pair-IsHonoured
      (resolve pair "r"
        ("n0" ∷ "n1" ∷ [])
        "n0"
        []
        (new_epoch pair (idle true).world).0
        (new_epoch pair (idle true).world).1)
      (new_epoch pair (idle true).world).1
      (idle true)
      (prepare pair "r" ("n0" ∷ "n1" ∷ []) "n0" [] (idle true))
prepare-IsReserved_example =
    prepare-IsReserved pair "n0" Holds Loses pair-IsHonoured "r" ("n0" ∷ "n1" ∷ []) "n0" []
      (idle true) pair-IsAlone

-- The first agreed, and was released.
refused_pair : (prepare pair "r" ("n1" ∷ "n0" ∷ []) "n0" [] (idle true)).1.world.held ≡ []
unfolding prepare new_epoch
refused_pair = refl

abbrev assigned : NodeId → ℕ → RankAssignment
assigned id rank = record {
  node = id;
  rank = rank;
  world_size = 2;
  master_addr = "10.10.10.9";
  master_port = 29500;
  recipe = "r";
  recipe_hash = "h";
  settings = [];
}

abbrev agreed : Pending
agreed = record {
  epoch = "ab";
  port = 8888;
  targets =
      record { assignment = assigned "n0" 0; addr = none; name = "n0" }
      ∷ record { assignment = assigned "n1" 1; addr = some "10.10.10.10:7700"; name = "n1" }
      ∷ [];
}

abbrev ready : Bool → Driver Site
ready busy = record {
  world = record { up = []; held = ("n1", "ab") ∷ ("n0", "ab") ∷ []; busy = busy };
  pending = some agreed;
  running = none;
}

-- Two machines, one after the other.
prepared_pair :
    (prepare pair "r" ("n1" ∷ "n0" ∷ []) "n0" [] (idle false)).1.world.held
    ≡ ("n1", "ab") ∷ ("n0", "ab") ∷ []
unfolding prepare new_epoch
prepared_pair = refl

committed_pair : (commit pair "ab" (ready false)).1.world.up ≡ ("n1", "c") ∷ ("n0", "c") ∷ []
unfolding commit
committed_pair = refl

-- The second machine's commit fails, and the first's container is stopped.
aborted_pair : (commit pair "ab" (ready true)).1.world.up ≡ []
unfolding commit
aborted_pair = refl
