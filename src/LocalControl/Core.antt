-- ===== src/LocalControl/Core.antt =====
-- The control core as the reconciler's (crates/metralectl-control/src/control.rs under
-- crates/metralectl-control/src/reconcile/driver.rs).
use metralectl.Prelude.{◌≡◌, ◌≢◌, ap, Bool, true, List, [], String, filter}
use metralectl.Prelude.{◌⊎◌, inl, inr}
use metralectl.Protocol.{RecipeId, AgentError, ok, err}
use metralectl.Settings.Gate.{Overrides}
use metralectl.Reconcile.Action.{LaunchFor, Workload}
use metralectl.Reconcile.Answer.{Control}
use metralectl.Reconcile.Driver.Rounds.{Reads}
use metralectl.Reconcile.Driver.Tenants.{Adds}
use metralectl.LocalControl.{blocking, launch, stop, fetched, fetch_image, workloads, recipe_model}
use metralectl.LocalControl.Recipes.{Recipe}
use metralectl.LocalControl.Ports.{completed, lost, Local}

-- What the reconciler asks of the control core, answered by it: a launch sends no settings.
abbrev pub core_of : {W : Type 0} → Local W → Control W
core_of c = record {
  accelerator = c.accelerator;
  recipe_model = recipe_model c;
  admission = c.admission;
  workloads = workloads c;
  fetch_image = fetch_image c;
  launch = λ recipe launch_for w. launch c recipe [] launch_for w;
  stop = stop c;
}

-- What the launcher documents, each call of which may fail: it answers with what runs, or with an
-- error, and changes nothing by that; fetching an image changes nothing that runs; a stop leaves
-- every workload of another recipe; a launch adds only workloads with the owner that it is given.
pub record Keeps {W : Type 0} (c : Local W) : Type 0 where
  pub running : W → List Workload
  pub reads :
      (w : W)
      → (c.launcher.workloads w ≡ (completed (ok (running w)), w))
        ⊎ (((e : AgentError) × (c.launcher.workloads w ≡ (completed (err e), w)))
            ⊎ ((why : String) × (c.launcher.workloads w ≡ (lost why, w))))
  pub fetched : (image : String) (w : W) → running (c.launcher.fetch_image image w).1 ≡ running w
  pub left : RecipeId → W → Workload → Bool
  pub stopped :
      (recipe : RecipeId) (w : W)
      → (running (c.launcher.stop recipe w).1 ≡ filter (left recipe w) (running w))
        × ((x : Workload) → x.instance.recipe ≢ recipe → left recipe w x ≡ true)
  pub launched :
      (recipe : Recipe) (overrides : Overrides) (f : LaunchFor) (w : W)
      → Adds f.owner (running w) (running (c.launcher.launch recipe overrides f w).1)

module _ {W : Type 0} (c : Local W) (k : Keeps c) where
  workloads-reads :
      (w : W)
      → (workloads c w ≡ (ok (k.running w), w)) ⊎ ((e : AgentError) × (workloads c w ≡ (err e, w)))
  unfolding workloads
  workloads-reads w = elim (k.reads w) [
    | inl read ↦ inl (ap blocking read)
    | inr (inl (e, failed)) ↦ inr (e, ap blocking failed)
    | inr (inr (why, failed)) ↦ inr (_, ap blocking failed)
  ]

  pub core-Reads : Reads (core_of c)
  core-Reads = record { running = k.running; reads = workloads-reads }
