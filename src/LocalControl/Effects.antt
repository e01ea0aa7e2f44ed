-- ===== src/LocalControl/Effects.antt =====
-- What a request of the control vocabulary can change
-- (`execute` of crates/metralectl-control/src/control.rs).
use metralectl.Prelude.{◌≡◌, ◌⊎◌, refl, Option, none, some}
use metralectl.Protocol.{RecipeId, Result, ok, err, ControlReq}
use metralectl.Settings.Gate.{Requested, Overrides}
use metralectl.Reconcile.Action.{LaunchFor, ControlTrace}
use metralectl.LocalControl.{
  blocking, gates, asked, preview, launch_with, launch, stop, status, stats, logs,
}
use metralectl.LocalControl.Recipes.{Recipe}
use metralectl.LocalControl.Ports.{Joined, completed, lost, LaunchTelemetry, Local, clamp_lines}
use metralectl.LocalControl.Gates.{Passes, gates_iff}

-- A request launches outside any deployment and for no release.
abbrev pub for_request : Option ControlTrace → LaunchFor
for_request trace = record { owner = none; release = none; trace = trace }

pub blocking-world : {W A : Type 0} (x : Joined (Result A) × W) → (blocking x).1 ≡ x.1
blocking-world (completed r, w) = refl
blocking-world (lost why, w) = refl

module _ {W : Type 0} (c : Local W) where
  -- A launch is refused with nothing changed, or the launcher does what it was let through with.
  pub data Launches (id : RecipeId) (requested : Requested) (launch_for : LaunchFor) (w w' : W)
      : Type 0 where
    refused : w' ≡ w → Launches id requested launch_for w w'
    launched :
        (recipe : Recipe) (overrides : Overrides)
        → Passes c id requested launch_for (c.admission w) recipe overrides
        → w' ≡ (c.launcher.launch recipe overrides launch_for w).1
        → Launches id requested launch_for w w'

  after_gates :
      (id : RecipeId) (requested : Requested) (launch_for : LaunchFor) (w : W)
      (g : Result (Recipe × Overrides))
      → gates c id requested launch_for (c.admission w) ≡ g
      → Launches id requested launch_for w (launch_with c launch_for g w).1
  after_gates id requested launch_for w (err e) h = Launches.refused refl
  after_gates id requested launch_for w (ok (recipe, overrides)) h =
      Launches.launched recipe overrides
        ((gates_iff c id requested launch_for (c.admission w) recipe overrides).0 h)
        (blocking-world (c.launcher.launch recipe overrides launch_for w))

  pub launch-Launches :
      (id : RecipeId) (requested : Requested) (launch_for : LaunchFor) (w : W)
      → Launches id requested launch_for w (launch c id requested launch_for w).1
  unfolding launch
  launch-Launches id requested launch_for w = after_gates id requested launch_for w _ refl

  -- What each request may do to the world: at most one call, of its own kind.
  abbrev pub Changes : ControlReq → Option ControlTrace → W → W → Type 0
  Changes ControlReq.list_recipes trace w w' = w' ≡ w
  Changes (ControlReq.preview id settings) trace w w' =
      (w' ≡ w)
      ⊎ ((r : Recipe) × (o : Overrides) × (asked c id settings ≡ ok (r, o))
          × (w' ≡ (c.launcher.preview r o w).1))
  Changes (ControlReq.launch id settings) trace w w' = Launches id settings (for_request trace) w w'
  Changes (ControlReq.stop id) trace w w' = w' ≡ (c.launcher.stop id w).1
  Changes ControlReq.status trace w w' = w' ≡ (c.launcher.running w).1
  Changes (ControlReq.stats id) trace w w' =
      ((c.telemetry ≡ none) × (w' ≡ w))
      ⊎ ((t : LaunchTelemetry W) × (c.telemetry ≡ some t) × (w' ≡ (t.sample id w).1))
  Changes (ControlReq.logs id lines) trace w w' =
      ((c.telemetry ≡ none) × (w' ≡ w))
      ⊎ ((t : LaunchTelemetry W) × (c.telemetry ≡ some t)
          × (w' ≡ (t.logs id (clamp_lines lines) w).1))
