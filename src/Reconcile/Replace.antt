-- ===== src/Reconcile/Replace.antt =====
-- When an older generation is stopped to make room (`decide` of
-- crates/metralectl-control/src/reconcile.rs).
use metralectl.Prelude.{◌≡◌, ◌∙◌, ◌⊎◌, inl, inr, refl, sym, true, List, [], ◌∷◌, none, some}
use metralectl.Prelude.{String, filter, Memᴰ, mem-filter, Option-cases, arith}
use metralectl.Protocol.{RecipeId}
use metralectl.Reconcile.Contract.{Desired, Observed, Instance, Step, run, Placement, Generation}
use metralectl.Reconcile.{
  decide, is_ours, generation_of, is_current, misplaced, blocked_by, decide_intent,
}
use metralectl.Reconcile.Safety.{mine, not_stale, decide_run-IsCleared, launch_blocked-none}
use metralectl.Reconcile.Sorting.{IsOwnRecipe, foreign-none, decide_arm}

-- The deployment runs here at the desired generation already.
pub record HasCurrent (d : Desired) (o : Observed) : Type 0 where
  pub own : Instance
  pub listed : Memᴰ own o.instances
  pub owned : is_ours d.deployment own ≡ true
  pub at : generation_of own ≡ some d.generation

-- The desired recipe may start on this node.
pub record MayStart (recipe : RecipeId) (model : String) (p : Placement) (d : Desired)
    (o : Observed) : Type 0 where
  pub placed : misplaced p o.accelerator ≡ none
  pub serves : o.recipe_model ≡ some model
  pub alone : IsOwnRecipe d.deployment recipe o.instances

is_current-at : (g : Generation) (i : Instance) → is_current g i ≡ true → generation_of i ≡ some g
is_current-at g i h = elim (Option-cases (generation_of i)) [
  | inl e ↦ absurd (ground arith)
  | inr (k, e) ↦ ground arith
]

mem-HasCurrent :
    (d : Desired) (o : Observed) (i : Instance)
    → Memᴰ i (filter (is_current d.generation) (mine d o))
    → HasCurrent d o
mem-HasCurrent d o i m =
    let (m', now) = mem-filter (is_current d.generation) (mine d o) m in
    let (listed, owned) = mem-filter (is_ours d.deployment) o.instances m' in
    record { own = i; listed = listed; owned = owned; at = is_current-at d.generation i now }

free-MayStart :
    (recipe : RecipeId) (model : String) (p : Placement) (d : Desired) (o : Observed)
    (current : List Instance)
    → blocked_by recipe model p o d.deployment current ≡ none
    → ((i : Instance) × Memᴰ i current) ⊎ MayStart recipe model p d o
unfolding blocked_by
free-MayStart recipe model p d o (i ∷ current) e = inl (i, Memᴰ.head refl)
free-MayStart recipe model p d o [] e =
    let (placed, serves, alone) = launch_blocked-none recipe model p o d.deployment e in
    inr (record {
      placed = placed;
      serves = serves;
      alone = foreign-none recipe o.instances d.deployment alone;
    })

-- Nothing that serves is stopped for a generation that cannot start here: where a stop is asked for
-- and a recipe is desired, either the deployment already runs at the desired generation, or the
-- recipe fits this node, serves the desired model here, and is nobody else's.
pub decide-replaces :
    (d : Desired) (o : Observed) (r recipe : RecipeId) (model : String) (p : Placement)
    → d.intent ≡ run recipe model p
    → decide d o ≡ Step.stop r
    → HasCurrent d o ⊎ MayStart recipe model p d o
unfolding decide_intent
decide-replaces d o r recipe model p wanted e =
    let fresh = not_stale d o (λ running h. cc) e in
    let step : decide_intent d.intent d.generation d.deployment o (mine d o) ≡ Step.stop r =
      sym (decide_arm d o fresh) ∙ e in
    let cleared =
      decide_run-IsCleared recipe model p d.generation d.deployment o (mine d o) (λ refusal h. cc)
        (rw wanted at step) in
    elim (free-MayStart recipe model p d o _ cleared.free) [
      | inl (i, m) ↦ inl (mem-HasCurrent d o i m)
      | inr free ↦ inr free
    ]
