-- ===== src/Reconcile/Ready.antt =====
-- Where `decide` makes progress: nothing in what the node runs and is makes it refuse
-- (crates/metralectl-control/src/reconcile.rs).
use metralectl.Prelude.{
  ◌≤◌, ◌≡◌, ◌≢◌, sym, refl, subst, Bool, true, false, not, arith, List, [], ◌∷◌, none, some, String,
  Memᴰ, find, filter, mem-filter, find-none_of, All-tabulate, str_eq, eq_iff,
}
use metralectl.Protocol.{RecipeId}
use metralectl.Reconcile.Contract.{
  DeploymentName, Generation, Instance, Step, Desired, Observed, Intent, run, stopped, Placement,
}
use metralectl.Reconcile.{
  is_ours, generation_of, is_foreign, foreign, stop, is_older, is_current, decide, decide_intent,
  decide_stopped, next_step, blocked_by, launch_blocked, misplaced,
}
use metralectl.Reconcile.Sorting.{decide_arm}
use metralectl.Reconcile.Safety.{mine, decide_run_of}
use metralectl.Reconcile.Realised.{fresh_of}

-- What is to run can run here, and what runs of it already is of the right recipe.
abbrev pub Fits : Intent → Desired → Observed → Type 0
Fits stopped d o = Unit
Fits (run recipe model p) d o =
    (misplaced p o.accelerator ≡ none)
    × (o.recipe_model ≡ some model)
    × ((j : Instance) → Memᴰ j o.instances → is_ours d.deployment j ≡ false → j.recipe ≢ recipe)
    × ((i : Instance)
        → Memᴰ i o.instances
        → is_ours d.deployment i ≡ true
        → is_current d.generation i ≡ true
        → i.recipe ≡ recipe)

-- Nothing of the deployment is newer than what is desired, and no workload of another shares a
-- recipe with one of its own.
pub record IsReady (d : Desired) (o : Observed) : Type 0 where
  pub fresh :
      (i : Instance)
      → Memᴰ i o.instances
      → is_ours d.deployment i ≡ true
      → (g : Generation) → generation_of i ≡ some g
      → g ≤ d.generation
  pub unshared :
      (i j : Instance)
      → Memᴰ i o.instances
      → Memᴰ j o.instances
      → is_ours d.deployment i ≡ true
      → is_ours d.deployment j ≡ false
      → j.recipe ≢ i.recipe
  pub fits : Fits d.intent d o

-- A step that moves on: nothing to do, a launch, or a stop that reaches something of one's own.
pub data Progress (d : Desired) (o : Observed) : Step → Type 0 where
  converged : Progress d o Step.converged
  launches : (recipe : RecipeId) → Progress d o (Step.launch recipe)
  stops :
      (recipe : RecipeId) (i : Instance)
      → Memᴰ i o.instances
      → is_ours d.deployment i ≡ true
      → i.recipe ≡ recipe
      → Progress d o (Step.stop recipe)

foreign-none_of :
    (recipe : RecipeId) (instances : List Instance) (ours : DeploymentName)
    → ((j : Instance) → Memᴰ j instances → is_ours ours j ≡ false → j.recipe ≢ recipe)
    → foreign recipe instances ours ≡ none
unfolding foreign
foreign-none_of recipe instances ours h =
    find-none_of (is_foreign recipe ours) instances
      (All-tabulate _ instances λ j m. not_foreign j (h j m) (is_ours ours j) refl)
  where
    not_foreign :
        (j : Instance)
        → (is_ours ours j ≡ false → j.recipe ≢ recipe)
        → (own : Bool) → is_ours ours j ≡ own
        → is_foreign recipe ours j ≡ false
    not_foreign j k true e = ground (arith, eq_iff j.recipe recipe)
    not_foreign j k false e = let differs = k e in ground (arith, eq_iff j.recipe recipe)

stop-alone :
    (recipe : RecipeId) (instances : List Instance) (ours : DeploymentName)
    → foreign recipe instances ours ≡ none
    → stop recipe instances ours ≡ Step.stop recipe
unfolding stop
stop-alone recipe instances ours e = rw (e, stop) refl

module _ (d : Desired) (o : Observed) (r : IsReady d o) where
  mine-listed :
      (i : Instance) → Memᴰ i (mine d o) → Memᴰ i o.instances × (is_ours d.deployment i ≡ true)
  mine-listed i m = mem-filter (is_ours d.deployment) o.instances m

  stops-own :
      (i : Instance) → Memᴰ i (mine d o) → Progress d o (stop i.recipe o.instances d.deployment)
  stops-own i m =
      let (listed, ours) = mine-listed i m in
      let alone =
        foreign-none_of i.recipe o.instances d.deployment
          (λ j k other. r.unshared i j listed k ours other) in
      subst (Progress d o) (sym (stop-alone i.recipe o.instances d.deployment alone))
        (Progress.stops i.recipe i listed ours refl)

  next-Progress :
      (recipe : RecipeId) (older current : List Instance)
      → ((i : Instance) → Memᴰ i older → Memᴰ i (mine d o))
      → Progress d o (next_step recipe d.deployment o.instances older current)
  unfolding next_step
  next-Progress recipe [] [] h = Progress.launches recipe
  next-Progress recipe [] (x ∷ current) h = Progress.converged
  next-Progress recipe (old ∷ older) current h = stops-own old (h old (Memᴰ.head refl))

  unblocked :
      (recipe : RecipeId) (model : String) (p : Placement) (current : List Instance)
      → Fits (run recipe model p) d o
      → blocked_by recipe model p o d.deployment current ≡ none
  unfolding blocked_by launch_blocked
  unblocked recipe model p [] (placed, serves, alone, _) =
      let shared = foreign-none_of recipe o.instances d.deployment alone in
      let same = (eq_iff model model).1 refl in ground (arith, placed, serves, same, shared)
  unblocked recipe model p (x ∷ current) f = refl

  arm-Progress :
      (intent : Intent)
      → Fits intent d o
      → Progress d o (decide_intent intent d.generation d.deployment o (mine d o))
  unfolding decide_intent
  arm-Progress stopped f = winds_down (mine d o) (λ i m. m)
    where
      winds_down :
          (own : List Instance)
          → ((i : Instance) → Memᴰ i own → Memᴰ i (mine d o))
          → Progress d o (decide_stopped d.deployment o.instances own)
      winds_down [] h = Progress.converged
      winds_down (i ∷ own) h = stops-own i (h i (Memᴰ.head refl))
  arm-Progress (run recipe model p) f =
      let own = mine d o in
      let current = filter (is_current d.generation) own in
      let older = filter (is_older d.generation) own in
      let same : find (λ i. not (str_eq i.recipe recipe)) current ≡ none = find-none_of _ current (
        All-tabulate _ current λ i m.
          let (k, now) = mem-filter (is_current d.generation) own m in
          let (listed, ours) = mine-listed i k in
          let is = f.3 i listed ours now in ground (arith, eq_iff i.recipe recipe)) in
      subst (Progress d o)
        (sym (
          decide_run_of recipe model p d.generation d.deployment o own (record {
            same_recipe = same;
            free = unblocked recipe model p current f;
            last = refl;
          })))
        (next-Progress recipe older current (λ i m. (mem-filter (is_older d.generation) own m).0))

  -- On a ready node (nothing of the deployment newer than what is desired, no workload of another
  -- with a recipe that the deployment runs or wants, a machine of the wanted class that has the
  -- wanted model, and no other recipe of its own at the desired generation) `decide` never refuses:
  -- it is done, it launches, or it stops a recipe that the deployment's own workload has.
  pub decide-Progress : Progress d o (decide d o)
  decide-Progress =
      let fresh = fresh_of d o (
        All-tabulate _ (mine d o)
          λ i m g e. let (listed, ours) = mine-listed i m in r.fresh i listed ours g e) in
      subst (Progress d o) (sym (decide_arm d o fresh)) (arm-Progress d.intent r.fits)
