-- ===== src/Reconcile/Safety.antt =====
-- What `decide` may ask for: a stop reaches the deployment's own outdated workloads and nothing
-- else, and a launch starts where nothing of the deployment or of the recipe runs.
use metralectl.Prelude.{◌<◌, ◌≡◌, ◌≢◌, ◌∙◌, sym, refl, Bool, true, false, not, arith, List, [], ◌∷◌}
use metralectl.Prelude.{none, some, String, All, All-tabulate, All-mem, find, filter, Memᴰ}
use metralectl.Prelude.{Option-cases, str_eq, eq_iff, ◌⊎◌, inl, inr, mem-filter}
use metralectl.Prelude.{filter-nil, false≢true}
use metralectl.Protocol.{RecipeId}
use metralectl.Reconcile.Contract.{DeploymentName, Generation, Instance, Refusal, Step, Desired}
use metralectl.Reconcile.Contract.{Observed, Intent, run, stopped, Placement}
use metralectl.Reconcile.{is_ours, generation_of, foreign, newest, is_older, is_current, decide}
use metralectl.Reconcile.{stale, decide_intent, decide_run, decide_stopped, next_step, blocked_by}
use metralectl.Reconcile.{launch_blocked, misplaced}
use metralectl.Reconcile.Sorting.{IsOwnRecipe, foreign-none, stop-eq-stop, stop-ne-launch}
use metralectl.Reconcile.Sorting.{generation_of-own, newest-ge, decide_arm}

abbrev pub mine : Desired → Observed → List Instance
mine d o = filter (is_ours d.deployment) o.instances

-- A workload that a stop is asked for: the deployment's own, and older than what is desired if
-- anything is to run.
pub record IsOutdated (d : Desired) (o : Observed) (r : RecipeId) : Type 0 where
  pub own : Instance
  pub listed : Memᴰ own o.instances
  pub owned : is_ours d.deployment own ≡ true
  pub runs : own.recipe ≡ r
  pub old :
      (d.intent ≡ stopped) ⊎ ((g : Generation) × (generation_of own ≡ some g) × (g < d.generation))

-- The check for a newer generation passed.
pub not_stale :
    (d : Desired) (o : Observed) {s : Step}
    → ((running : Generation) → s ≢ Step.refuse (Refusal.stale_generation running))
    → decide d o ≡ s
    → stale d.generation (newest (mine d o)) ≡ none
unfolding decide
not_stale d o other e = elim (Option-cases (stale d.generation (newest (mine d o)))) [
  | inl fresh ↦ fresh
  | inr (running, newer) ↦ absurd (other running (sym (rw (newer, decide) at e)))
]

older_of :
    (d : Desired) (o : Observed) (i : Instance)
    → stale d.generation (newest (mine d o)) ≡ none
    → Memᴰ i (mine d o)
    → is_older d.generation i ≡ true
    → (g : Generation) × (generation_of i ≡ some g) × (g < d.generation)
older_of d o i fresh m old =
    let (g, e) = generation_of-own d.deployment i (mem-filter _ o.instances m).1 in
    let le = All-mem _ (mine d o) (newest-ge (mine d o) d.generation fresh) m g e in
    (g, e, ground arith)

next_step-stop :
    (recipe r : RecipeId) (ours : DeploymentName) (instances older current : List Instance)
    → next_step recipe ours instances older current ≡ Step.stop r
    → (i : Instance) × Memᴰ i older × (i.recipe ≡ r) × (foreign r instances ours ≡ none)
unfolding next_step
next_step-stop recipe r ours instances [] [] e = cc
next_step-stop recipe r ours instances [] (c ∷ current) e = cc
next_step-stop recipe r ours instances (i ∷ older) current e =
    let (same, alone) = stop-eq-stop i.recipe r instances ours e in
    (i, Memᴰ.head refl, same, rw (← same) alone)

next_step-launch :
    (recipe r : RecipeId) (ours : DeploymentName) (instances older current : List Instance)
    → next_step recipe ours instances older current ≡ Step.launch r
    → (older ≡ []) × (current ≡ []) × (recipe ≡ r)
unfolding next_step
next_step-launch recipe r ours instances [] [] e = (refl, refl, ground arith)
next_step-launch recipe r ours instances [] (c ∷ current) e = cc
next_step-launch recipe r ours instances (i ∷ older) current e =
    absurd (stop-ne-launch i.recipe r instances ours e)

-- Where a `Run` is not refused, its checks passed and the last match decides.
pub record IsCleared (recipe : RecipeId) (model : String) (p : Placement) (g : Generation)
    (ours : DeploymentName) (o : Observed) (own : List Instance) (s : Step) : Type 0 where
  pub same_recipe : find (λ i. not (str_eq i.recipe recipe)) (filter (is_current g) own) ≡ none
  pub free : blocked_by recipe model p o ours (filter (is_current g) own) ≡ none
  pub last :
      next_step recipe ours o.instances (filter (is_older g) own) (filter (is_current g) own) ≡ s

pub decide_run-IsCleared :
    (recipe : RecipeId) (model : String) (p : Placement) (g : Generation) (ours : DeploymentName)
    (o : Observed) (own : List Instance) {s : Step}
    → ((refusal : Refusal) → s ≢ Step.refuse refusal)
    → decide_run recipe model p g ours o own ≡ s
    → IsCleared recipe model p g ours o own s
unfolding decide_run
decide_run-IsCleared recipe model p g ours o own {s} other e =
    elim (Option-cases (find (λ i. not (str_eq i.recipe recipe)) (filter (is_current g) own))) [
      | inr (i, found) ↦ absurd (other _ (sym (rw (found, decide_run) at e)))
      | inl same ↦
          elim (Option-cases (blocked_by recipe model p o ours (filter (is_current g) own))) [
            | inr (refusal, blocked) ↦
                absurd (other refusal (sym (rw (same, blocked, decide_run) at e)))
            | inl free ↦ record {
              same_recipe = same;
              free = free;
              last = rw (same, free, decide_run) at e;
            }
          ]
    ]

decide_stopped-stop :
    (ours : DeploymentName) (instances own : List Instance) (r : RecipeId)
    → decide_stopped ours instances own ≡ Step.stop r
    → (i : Instance) × Memᴰ i own × (i.recipe ≡ r) × (foreign r instances ours ≡ none)
unfolding decide_stopped
decide_stopped-stop ours instances [] r e = cc
decide_stopped-stop ours instances (i ∷ own) r e =
    let (same, alone) = stop-eq-stop i.recipe r instances ours e in
    (i, Memᴰ.head refl, same, rw (← same) alone)

decide_intent-stop :
    (d : Desired) (o : Observed) (intent : Intent) (r : RecipeId)
    → d.intent ≡ intent
    → stale d.generation (newest (mine d o)) ≡ none
    → decide_intent intent d.generation d.deployment o (mine d o) ≡ Step.stop r
    → IsOutdated d o r × IsOwnRecipe d.deployment r o.instances
unfolding decide_intent
decide_intent-stop d o stopped r to fresh e =
    let (i, m, same, alone) = decide_stopped-stop d.deployment o.instances (mine d o) r e in
    let (listed, owned) = mem-filter (is_ours d.deployment) o.instances m in
    (
      record { own = i; listed = listed; owned = owned; runs = same; old = inl to },
      foreign-none r o.instances d.deployment alone,
    )
decide_intent-stop d o (run recipe model p) r to fresh e =
    let cleared =
      decide_run-IsCleared recipe model p d.generation d.deployment o (mine d o) (λ refusal h. cc)
        e in
    let (i, m, same, alone) = next_step-stop recipe r d.deployment o.instances _ _ cleared.last in
    let (m', old) = mem-filter (is_older d.generation) (mine d o) m in
    let (listed, owned) = mem-filter (is_ours d.deployment) o.instances m' in
    (
      record {
        own = i;
        listed = listed;
        owned = owned;
        runs = same;
        old = inr (older_of d o i fresh m' old);
      },
      foreign-none r o.instances d.deployment alone,
    )

-- A stop is asked for only of a recipe that the deployment itself runs at an older generation, or
-- runs although nothing is wanted, and every running workload of that recipe is the deployment's.
pub decide-stop :
    (d : Desired) (o : Observed) (r : RecipeId)
    → decide d o ≡ Step.stop r
    → IsOutdated d o r × IsOwnRecipe d.deployment r o.instances
decide-stop d o r e =
    let fresh = not_stale d o (λ running h. cc) e in
    decide_intent-stop d o d.intent r refl fresh (sym (decide_arm d o fresh) ∙ e)

-- What holds where a launch is asked for.
pub record IsClear (d : Desired) (o : Observed) (r : RecipeId) : Type 0 where
  pub model : String
  pub placement : Placement
  pub wanted : d.intent ≡ run r model placement
  pub placed : misplaced placement o.accelerator ≡ none
  pub serves : o.recipe_model ≡ some model
  pub none_ours : All (λ i. is_ours d.deployment i ≡ false) o.instances
  pub none_running : All (λ i. i.recipe ≢ r) o.instances

filter-split-nil :
    (p : Instance → Bool) (xs : List Instance)
    → filter (λ i. not (p i)) xs ≡ []
    → filter p xs ≡ []
    → xs ≡ []
filter-split-nil p [] e f = refl
filter-split-nil p (x ∷ xs) e f = ground arith

pub launch_blocked-none :
    (recipe : RecipeId) (model : String) (p : Placement) (o : Observed) (ours : DeploymentName)
    → launch_blocked recipe model p o ours ≡ none
    → (misplaced p o.accelerator ≡ none)
      × (o.recipe_model ≡ some model)
      × (foreign recipe o.instances ours ≡ none)
unfolding launch_blocked
launch_blocked-none recipe model p o ours e = elim (Option-cases o.recipe_model) [
  | inl missing ↦ absurd (ground arith)
  | inr (here, known) ↦ ground (arith, eq_iff here model)
]

decide_intent-launch :
    (d : Desired) (o : Observed) (intent : Intent) (r : RecipeId)
    → d.intent ≡ intent
    → decide_intent intent d.generation d.deployment o (mine d o) ≡ Step.launch r
    → IsClear d o r
unfolding decide_intent decide_stopped
decide_intent-launch d o stopped r to e = absurd (go (mine d o) e)
  where
    go : (own : List Instance) → decide_stopped d.deployment o.instances own ≡ Step.launch r → ⊥
    go [] e = cc
    go (i ∷ own) e = stop-ne-launch i.recipe r o.instances d.deployment e
decide_intent-launch d o (run recipe model p) r to e =
    let cleared =
      decide_run-IsCleared recipe model p d.generation d.deployment o (mine d o) (λ refusal h. cc)
        e in
    let (no_older, no_current, same) =
      next_step-launch recipe r d.deployment o.instances _ _ cleared.last in
    let free : launch_blocked recipe model p o d.deployment ≡ none =
      unfold blocked_by in (rw no_current at cleared.free) in
    let (placed, serves, alone) = launch_blocked-none recipe model p o d.deployment free in
    let idle =
      filter-nil (is_ours d.deployment) o.instances
        (filter-split-nil (is_current d.generation) (mine d o) no_older no_current) in
    record {
      model = model;
      placement = p;
      wanted = rw (← same) to;
      placed = placed;
      serves = serves;
      none_ours = idle;
      none_running = All-tabulate _ o.instances λ i m runs.
          let ours = foreign-none recipe o.instances d.deployment alone in
          let is : is_ours d.deployment i ≡ true = All-mem _ o.instances ours m (runs ∙ sym same) in
          let not : is_ours d.deployment i ≡ false = All-mem _ o.instances idle m in
          false≢true (sym not ∙ is);
    }

-- A launch is asked for only where the recipe, the model and the placement are the desired ones and
-- fit this node, and neither the deployment nor anyone else runs anything that it would touch.
pub decide-launch :
    (d : Desired) (o : Observed) (r : RecipeId) → decide d o ≡ Step.launch r → IsClear d o r
decide-launch d o r e =
    let fresh = not_stale d o (λ running h. cc) e in
    decide_intent-launch d o d.intent r refl (sym (decide_arm d o fresh) ∙ e)

-- Conversely the last match decides where the checks pass.
pub decide_run_of :
    (recipe : RecipeId) (model : String) (p : Placement) (g : Generation) (ours : DeploymentName)
    (o : Observed) (own : List Instance) {s : Step}
    → IsCleared recipe model p g ours o own s
    → decide_run recipe model p g ours o own ≡ s
unfolding decide_run
decide_run_of recipe model p g ours o own c = rw (c.same_recipe, c.free, decide_run) c.last
