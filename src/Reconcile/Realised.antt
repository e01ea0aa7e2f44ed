-- ===== src/Reconcile/Realised.antt =====
-- When `decide` answers that the desired state is in place, and when that it is out of date.
use metralectl.Prelude.{◌≤◌, ◌≡◌, ◌∙◌, ◌↔◌, sym, refl, true, false, not, arith}
use metralectl.Prelude.{List, [], ◌∷◌}
use metralectl.Prelude.{none, some, String, All, All-tabulate, All-mem, find, filter, Memᴰ}
use metralectl.Prelude.{Option-cases, str_eq, eq_iff, inl, inr, mem-filter, mem-filter_of}
use metralectl.Prelude.{filter-nil, find-none, find-none_of, filter-nil_of, filter-eq_self}
use metralectl.Protocol.{RecipeId}
use metralectl.Reconcile.Contract.{DeploymentName, Generation, Instance, Step, Desired}
use metralectl.Reconcile.Contract.{Observed, Intent, run, stopped, Placement}
use metralectl.Reconcile.{is_ours, generation_of, newest, is_older, is_current, decide}
use metralectl.Reconcile.{stale, decide_intent, decide_stopped, next_step, blocked_by}
use metralectl.Reconcile.Sorting.{stop-ne-converged, newest-mem, decide_arm}
use metralectl.Reconcile.Safety.{mine, not_stale, decide_run-IsCleared, decide_run_of}

-- The node runs what is desired of the deployment: nothing of it, or one generation of one recipe.
abbrev pub Realises : Intent → Desired → Observed → Type 0
Realises stopped d o = All (λ i. is_ours d.deployment i ≡ false) o.instances
Realises (run recipe model p) d o =
    All
      (λ i.
        is_ours d.deployment i ≡ true → (generation_of i ≡ some d.generation) × (i.recipe ≡ recipe))
      o.instances
    × ((i : Instance) × Memᴰ i o.instances × (is_ours d.deployment i ≡ true))

next_step-converged :
    (recipe : RecipeId) (ours : DeploymentName) (instances older current : List Instance)
    → next_step recipe ours instances older current ≡ Step.converged
    → (older ≡ []) × ((i : Instance) × Memᴰ i current)
unfolding next_step
next_step-converged recipe ours instances [] [] e = cc
next_step-converged recipe ours instances [] (c ∷ current) e = (refl, (c, Memᴰ.head refl))
next_step-converged recipe ours instances (i ∷ older) current e =
    absurd (stop-ne-converged i.recipe instances ours e)

is_current-generation :
    (g : Generation) (i : Instance) → is_older g i ≡ false → generation_of i ≡ some g
is_current-generation g i h = elim (Option-cases (generation_of i)) [
  | inl e ↦ absurd (ground arith)
  | inr (k, e) ↦ ground arith
]

sound :
    (d : Desired) (o : Observed) (intent : Intent)
    → decide_intent intent d.generation d.deployment o (mine d o) ≡ Step.converged
    → Realises intent d o
unfolding decide_intent decide_stopped
sound d o stopped e = filter-nil (is_ours d.deployment) o.instances (go (mine d o) e)
  where
    go :
        (own : List Instance)
        → decide_stopped d.deployment o.instances own ≡ Step.converged
        → own ≡ []
    go [] e = refl
    go (i ∷ own) e = absurd (stop-ne-converged i.recipe o.instances d.deployment e)
sound d o (run recipe model p) e =
    let cleared =
      decide_run-IsCleared recipe model p d.generation d.deployment o (mine d o) (λ refusal h. cc)
        e in
    let (no_older, (c, m)) = next_step-converged recipe d.deployment o.instances _ _ cleared.last in
    let (m', _) = mem-filter (is_current d.generation) (mine d o) m in
    let (listed, owned) = mem-filter (is_ours d.deployment) o.instances m' in
    let all_current = filter-nil (is_older d.generation) (mine d o) no_older in
    let same =
      find-none (λ i. not (str_eq i.recipe recipe)) (filter (is_current d.generation) (mine d o))
        cleared.same_recipe in
    (
      All-tabulate _ o.instances λ i listed owned.
          let k = mem-filter_of (is_ours d.deployment) o.instances listed owned in
          let current = All-mem _ (mine d o) all_current k in
          let k' = mem-filter_of (is_current d.generation) (mine d o) k (ground arith) in
          let is = All-mem _ (filter (is_current d.generation) (mine d o)) same k' in
          (is_current-generation d.generation i current, ground (arith, eq_iff i.recipe recipe)),
      (c, listed, owned),
    )

-- A deployment that runs at no newer generation is not out of date.
pub fresh_of :
    (d : Desired) (o : Observed)
    → All (λ i. (g : Generation) → generation_of i ≡ some g → g ≤ d.generation) (mine d o)
    → stale d.generation (newest (mine d o)) ≡ none
fresh_of d o h = elim (Option-cases (newest (mine d o))) [
  | inl e ↦ rw e
  | inr (g, e) ↦
      let (i, m, q) = newest-mem (mine d o) g e in
      let le = All-mem _ (mine d o) h m g q in ground arith
]

next_step-converged_of :
    (recipe : RecipeId) (ours : DeploymentName) (instances current : List Instance) {i : Instance}
    → Memᴰ i current
    → next_step recipe ours instances [] current ≡ Step.converged
unfolding next_step
next_step-converged_of recipe ours instances [] m = elim m [ ]
next_step-converged_of recipe ours instances (c ∷ current) m = refl

blocked_by-none_of :
    (recipe : RecipeId) (model : String) (p : Placement) (o : Observed) (ours : DeploymentName)
    (current : List Instance) {i : Instance}
    → Memᴰ i current
    → blocked_by recipe model p o ours current ≡ none
unfolding blocked_by
blocked_by-none_of recipe model p o ours [] m = elim m [ ]
blocked_by-none_of recipe model p o ours (c ∷ current) m = refl

complete :
    (d : Desired) (o : Observed) (intent : Intent)
    → Realises intent d o
    → (stale d.generation (newest (mine d o)) ≡ none)
      × (decide_intent intent d.generation d.deployment o (mine d o) ≡ Step.converged)
unfolding decide_intent decide_stopped
complete d o stopped h =
    let idle : mine d o ≡ [] = filter-nil_of (is_ours d.deployment) o.instances h in
    rw idle (unfold newest in refl, refl)
complete d o (run recipe model p) (h, (i, m, owned)) =
    let right : All (λ j. (generation_of j ≡ some d.generation) × (j.recipe ≡ recipe)) (mine d o) =
      All-tabulate _ (mine d o) λ j k.
        let (listed, ours) = mem-filter (is_ours d.deployment) o.instances k in
        All-mem _ o.instances h listed ours in
    let fresh = fresh_of d o (
      All-tabulate _ (mine d o)
        λ j k g e. let (at, _) = All-mem _ (mine d o) right k in ground arith) in
    let older : filter (is_older d.generation) (mine d o) ≡ [] = filter-nil_of _ (mine d o) (
      All-tabulate _ (mine d o)
        λ j k. let (at, _) = All-mem _ (mine d o) right k in ground arith) in
    let current : filter (is_current d.generation) (mine d o) ≡ mine d o =
      filter-eq_self _ (mine d o) (
        All-tabulate _ (mine d o)
          λ j k. let (at, _) = All-mem _ (mine d o) right k in ground arith) in
    let same : find (λ j. not (str_eq j.recipe recipe)) (mine d o) ≡ none =
      find-none_of _ (mine d o) (
        All-tabulate _ (mine d o) λ j k.
          let (_, is) = All-mem _ (mine d o) right k in ground (arith, eq_iff j.recipe recipe)) in
    let here : Memᴰ i (mine d o) = mem-filter_of (is_ours d.deployment) o.instances m owned in
    (
      fresh,
      decide_run_of recipe model p d.generation d.deployment o (mine d o) (record {
        same_recipe = rw current same;
        free = rw current (blocked_by-none_of recipe model p o d.deployment (mine d o) here);
        last =
            rw (older, current)
              (next_step-converged_of recipe d.deployment o.instances (mine d o) here);
      }),
    )

-- `decide` answers that the desired state is in place exactly when the node runs nothing of the
-- deployment and nothing is wanted, or when something of it runs and all of it is the desired
-- recipe at the desired generation.
pub decide-converged_iff :
    (d : Desired) (o : Observed) → (decide d o ≡ Step.converged) ↔ Realises d.intent d o
decide-converged_iff d o = (
  λ e.
      let fresh = not_stale d o (λ running h. cc) e in
      sound d o d.intent (sym (decide_arm d o fresh) ∙ e),
  λ h. let (fresh, e) = complete d o d.intent h in decide_arm d o fresh ∙ e,
)
