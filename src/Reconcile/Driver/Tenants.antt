-- ===== src/Reconcile/Driver/Tenants.antt =====
-- What converging one deployment leaves of the others on the node
-- (`converge` of crates/metralectl-control/src/reconcile/driver.rs).
use metralectl.Prelude.{ℕ, ◌≡◌, ◌≢◌, ◌∙◌, refl, ap, Bool, true, false, not, List}
use metralectl.Prelude.{
  Option, some, String, map, ◌++◌, All, All-map, filter, filter-filter, filter-append,
  filter-nil_of, All-mem, Memᴰ, eq_iff, arith, [], ◌∷◌,
}
use metralectl.Protocol.{RecipeId}
use metralectl.Reconcile.{is_ours, decide}
use metralectl.Reconcile.Contract.{Desired, Step, Owner, DeploymentName, Generation}
use metralectl.Reconcile.Action.{VerifiedRelease, ControlTrace, Workload, LaunchFor}
use metralectl.Reconcile.Answer.{Control}
use metralectl.Reconcile.Driver.{converge, observed_of, launch_for}
use metralectl.Reconcile.Driver.Attempts.{fetch-keeps}
use metralectl.Reconcile.Driver.Rounds.{Reads, converge-ends}
use metralectl.Reconcile.Safety.{decide-stop}

-- What runs after a launch: the workloads from before, and others with the owner it was given.
pub record Adds (owner : Option Owner) (was is : List Workload) : Type 0 where
  pub front : List Workload
  pub added : List Workload
  pub back : List Workload
  pub from : was ≡ front ++ back
  pub to : is ≡ front ++ (added ++ back)
  pub owned : All (λ x. x.instance.owner ≡ owner) added

-- How the control core changes what runs: fetching an image changes nothing, a stop leaves every
-- workload of another recipe, and a launch adds only workloads with the owner it was given.
pub record IsLawful {W : Type 0} (c : Control W) (r : Reads c) : Type 0 where
  pub fetched : (image : String) (w : W) → r.running (c.fetch_image image w).1 ≡ r.running w
  pub left : RecipeId → W → Workload → Bool
  pub stopped :
      (recipe : RecipeId) (w : W)
      → (r.running (c.stop recipe w).1 ≡ filter (left recipe w) (r.running w))
        × ((x : Workload) → x.instance.recipe ≢ recipe → left recipe w x ≡ true)
  pub launched :
      (recipe : RecipeId) (f : LaunchFor) (w : W)
      → Adds f.owner (r.running w) (r.running (c.launch recipe f w).1)

abbrev pub is_other : DeploymentName → Workload → Bool
is_other ours x = not (is_ours ours x.instance)

-- The workloads that are not the deployment's.
abbrev pub others : DeploymentName → List Workload → List Workload
others ours ws = filter (is_other ours) ws

Mem-instances :
    {x : Workload} (ws : List Workload) → Memᴰ x ws → Memᴰ x.instance (map (λ w. w.instance) ws)
Mem-instances [] m = elim m [ ]
Mem-instances (w ∷ ws) (Memᴰ.head e) = Memᴰ.head (ap (λ x. x.instance) e)
Mem-instances (w ∷ ws) (Memᴰ.tail m) = Memᴰ.tail (Mem-instances ws m)

owned_not_other :
    (ours : DeploymentName) (x : Workload) {g : Generation}
    → x.instance.owner ≡ some (record { deployment = ours; generation = g })
    → is_other ours x ≡ false
owned_not_other ours x e = rw e (ground (arith, eq_iff ours ours))

others-Adds :
    (ours : DeploymentName) {g : Generation} {was is : List Workload}
    → Adds (some (record { deployment = ours; generation = g })) was is
    → others ours is ≡ others ours was
others-Adds ours a =
    let p = is_other ours in
    let own = filter-nil_of p a.added (All-map (λ x e. owned_not_other ours x e) a.added a.owned) in
    rw (
      a.from,
      a.to,
      filter-append p a.front (a.added ++ a.back),
      filter-append p a.added a.back,
      filter-append p a.front a.back,
      own,
    )

module _ {W : Type 0} (c : Control W) (desired : Desired) (release : Option VerifiedRelease)
    (trace : Option ControlTrace) (r : Reads c) (l : IsLawful c r) where
  stop-others :
      (recipe : RecipeId) (w : W)
      → decide desired (observed_of c desired release trace (r.running w)) ≡ Step.stop recipe
      → others desired.deployment (r.running (c.stop recipe w).1)
        ≡ others desired.deployment (r.running w)
  stop-others recipe w e =
      let (kept, law) = l.stopped recipe w in
      let (_, own) = decide-stop desired _ recipe e in
      ap (others desired.deployment) kept
      ∙ filter-filter (is_other desired.deployment) (l.left recipe w) (r.running w) (λ x m other.
        law x
          (λ same. let ours = All-mem _ _ own (Mem-instances (r.running w) m) same in ground arith))

  launch-others :
      (recipe : RecipeId) (w : W)
      → let f = launch_for c desired release trace in
        others desired.deployment (r.running (c.launch recipe f w).1)
        ≡ others desired.deployment (r.running w)
  launch-others recipe w =
      others-Adds desired.deployment (l.launched recipe (launch_for c desired release trace) w)

  -- Over a control core whose observations are true, whose fetches change nothing that runs, whose
  -- stops leave every workload of another recipe, and whose launches add only workloads with the
  -- owner they are given, a convergence of one deployment leaves every workload of the others
  -- running and adds none.
  pub converge-others :
      (max_steps : ℕ) (w : W)
      → others desired.deployment (r.running (converge c desired release trace max_steps w).1)
        ≡ others desired.deployment (r.running w)
  converge-others max_steps w =
      converge-ends c desired release trace r
        (λ n w'. others desired.deployment (r.running w') ≡ others desired.deployment (r.running w))
        (λ y. others desired.deployment (r.running y.1) ≡ others desired.deployment (r.running w))
        (λ n w' x same end. same) (λ n w' recipe same e free. stop-others recipe w' e ∙ same)
        (λ n w' recipe same e free.
          let here =
            fetch-keeps c desired release trace (λ x. r.running x ≡ r.running w') release w'
              (λ image. l.fetched image w') refl in
          let as_seen = ap (others desired.deployment) here ∙ same in
          (as_seen, launch-others recipe _ ∙ as_seen))
        max_steps w refl
