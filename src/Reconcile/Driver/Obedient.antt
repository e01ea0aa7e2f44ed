-- ===== src/Reconcile/Driver/Obedient.antt =====
-- A launcher that does as it is asked, and what its stops leave of a ready node: the control core
-- that `converge` of crates/metralectl-control/src/reconcile/driver.rs counts on.
use metralectl.Prelude.{◌≢◌, All, Option, some, ◌≤◌, ◌<◌, ◌≡◌, ◌⊎◌, Bool, true, false, not, arith}
use metralectl.Prelude.{List, [], ◌∷◌, none, String, Memᴰ, map, filter, length, str_eq, ◌∙◌}
use metralectl.Protocol.{RecipeId, ok}
use metralectl.Reconcile.Contract.{Desired, Instance, Intent, Observed, Placement, run, stopped}
use metralectl.Reconcile.Action.{Started, Workload, VerifiedRelease, ControlTrace, is_open}
use metralectl.Reconcile.Answer.{Control}
use metralectl.Reconcile.Ready.{IsReady, Fits}
use metralectl.Reconcile.Driver.{launch_for}
use metralectl.Reconcile.Driver.Rounds.{Reads}

-- Whether an instance is of another recipe.
abbrev pub is_other : RecipeId → Instance → Bool
is_other recipe i = not (str_eq i.recipe recipe)

abbrev pub instances_of : List Workload → List Instance
instances_of ws = map (λ (w : Workload). w.instance) ws

-- What a launch that starts `new` leaves of `old`: both, and nothing else.
pub record Adds (new : Instance) (old left : List Instance) : Type 0 where
  pub listed : Memᴰ new left
  pub kept : (i : Instance) → Memᴰ i left → (i ≡ new) ⊎ Memᴰ i old

-- What a convergence counts on: a node that is open and answers what runs, a launcher that fetches
-- the release's image, that launches the wanted recipe for the deployment where nothing of the recipe
-- runs, and that stops what it is asked to. A launch of what runs already may fail, and so may one of
-- another recipe or for another owner.
pub record Obeys {W : Type 0} (c : Control W) (r : Reads c) (desired : Desired)
    (release : Option VerifiedRelease) (trace : Option ControlTrace) : Type 0 where
  pub answers : (w : W) → c.workloads w ≡ (ok (r.running w), w)
  pub opened : (w : W) → c.admission w ≡ is_open
  pub fetched :
      (v : VerifiedRelease) (w : W) → release ≡ some v → (c.fetch_image v.image w).0 ≡ none
  pub unmoved :
      (v : VerifiedRelease) (w : W)
      → release ≡ some v
      → r.running (c.fetch_image v.image w).1 ≡ r.running w
  pub launched :
      (recipe : RecipeId) (model : String) (p : Placement) (w : W)
      → desired.intent ≡ run recipe model p
      → All (λ i. i.recipe ≢ recipe) (instances_of (r.running w))
      → let lf = launch_for c desired release trace in
        ((s : Started) × ((c.launch recipe lf w).0 ≡ ok s))
        × Adds
            (record { recipe = recipe; owner = lf.owner })
            (instances_of (r.running w))
            (instances_of (r.running (c.launch recipe lf w).1))
  pub stops :
      (recipe : RecipeId) (w : W)
      → ((c.stop recipe w).0 ≡ ok tt)
        × (instances_of (r.running (c.stop recipe w).1)
            ≡ filter (is_other recipe) (instances_of (r.running w)))

length-filter-filter :
    (p q : Instance → Bool) (is : List Instance)
    → length (filter p (filter q is)) ≤ length (filter p is)
length-filter-filter p q [] = omega arith
length-filter-filter p q (i ∷ is) = let h = length-filter-filter p q is in ground (arith, h)

-- Filtering out one of one's own leaves fewer.
pub length-filter_without :
    (p q : Instance → Bool) (is : List Instance) {i : Instance}
    → Memᴰ i is
    → p i ≡ true
    → q i ≡ false
    → length (filter p (filter q is)) < length (filter p is)
length-filter_without p q [] m own out = elim m [ ]
length-filter_without p q (j ∷ is) (Memᴰ.head e) own out =
    let h = length-filter-filter p q is in
    let own' : p j ≡ true = rw e at own in let out' : q j ≡ false = rw e at out in ground (arith, h)
length-filter_without p q (j ∷ is) (Memᴰ.tail m) own out =
    let h = length-filter_without p q is m own out in ground (arith, h)

-- Stopping keeps a node ready.
pub IsReady-filter :
    (d : Desired) (o o' : Observed)
    → ((i : Instance) → Memᴰ i o'.instances → Memᴰ i o.instances)
    → o'.accelerator ≡ o.accelerator
    → o'.recipe_model ≡ o.recipe_model
    → IsReady d o
    → IsReady d o'
IsReady-filter d o o' within same_gpu same_model h = record {
  fresh = λ i m. h.fresh i (within i m);
  unshared = λ i j m n. h.unshared i j (within i m) (within j n);
  fits = fits_within d.intent h.fits;
}
  where
    fits_within : (intent : Intent) → Fits intent d o → Fits intent d o'
    fits_within stopped f = tt
    fits_within (run recipe model p) (placed, serves, alone, current) = (
      rw same_gpu placed,
      same_model ∙ serves,
      (λ j m. alone j (within j m)),
      (λ i m. current i (within i m)),
    )
