-- ===== src/Reconcile/Sorting.antt =====
-- The parts of `decide`: the deployment's own workloads by generation, and what a stop reaches.
use metralectl.Prelude.{◌≤◌, ◌≡◌, refl, true, arith, List, [], ◌∷◌}
use metralectl.Prelude.{Option, none, some, All, All-tabulate, All-mem, find-none, filter, Memᴰ}
use metralectl.Prelude.{Option-cases, eq_iff, ◌⊎◌, inl, inr}
use metralectl.Protocol.{RecipeId}
use metralectl.Reconcile.Contract.{DeploymentName, Generation, Instance, Step, Desired}
use metralectl.Reconcile.Contract.{Observed}
use metralectl.Reconcile.{is_ours, generation_of, is_foreign, foreign, newest, stop, decide}
use metralectl.Reconcile.{stale, decide_intent, max_option}

-- No workload of `recipe` is another's.
abbrev pub IsOwnRecipe : DeploymentName → RecipeId → List Instance → Type 0
IsOwnRecipe ours recipe instances = All (λ i. i.recipe ≡ recipe → is_ours ours i ≡ true) instances

pub foreign-none :
    (recipe : RecipeId) (instances : List Instance) (ours : DeploymentName)
    → foreign recipe instances ours ≡ none
    → IsOwnRecipe ours recipe instances
unfolding foreign
foreign-none recipe instances ours e = All-tabulate _ instances λ i m same.
    let out = All-mem _ instances (find-none (is_foreign recipe ours) instances e) m in
    ground (arith, eq_iff i.recipe recipe)

pub stop-eq-stop :
    (recipe r : RecipeId) (instances : List Instance) (ours : DeploymentName)
    → stop recipe instances ours ≡ Step.stop r
    → (recipe ≡ r) × (foreign recipe instances ours ≡ none)
unfolding stop
stop-eq-stop recipe r instances ours e = ground arith

pub stop-ne-launch :
    (recipe r : RecipeId) (instances : List Instance) (ours : DeploymentName)
    → stop recipe instances ours ≡ Step.launch r
    → ⊥
unfolding stop
stop-ne-launch recipe r instances ours e = ground arith

pub stop-ne-converged :
    (recipe : RecipeId) (instances : List Instance) (ours : DeploymentName)
    → stop recipe instances ours ≡ Step.converged
    → ⊥
unfolding stop
stop-ne-converged recipe instances ours e = ground arith

-- The generation of a workload of the deployment's own.
pub generation_of-own :
    (ours : DeploymentName) (i : Instance)
    → is_ours ours i ≡ true
    → (g : Generation) × (generation_of i ≡ some g)
generation_of-own ours i h = elim (Option-cases i.owner) [
  | inl e ↦ absurd (ground arith)
  | inr (o, e) ↦ (o.generation, rw e)
]

stale-max :
    (g : Generation) (a b : Option Generation)
    → stale g (max_option a b) ≡ none
    → ((h : Generation) → a ≡ some h → h ≤ g) × (stale g b ≡ none)
stale-max g none b e = ((λ h k. absurd (cc)), e)
stale-max g (some a) none e = ((λ h k. ground arith), refl)
stale-max g (some a) (some b) e = ((λ h k. ground arith), ground arith)

max_option-cases :
    (a b : Option Generation) {g : Generation}
    → max_option a b ≡ some g
    → (a ≡ some g) ⊎ (b ≡ some g)
max_option-cases none b e = inr e
max_option-cases (some a) none e = inl e
max_option-cases (some a) (some b) e = ground arith

pub newest-ge :
    (is : List Instance) (g : Generation)
    → stale g (newest is) ≡ none
    → All (λ i. (h : Generation) → generation_of i ≡ some h → h ≤ g) is
unfolding newest
newest-ge [] g e = tt
newest-ge (i ∷ is) g e =
    let (here, later) = stale-max g (generation_of i) (newest is) e in (here, newest-ge is g later)

pub newest-mem :
    (is : List Instance) (g : Generation)
    → newest is ≡ some g
    → (i : Instance) × Memᴰ i is × (generation_of i ≡ some g)
unfolding newest
newest-mem [] g e = cc
newest-mem (i ∷ is) g e = elim (max_option-cases (generation_of i) (newest is) e) [
  | inl here ↦ (i, Memᴰ.head refl, here)
  | inr later ↦ let (j, m, q) = newest-mem is g later in (j, Memᴰ.tail m, q)
]

-- Past the check for a newer generation, `decide` is the arm of its intent.
pub decide_arm :
    (d : Desired) (o : Observed)
    → stale d.generation (newest (filter (is_ours d.deployment) o.instances)) ≡ none
    → decide d o
      ≡ decide_intent d.intent d.generation d.deployment o
          (filter (is_ours d.deployment) o.instances)
unfolding decide
decide_arm d o e = rw (e, decide)
