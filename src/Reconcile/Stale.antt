-- ===== src/Reconcile/Stale.antt =====
-- When `decide` refuses a desired state as out of date.
use metralectl.Prelude.{
  ◌≤◌, ◌<◌, ◌≡◌, ◌≢◌, ◌∙◌, ◌↔◌, ap, sym, refl, Bool, true, false, not, arith, false≢true,
}
use metralectl.Prelude.{List, [], ◌∷◌}
use metralectl.Prelude.{Option, none, some, String, All, All-mem, find, filter, Memᴰ}
use metralectl.Prelude.{Option-cases, str_eq, inl, inr}
use metralectl.Protocol.{RecipeId}
use metralectl.Reconcile.Contract.{DeploymentName, Generation, Instance, Refusal, Step, Desired}
use metralectl.Reconcile.Contract.{Observed, Intent, run, stopped, Placement}
use metralectl.Reconcile.{generation_of, newest, is_older, is_current, decide, stop, max_option}
use metralectl.Reconcile.{stale, decide_intent, decide_run, decide_stopped, next_step, blocked_by}
use metralectl.Reconcile.Sorting.{newest-mem, newest-ge, decide_arm}
use metralectl.Reconcile.Safety.{mine}

abbrev is_stale : Step → Bool
is_stale (Step.refuse (Refusal.stale_generation g)) = true
is_stale s = false

stop-stale :
    (recipe : RecipeId) (instances : List Instance) (ours : DeploymentName)
    → is_stale (stop recipe instances ours) ≡ false
unfolding stop
stop-stale recipe instances ours = ground arith

next_step-stale :
    (recipe : RecipeId) (ours : DeploymentName) (instances older current : List Instance)
    → is_stale (next_step recipe ours instances older current) ≡ false
unfolding next_step
next_step-stale recipe ours instances [] [] = refl
next_step-stale recipe ours instances [] (c ∷ current) = refl
next_step-stale recipe ours instances (i ∷ older) current = stop-stale i.recipe instances ours

abbrev is_stale_refusal : Option Refusal → Bool
is_stale_refusal (some (Refusal.stale_generation g)) = true
is_stale_refusal r = false

is_stale-refuse : (r : Refusal) → is_stale (Step.refuse r) ≡ is_stale_refusal (some r)
is_stale-refuse (Refusal.stale_generation g) = refl
is_stale-refuse r = refl

blocked_by-stale :
    (recipe : RecipeId) (model : String) (p : Placement) (o : Observed) (ours : DeploymentName)
    (current : List Instance)
    → is_stale_refusal (blocked_by recipe model p o ours current) ≡ false
unfolding blocked_by
blocked_by-stale recipe model p o ours [] = ground arith
blocked_by-stale recipe model p o ours (c ∷ current) = refl

decide_run-stale :
    (recipe : RecipeId) (model : String) (p : Placement) (g : Generation) (ours : DeploymentName)
    (o : Observed) (own : List Instance)
    → is_stale (decide_run recipe model p g ours o own) ≡ false
unfolding decide_run
decide_run-stale recipe model p g ours o own =
    elim (Option-cases (find (λ i. not (str_eq i.recipe recipe)) (filter (is_current g) own))) [
      | inr (i, found) ↦ rw (found, decide_run)
      | inl same ↦
          elim (Option-cases (blocked_by recipe model p o ours (filter (is_current g) own))) [
            | inr (refusal, blocked) ↦
                rw (same, blocked, decide_run)
                  (is_stale-refuse refusal
                    ∙ rw blocked at
                        (blocked_by-stale recipe model p o ours (filter (is_current g) own)))
            | inl free ↦
                rw (same, free, decide_run)
                  (next_step-stale recipe ours o.instances (filter (is_older g) own)
                    (filter (is_current g) own))
          ]
    ]

decide_intent-stale :
    (intent : Intent) (g : Generation) (ours : DeploymentName) (o : Observed) (own : List Instance)
    → is_stale (decide_intent intent g ours o own) ≡ false
unfolding decide_intent decide_stopped
decide_intent-stale stopped g ours o [] = refl
decide_intent-stale stopped g ours o (i ∷ own) = stop-stale i.recipe o.instances ours
decide_intent-stale (run recipe model p) g ours o own = decide_run-stale recipe model p g ours o own

max_option-none : (a b : Option Generation) → max_option a b ≡ none → (a ≡ none) × (b ≡ none)
max_option-none none b e = (refl, e)
max_option-none (some a) none e = absurd (cc)
max_option-none (some a) (some b) e = absurd (cc)

newest-ne-none :
    (is : List Instance) {i : Instance} {g : Generation}
    → Memᴰ i is
    → generation_of i ≡ some g
    → newest is ≢ none
unfolding newest
newest-ne-none [] m e h = elim m [ ]
newest-ne-none (j ∷ is) (Memᴰ.head same) e h =
    let first = (max_option-none (generation_of j) (newest is) h).0 in cc (ap generation_of same)
newest-ne-none (j ∷ is) (Memᴰ.tail m) e h =
    newest-ne-none is m e (max_option-none (generation_of j) (newest is) h).1

-- `g` is the newest generation of the deployment that runs here.
pub record IsNewest (d : Desired) (o : Observed) (g : Generation) : Type 0 where
  pub at : Instance
  pub listed : Memᴰ at (mine d o)
  pub runs : generation_of at ≡ some g
  pub newest_of_all : All (λ i. (h : Generation) → generation_of i ≡ some h → h ≤ g) (mine d o)

newest-eq-some :
    (d : Desired) (o : Observed) (g : Generation) → newest (mine d o) ≡ some g → IsNewest d o g
newest-eq-some d o g e =
    let (i, m, q) = newest-mem (mine d o) g e in
    record {
      at = i;
      listed = m;
      runs = q;
      newest_of_all = newest-ge (mine d o) g (rw e (ground arith));
    }

IsNewest-newest :
    (d : Desired) (o : Observed) (g : Generation) → IsNewest d o g → newest (mine d o) ≡ some g
IsNewest-newest d o g n = elim (Option-cases (newest (mine d o))) [
  | inl e ↦ absurd (newest-ne-none (mine d o) n.listed n.runs e)
  | inr (h, e) ↦
      let other = newest-eq-some d o h e in
      let down = All-mem _ (mine d o) n.newest_of_all other.listed h other.runs in
      let up = All-mem _ (mine d o) other.newest_of_all n.listed g n.runs in
      let same : h ≡ g = omega arith in e ∙ ap some same
]

stale-eq-some :
    (g k : Generation) (running : Option Generation)
    → (stale g running ≡ some k) ↔ ((running ≡ some k) × (g < k))
stale-eq-some g k none = ((λ e. absurd (cc)), (λ e. absurd (cc)))
stale-eq-some g k (some h) = ((λ e. ground arith), (λ e. ground arith))

refuse-injective :
    {g h : Generation}
    → Step.refuse (Refusal.stale_generation g) ≡ Step.refuse (Refusal.stale_generation h)
    → g ≡ h
refuse-injective e = cc

decide-stale :
    (d : Desired) (o : Observed) (g : Generation)
    → stale d.generation (newest (mine d o)) ≡ some g
    → decide d o ≡ Step.refuse (Refusal.stale_generation g)
unfolding decide
decide-stale d o g e = rw (e, decide)

-- A desired state is refused as out of date exactly when the newest generation of the deployment
-- that runs here is newer than the desired one, whatever is wanted, and the refusal names it.
pub decide-stale_iff :
    (d : Desired) (o : Observed) (g : Generation)
    → (decide d o ≡ Step.refuse (Refusal.stale_generation g))
      ↔ (IsNewest d o g × (d.generation < g))
decide-stale_iff d o g = (to, from)
  where
    to : decide d o ≡ Step.refuse (Refusal.stale_generation g) → IsNewest d o g × (d.generation < g)
    to e = elim (Option-cases (stale d.generation (newest (mine d o)))) [
      | inl fresh ↦ absurd (
          false≢true (
            sym (decide_intent-stale d.intent d.generation d.deployment o (mine d o))
            ∙ ap is_stale (sym (decide_arm d o fresh) ∙ e)))
      | inr (k, newer) ↦
          let same : k ≡ g = refuse-injective (sym (decide-stale d o k newer) ∙ e) in
          let (running, lt) = (stale-eq-some d.generation k (newest (mine d o))).0 newer in
          (newest-eq-some d o g (running ∙ ap some same), rw (← same) lt)
    ]

    from :
        IsNewest d o g × (d.generation < g) → decide d o ≡ Step.refuse (Refusal.stale_generation g)
    from (n, newer) =
        decide-stale d o g
          ((stale-eq-some d.generation g (newest (mine d o))).1 (IsNewest-newest d o g n, newer))
