-- ===== src/LocalControl/Served.antt =====
-- A control core over a launcher that refuses a recipe of which something runs already, and a
-- convergence through it.
use metralectl.Prelude.{
  ◌≡◌, ◌≢◌, refl, sym, Bool, true, false, any, List, [], ◌∷◌, none, some, filter, str_eq,
}
use metralectl.Prelude.{All, Memᴰ, inl, inr, subst, eq_iff, arith, if◌then◌else◌, false≢true}
use metralectl.Prelude.{◌≤◌}
use metralectl.Protocol.{RecipeId, Result, ok, err}
use metralectl.Protocol.{AgentError}
use metralectl.Hardware.{check, classify}
use metralectl.Settings.Gate.{validate}
use metralectl.Reconcile.{is_ours, is_current, generation_of}
use metralectl.Reconcile.Contract.{Instance, Generation}
use metralectl.Reconcile.Action.{Started, Workload, admits, is_open}
use metralectl.Reconcile.Answer.{Control}
use metralectl.Reconcile.Ready.{IsReady}
use metralectl.Reconcile.Driver.{launch_for, converge, observed_of}
use metralectl.Reconcile.Driver.Rounds.{Reads}
use metralectl.Reconcile.Driver.Outcome.{succeeds, IsServed}
use metralectl.Reconcile.Driver.Obedient.{Obeys, Adds, instances_of, is_other}
use metralectl.Reconcile.Driver.Liveness.{converge-IsServed}
use metralectl.LocalControl
use metralectl.LocalControl.{launch, gates, workloads, fetch_image}
use metralectl.LocalControl.Recipes.{launchable}
use metralectl.LocalControl.Ports.{completed, Local}
use metralectl.LocalControl.Core.{core_of}
use metralectl.LocalControl.Tests.{
  Machine, recipe, started, other_recipe, launcher, machine, wants, verified, running, theirs,
  older,
}

abbrev runs : RecipeId → Machine → Bool
runs id w = any (λ (x : Workload). str_eq x.instance.recipe id) w.containers

abbrev strict : Local Machine
strict = record machine {
  launcher = record launcher {
    launch = λ r o f w.
        if runs r.name w then (completed (err (AgentError.already_running r.name)), w) else (
          completed (ok (record { container = "c1"; endpoint = none })),
          record { containers = started r f ∷ w.containers; gate = w.gate },
        );
  };
  admission = λ w. is_open;
}

abbrev core : Control Machine
core = core_of strict

core_reads : Reads core
unfolding workloads
core_reads = record { running = λ w. w.containers; reads = λ w. inl refl }

none_runs :
    (id : RecipeId) (ws : List Workload)
    → All (λ i. i.recipe ≢ id) (instances_of ws)
    → any (λ (x : Workload). str_eq x.instance.recipe id) ws ≡ false
none_runs id [] clear = refl
none_runs id (x ∷ ws) (differs, clear) =
    ground (arith, none_runs id ws clear, eq_iff x.instance.recipe id)

instances-filter :
    (id : RecipeId) (w : Machine)
    → instances_of (filter (other_recipe id w) w.containers)
      ≡ filter (is_other id) (instances_of w.containers)
instances-filter id w = each w.containers
  where
    each :
        (ws : List Workload)
        → instances_of (filter (other_recipe id w) ws) ≡ filter (is_other id) (instances_of ws)
    each [] = refl
    each (x ∷ ws) = let e = each ws in ground (arith, e)

launched_here :
    (w : Machine)
    → runs "gpt-oss-20b" w ≡ false
    → core.launch "gpt-oss-20b" (launch_for core wants (some verified) none) w ≡ (
      ok (record { container = "c1"; endpoint = none }),
      record {
        containers = started recipe (launch_for core wants (some verified) none) ∷ w.containers;
        gate = w.gate;
      },
    )
unfolding launch launchable check classify validate admits
launched_here w free = rw free refl

-- What a launch of a recipe comes to, as the reconciler counts on it.
abbrev StartedBy : RecipeId → Machine → Result Started × Machine → Type 0
StartedBy id w x =
    ((s : Started) × (x.0 ≡ ok s))
    × Adds (record { recipe = id; owner = (launch_for core wants (some verified) none).owner })
        (instances_of w.containers) (instances_of x.1.containers)

launched-StartedBy :
    (w : Machine)
    → runs "gpt-oss-20b" w ≡ false
    → StartedBy "gpt-oss-20b" w
        (core.launch "gpt-oss-20b" (launch_for core wants (some verified) none) w)
launched-StartedBy w free = subst (StartedBy "gpt-oss-20b" w) (sym (launched_here w free)) (
  (_, refl),
  record {
    listed = Memᴰ.head refl;
    kept = λ i m. elim m [ Memᴰ.head e ↦ inl e | Memᴰ.tail k ↦ inr k ];
  },
)

core-Obeys : Obeys core core_reads wants (some verified) none
unfolding core_reads LocalControl.stop fetch_image workloads
core-Obeys = record {
  answers = λ w. refl;
  opened = λ w. refl;
  fetched = λ v w is. refl;
  unmoved = λ v w is. refl;
  launched = λ id model p w wanted clear.
      let same : "gpt-oss-20b" ≡ id = ground arith in
      subst (λ n. StartedBy n w (core.launch n (launch_for core wants (some verified) none) w)) same
        (launched-StartedBy w (
          none_runs "gpt-oss-20b" w.containers
            (subst (λ n. All (λ i. i.recipe ≢ n) (instances_of w.containers)) (sym same) clear)));
  stops = λ id w. (refl, instances-filter id w);
}

-- Each of the two that run, the other deployment's first.
each_running :
    (P : Instance → Type 0)
    → P theirs.instance
    → P older.instance
    → (i : Instance) → Memᴰ i (instances_of running.containers)
    → P i
each_running P p q i (Memᴰ.head e) = subst P (sym e) p
each_running P p q i (Memᴰ.tail (Memᴰ.head e)) = subst P (sym e) q
each_running P p q i (Memᴰ.tail (Memᴰ.tail m)) = elim m [ ]

not_same : theirs.instance.recipe ≢ "gpt-oss-20b"
not_same e = false≢true ((eq_iff "b" "gpt-oss-20b").1 e)

running-IsReady : IsReady wants (observed_of core wants (some verified) none running.containers)
unfolding core_reads LocalControl.recipe_model
running-IsReady = record {
  fresh =
      each_running (λ i. is_ours "d" i ≡ true → (g : Generation) → generation_of i ≡ some g → g ≤ 2)
        (λ k g e. absurd (false≢true k)) (λ k g e. ground (arith, e));
  unshared = λ i j m n k.
      each_running (λ i. is_ours "d" i ≡ true → is_ours "d" j ≡ false → j.recipe ≢ i.recipe)
        (λ own. absurd (false≢true own))
        (λ own.
          each_running (λ j. is_ours "d" j ≡ false → j.recipe ≢ "gpt-oss-20b") (λ other. not_same)
            (λ other. absurd (false≢true (sym other))) j n)
        i m k;
  fits = (
    refl,
    refl,
    each_running (λ j. is_ours "d" j ≡ false → j.recipe ≢ "gpt-oss-20b") (λ other. not_same)
        (λ other. absurd (false≢true (sym other))),
    each_running (λ i. is_ours "d" i ≡ true → is_current 2 i ≡ true → i.recipe ≡ "gpt-oss-20b")
        (λ own. absurd (false≢true own)) (λ own current. refl),
  );
}

converge-IsServed_example :
    (succeeds (converge core wants (some verified) none 2 running).0 ≡ true)
    × IsServed core wants
        (some verified)
        none
        core_reads
        (converge core wants (some verified) none 2 running).1
unfolding core_reads
converge-IsServed_example =
    converge-IsServed core wants (some verified) none core_reads core-Obeys 2 running refl
      running-IsReady (omega arith)
