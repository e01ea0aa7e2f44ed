-- ===== src/Reconcile/Driver/Tests.antt =====
-- Convergences of a concrete node: its launcher starts what it is asked to, or nothing at all.
use metralectl.Prelude.{ℕ, suc, ◌+◌, ◌≤◌, ◌≡◌, refl, arith, none, some, List, [], ◌∷◌}
use metralectl.Prelude.{inl, filter, not, str_eq, Bool, eq_iff}
use metralectl.Protocol.{ok, RecipeId}
use metralectl.Reconcile.Contract.{Desired, run, this_node}
use metralectl.Reconcile.Action.{VerifiedRelease, Workload, Admission, ControlTrace}
use metralectl.Reconcile.Action.{is_open, cordoned, LaunchFor, DeploymentAction, apply}
use metralectl.Reconcile.Answer.{Control, Target}
use metralectl.Reconcile.{decide}
use metralectl.Reconcile.Answer.{closed_by}
use metralectl.Reconcile.Driver.{converge, answer_action}
use metralectl.Reconcile.Driver.Rounds.{Reads}
use metralectl.Reconcile.Driver.Outcome.{IsTruthful, converge-IsTruthful}
use metralectl.Reconcile.Driver.Outcome.{converge-count}
use metralectl.Reconcile.Driver.Tenants.{IsLawful, others, converge-others}
use metralectl.Reconcile.Driver.Addressed.{IsHonest, answer_action-IsHonest}

-- A node: what it runs, how many launches and stops it took, and its admission.
record Node : Type 0 where
  containers : List Workload
  acts : ℕ
  gate : Admission

abbrev other_recipe : RecipeId → Workload → Bool
other_recipe recipe x = not (str_eq x.instance.recipe recipe)

abbrev started : RecipeId → LaunchFor → Workload
started recipe f = record { id = "c2"; instance = record { recipe = recipe; owner = f.owner } }

-- A launcher that does as it is asked.
abbrev obedient : Control Node
obedient = record {
  accelerator = "NVIDIA GB10";
  recipe_model = λ recipe. some "m";
  admission = λ w. w.gate;
  workloads = λ w. (ok w.containers, w);
  fetch_image = λ image w. (none, w);
  launch = λ recipe f w. (
    ok (record { container = "c2"; endpoint = none }),
    record { containers = started recipe f ∷ w.containers; acts = suc w.acts; gate = w.gate },
  );
  stop = λ recipe w. (
    ok tt,
    record {
      containers = filter (other_recipe recipe) w.containers;
      acts = suc w.acts;
      gate = w.gate;
    },
  );
}

abbrev obedient_reads : Reads obedient
obedient_reads = record { running = λ w. w.containers; reads = λ w. inl refl }

abbrev wants : Desired
wants = record { deployment = "d"; generation = 2; intent = run "a" "m" this_node }

abbrev verified : VerifiedRelease
verified = record { digest = "00"; image = "i"; model = "m"; signer = "01" }

abbrev traced : ControlTrace
traced = record { attempt = "07"; trace_id = "08" }

abbrev old_a : Workload
old_a = record {
  id = "c1";
  instance = record { recipe = "a"; owner = some (record { deployment = "d"; generation = 1 }) };
}

abbrev their_b : Workload
their_b = record { id = "c0"; instance = record { recipe = "b"; owner = none } }

abbrev before : Node
before = record { containers = old_a ∷ their_b ∷ []; acts = 0; gate = is_open }

abbrev shut : Node
shut = record before { gate = cordoned "repair" }

-- The old generation is stopped and the new one launched.
replaced : (converge obedient wants (some verified) none 2 before).1.acts ≡ 2
unfolding converge decide closed_by
replaced = refl

-- The one step allowed is the stop, and the launch is carried out all the same.
one_over : (converge obedient wants (some verified) none 1 before).1.acts ≡ 2
unfolding converge decide closed_by
one_over = refl

converge-IsTruthful_example :
    IsTruthful obedient wants
      (some verified)
      none
      obedient_reads
      (converge obedient wants (some verified) none 2 before)
converge-IsTruthful_example =
    converge-IsTruthful obedient wants (some verified) none obedient_reads 2 before

converge-count_example : (converge obedient wants (some verified) none 1 before).1.acts ≤ 0 + suc 1
converge-count_example =
    converge-count obedient wants (some verified) none obedient_reads (λ w. w.acts)
      (λ image w. refl) (λ recipe f w. omega arith) (λ recipe w. omega arith) 1 before

obedient-IsLawful : IsLawful obedient obedient_reads
obedient-IsLawful = record {
  fetched = λ image w. refl;
  left = λ recipe w. other_recipe recipe;
  stopped = λ recipe w. (refl, λ x other. ground (arith, eq_iff x.instance.recipe recipe));
  launched = λ recipe f w. record {
    front = [];
    added = started recipe f ∷ [];
    back = w.containers;
    from = refl;
    to = refl;
    owned = (refl, tt);
  };
}

converge-others_example :
    others "d" (converge obedient wants (some verified) none 2 before).1.containers
    ≡ others "d" before.containers
converge-others_example =
    converge-others obedient wants (some verified) none obedient_reads obedient-IsLawful 2 before

abbrev asked : DeploymentAction
asked = record {
  idempotency_key = "07";
  trace_id = "08";
  scope = record { tenant = "t"; project = "p" };
  deployment = "d";
  generation = 2;
  node_id = "n";
  action = apply;
  issued_at_unix_ms = 5;
}

abbrev aimed : Target
aimed = record { recipe = "a"; release = verified; placement = this_node }

answer_action-IsHonest_example :
    IsHonest obedient obedient_reads "n" asked aimed before
      (answer_action obedient "n" asked aimed 2 (λ w. 9) before)
answer_action-IsHonest_example =
    answer_action-IsHonest obedient obedient_reads "n" asked aimed 2 (λ w. 9) before
