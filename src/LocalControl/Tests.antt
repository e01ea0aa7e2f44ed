-- ===== src/LocalControl/Tests.antt =====
-- Inputs for the laws of the control core: a machine with one recipe and a launcher that does as it
-- is asked.
use metralectl.Prelude.{
  ◌≡◌, ◌≢◌, ◌↔◌, refl, Bool, true, false, not, List, [], ◌∷◌, none, some, filter, str_eq, eq_iff,
  arith, success,
}
use metralectl.Protocol.{RecipeId, Result, ok, err, SettingValue}
use metralectl.Hardware.{check, gb10, classify}
use metralectl.Settings.Gate.{validate, caution}
use metralectl.Settings.Samples.{floats, asked, kept}
use metralectl.Reconcile.Contract.{Desired, run, this_node}
use metralectl.Reconcile.Action.{
  VerifiedRelease, LaunchFor, Workload, Admission, admits, is_open, cordoned,
}
use metralectl.Reconcile.Driver.{converge}
use metralectl.LocalControl
use metralectl.LocalControl.{gates, launch, recipe_model, fetch_image}
use metralectl.Reconcile.{decide}
use metralectl.Reconcile.Answer.{closed_by}
use metralectl.LocalControl.Recipes.{Recipe, Provenance, RuntimeKind, launchable}
use metralectl.LocalControl.Ports.{LaunchTelemetry, completed, Launcher, Local}
use metralectl.LocalControl.Gates.{Passes, gates_iff}
use metralectl.Prelude.{error, inl}
use metralectl.LocalControl.Effects.{for_request}
use metralectl.LocalControl.Core.{core_of, Keeps}

pub record Machine : Type 0 where
  pub containers : List Workload
  pub gate : Admission

abbrev pub recipe : Recipe
recipe = record {
  name = "gpt-oss-20b";
  provenance = Provenance.builtin "gpt-oss-20b.yaml";
  recipe_version = "2";
  model = "openai/gpt-oss-20b";
  model_revision = none;
  runtime = RuntimeKind.metrale;
  container = "metrale/x:latest";
  topology = record { min_nodes = 1; max_nodes = none };
  defaults = [];
  env = [];
  description = none;
  requires = some (record { hardware_class = gb10 });
  unknown_keys = [];
  refused_keys = [];
}

abbrev pub started : Recipe → LaunchFor → Workload
started r f = record { id = "c1"; instance = record { recipe = r.name; owner = f.owner } }

abbrev pub other_recipe : RecipeId → Machine → Workload → Bool
other_recipe id w x = not (str_eq x.instance.recipe id)

abbrev pub launcher : Launcher Machine
launcher = record {
  preview = λ r o w. (ok (record { command = "docker run"; unapplied = [] }), w);
  launch = λ r o f w. (
    completed (ok (record { container = "c1"; endpoint = none })),
    record { containers = started r f ∷ w.containers; gate = w.gate },
  );
  fetch_image = λ image w. (completed (success tt), w);
  stop = λ id w. (
    completed (ok tt),
    record { containers = filter (other_recipe id w) w.containers; gate = w.gate },
  );
  running = λ w. (completed (ok []), w);
  workloads = λ w. (completed (ok w.containers), w);
}

abbrev pub machine : Local Machine
machine = record {
  registry = record {
    names = "gpt-oss-20b" ∷ [];
    resolve = λ name. elim (str_eq name "gpt-oss-20b") [ true ↦ some recipe | _ ↦ none ];
  };
  launcher = launcher;
  telemetry = none;
  can_launch = none;
  accelerator = "NVIDIA GB10";
  admission = λ w. w.gate;
  floats = floats;
}

abbrev idle : Machine
idle = record { containers = []; gate = is_open }

abbrev closed : Machine
closed = record { containers = []; gate = cordoned "maintenance" }

passes_all : gates machine "gpt-oss-20b" asked (for_request none) is_open ≡ ok (recipe, kept)
unfolding gates launchable check classify validate admits
passes_all = refl

abbrev is_refused : {A : Type 0} → Result A → Bool
is_refused (ok a) = false
is_refused (err e) = true

-- 0.90 on a GB10.
refuses_share :
    is_refused (
      gates machine "gpt-oss-20b"
        (("gpu_memory_utilization", SettingValue.float 4606281698874543309) ∷ [])
        (for_request none)
        is_open)
    ≡ true
unfolding gates launchable check classify validate caution admits
refuses_share = refl

refuses_when_cordoned : (launch machine "gpt-oss-20b" [] (for_request none) closed).1 ≡ closed
unfolding launch admits
refuses_when_cordoned = refl

gates_iff_example :
    (gates machine "gpt-oss-20b" asked (for_request none) is_open ≡ ok (recipe, kept))
    ↔ Passes machine "gpt-oss-20b" asked (for_request none) is_open recipe kept
gates_iff_example = gates_iff machine "gpt-oss-20b" asked (for_request none) is_open recipe kept

abbrev sampled : LaunchTelemetry Machine
sampled = record {
  sample = λ id w. (error "no engine", w);
  logs = λ id lines w. (error "no container", record w { containers = [] });
}

abbrev telling : Local Machine
telling = record machine { telemetry = some sampled }

left_alone :
    (id : RecipeId) (x : Workload)
    → x.instance.recipe ≢ id
    → not (str_eq x.instance.recipe id) ≡ true
left_alone id x differs = ground (arith, eq_iff x.instance.recipe id)

abbrev keeps : Keeps machine
keeps = record {
  running = λ w. w.containers;
  reads = λ w. inl refl;
  fetched = λ image w. refl;
  left = other_recipe;
  stopped = λ id w. (refl, λ x differs. left_alone id x differs);
  launched = λ r o f w. record {
    front = [];
    added = started r f ∷ [];
    back = w.containers;
    from = refl;
    to = refl;
    owned = (refl, tt);
  };
}

abbrev pub wants : Desired
wants = record {
  deployment = "d";
  generation = 2;
  intent = run "gpt-oss-20b" "openai/gpt-oss-20b" this_node;
}

abbrev pub verified : VerifiedRelease
verified = record { digest = "00"; image = "i"; model = "openai/gpt-oss-20b"; signer = "01" }

-- A workload of another deployment, and an older generation of this one.
abbrev pub theirs : Workload
theirs = record { id = "c0"; instance = record { recipe = "b"; owner = none } }

abbrev pub older : Workload
older = record {
  id = "c9";
  instance = record {
    recipe = "gpt-oss-20b";
    owner = some (record { deployment = "d"; generation = 1 });
  };
}

abbrev pub running : Machine
running = record { containers = theirs ∷ older ∷ []; gate = is_open }

-- The older generation is stopped, and the new one launched.
converged_core :
    (converge (core_of machine) wants (some verified) none 4 running).1.containers
    ≡ record {
      id = "c1";
      instance = record {
        recipe = "gpt-oss-20b";
        owner = some (record { deployment = "d"; generation = 2 });
      };
    }
      ∷ theirs
      ∷ []
unfolding converge LocalControl.workloads decide recipe_model closed_by LocalControl.stop
    fetch_image launch admits launchable check classify validate
converged_core = refl
