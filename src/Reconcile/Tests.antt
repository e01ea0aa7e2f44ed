-- ===== src/Reconcile/Tests.antt =====
-- Decisions and convergences at a concrete node, and the theorems at them.
use metralectl.Prelude.{
  arith, false≢true, eq_iff, Memᴰ, ◌<◌, ◌≤◌, true, false, All-mem, sym, ◌≢◌, ◌≡◌, ◌↔◌, refl, none,
  some, List, [], ◌∷◌,
}
use metralectl.Protocol.{RecipeId}
use metralectl.Reconcile.{decide, is_ours, is_current, generation_of}
use metralectl.Reconcile.Contract.{Desired, Observed, Instance, Step, run, Refusal}
use metralectl.Reconcile.Contract.{this_node, Generation}
use metralectl.Reconcile.Safety.{IsOutdated, IsClear, decide-stop, decide-launch}
use metralectl.Reconcile.Sorting.{IsOwnRecipe}
use metralectl.Reconcile.Realised.{Realises, decide-converged_iff}
use metralectl.Prelude.{◌⊎◌}
use metralectl.Reconcile.Replace.{HasCurrent, MayStart, decide-replaces}
use metralectl.Reconcile.Ready.{IsReady, Progress, decide-Progress}
use metralectl.Reconcile.Stale.{IsNewest, decide-stale_iff}

-- Deployment `d` at generation 2 wants recipe `a`, and someone's `b` runs beside it.
abbrev wants : Desired
wants = record { deployment = "d"; generation = 2; intent = run "a" "m" this_node }

abbrev owned_at : RecipeId → Generation → Instance
owned_at recipe g = record {
  recipe = recipe;
  owner = some (record { deployment = "d"; generation = g });
}

abbrev beside : Instance
beside = record { recipe = "b"; owner = none }

abbrev seen_with : List Instance → Observed
seen_with is = record { instances = is; accelerator = "NVIDIA GB10"; recipe_model = some "m" }

abbrev outdated : Observed
outdated = seen_with (beside ∷ owned_at "a" 1 ∷ [])

abbrev idle : Observed
idle = seen_with (beside ∷ [])

stops_a : decide wants outdated ≡ Step.stop "a"
unfolding decide
stops_a = refl

launches_a : decide wants idle ≡ Step.launch "a"
unfolding decide
launches_a = refl

decide-stop_example : IsOutdated wants outdated "a" × IsOwnRecipe "d" "a" outdated.instances
decide-stop_example = decide-stop wants outdated "a" stops_a

decide-launch_example : IsClear wants idle "a"
decide-launch_example = decide-launch wants idle "a" launches_a

decide-converged_iff_example :
    (decide wants (seen_with (owned_at "a" 2 ∷ [])) ≡ Step.converged)
    ↔ Realises wants.intent wants (seen_with (owned_at "a" 2 ∷ []))
decide-converged_iff_example = decide-converged_iff wants (seen_with (owned_at "a" 2 ∷ []))

decide-stale_iff_example :
    (decide wants (seen_with (owned_at "a" 3 ∷ [])) ≡ Step.refuse (Refusal.stale_generation 3))
    ↔ (IsNewest wants (seen_with (owned_at "a" 3 ∷ [])) 3 × (◌<◌ 2 3))
decide-stale_iff_example = decide-stale_iff wants (seen_with (owned_at "a" 3 ∷ [])) 3

decide-replaces_example : HasCurrent wants outdated ⊎ MayStart "a" "m" this_node wants outdated
decide-replaces_example = decide-replaces wants outdated "a" "a" "m" this_node refl stops_a

outdated_each :
    (P : Instance → Type 0)
    → P beside
    → P (owned_at "a" 1)
    → (i : Instance) → Memᴰ i outdated.instances
    → P i
outdated_each P b a i m = All-mem P outdated.instances (b, (a, tt)) m

distinct : beside.recipe ≢ "a"
distinct e = false≢true ((eq_iff "b" "a").1 e)

outdated-IsReady : IsReady wants outdated
outdated-IsReady = record {
  fresh =
      outdated_each
        (λ i. is_ours "d" i ≡ true → (g : Generation) → generation_of i ≡ some g → g ≤ 2)
        (λ k g e. absurd (false≢true k)) (λ k g e. ground (arith, e));
  unshared = λ i j m n k.
      outdated_each (λ i. is_ours "d" i ≡ true → is_ours "d" j ≡ false → j.recipe ≢ i.recipe)
        (λ own. absurd (false≢true own))
        (λ own.
          outdated_each (λ j. is_ours "d" j ≡ false → j.recipe ≢ "a") (λ other. distinct)
            (λ other. absurd (false≢true (sym other))) j n)
        i m k;
  fits = (
    refl,
    refl,
    outdated_each (λ j. is_ours "d" j ≡ false → j.recipe ≢ "a") (λ other. distinct)
        (λ other. absurd (false≢true (sym other))),
    outdated_each (λ i. is_ours "d" i ≡ true → is_current 2 i ≡ true → i.recipe ≡ "a")
        (λ own. absurd (false≢true own)) (λ own now. refl),
  );
}

decide-Progress_example : Progress wants outdated (decide wants outdated)
decide-Progress_example = decide-Progress wants outdated outdated-IsReady
