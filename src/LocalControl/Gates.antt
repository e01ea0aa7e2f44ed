-- ===== src/LocalControl/Gates.antt =====
-- What a launch has passed before the launcher is asked
-- (`launch` of crates/metralectl-control/src/control.rs).
use metralectl.Prelude.{
  ◌≡◌, refl, ap, subst, ◌↔◌, inl, inr, true, List, [], ◌∷◌, Option, none, some, String, str_eq,
  eq_iff, arith, Option-cases, Bool-cases, All, ◌∙◌,
}
use metralectl.Prelude.{Result as Either, ok as valid, err as invalid}
use metralectl.Protocol.{RecipeId, AgentError, Result, ok, err, Float, SettingError}
use metralectl.Hardware.{check, classify, gb10}
use metralectl.Settings.{Floats}
use metralectl.Settings.Gate.{
  ScalarValue, Requested, Overrides, validate, caution, gb10_util_caution, is_family,
}
use metralectl.Settings.Validated.{AllowsAll, validate_iff}
use metralectl.Reconcile.Action.{
  Admission, is_open, cordoned, draining, admits, LaunchFor, VerifiedRelease,
}
use metralectl.LocalControl.{
  ◌>>=◌, ◌>>◌, refuse, because, resolved, launch_refusal, hardware_refusal, model_refusal,
  bad_settings_of, check_settings, cautioned, caution_of, first_caution, resolve, gates,
}
use metralectl.LocalControl.Recipes.{
  Recipe, RuntimeKind, HardwareRequirement, runtime_refusal, refusal_of, launchable,
}
use metralectl.LocalControl.Ports.{Local}

bind-ok :
    {A B : Type 0} (m : Result A) (k : A → Result B) {b : B}
    → (m >>= k) ≡ ok b
    → (a : A) × (m ≡ ok a) × (k a ≡ ok b)
bind-ok (ok a) k h = (a, refl, h)
bind-ok (err e) k h = absurd (cc)

refuse-bind :
    {B : Type 0} (o : Option AgentError) (k : Result B) {b : B}
    → (refuse o >> k) ≡ ok b
    → (o ≡ none) × (k ≡ ok b)
refuse-bind none k h = (refl, h)
refuse-bind (some e) k h = absurd (cc)

because_iff : (id : RecipeId) (o : Option String) → (because id o ≡ none) ↔ (o ≡ none)
because_iff id none = (λ h. refl, λ h. refl)
because_iff id (some why) = (λ h. absurd (cc), λ h. absurd (cc))

admits_iff : (a : Admission) → (admits a ≡ none) ↔ (a ≡ is_open)
unfolding admits
admits_iff is_open = (λ h. refl, λ h. refl)
admits_iff (cordoned why) = (λ h. absurd (cc), λ h. absurd (cc))
admits_iff (draining why) = (λ h. absurd (cc), λ h. absurd (cc))

resolved_iff :
    (id : RecipeId) (o : Option Recipe) (r : Recipe) → (resolved id o ≡ ok r) ↔ (o ≡ some r)
resolved_iff id none r = (λ h. absurd (cc), λ h. absurd (cc))
resolved_iff id (some x) r = (λ h. ground arith, λ h. ground arith)

runtime_refusal_iff :
    (version : String) (k : RuntimeKind)
    → (runtime_refusal version k ≡ none) ↔ (k ≡ RuntimeKind.metrale)
runtime_refusal_iff version RuntimeKind.metrale = (λ h. refl, λ h. refl)
runtime_refusal_iff version (RuntimeKind.unsupported r) =
    (λ h. absurd (ground arith), λ h. absurd (cc))

-- No executable content, and the one runtime that is driven.
abbrev pub IsLaunchable : Recipe → Type 0
IsLaunchable r = (r.refused_keys ≡ []) × (r.runtime ≡ RuntimeKind.metrale)

refusal_of_iff :
    (keys : List String) (version : String) (k : RuntimeKind)
    → (refusal_of keys version k ≡ none) ↔ ((keys ≡ []) × (k ≡ RuntimeKind.metrale))
refusal_of_iff [] version k = (
  λ h. (refl, (runtime_refusal_iff version k).0 h),
  λ (_, e). (runtime_refusal_iff version k).1 e,
)
refusal_of_iff (key ∷ keys) version k = (λ h. absurd (cc), λ (e, _). absurd (cc))

launch_refusal_iff : (id : RecipeId) (r : Recipe) → (launch_refusal id r ≡ none) ↔ IsLaunchable r
unfolding launchable
launch_refusal_iff id r = (
  λ h.
      (refusal_of_iff r.refused_keys r.recipe_version r.runtime).0
        (elim (Option-cases (launchable r)) [
          | inl e ↦ e
          | inr (why, e) ↦ absurd (ground (arith, e))
        ]),
  λ i. ground (arith, (refusal_of_iff r.refused_keys r.recipe_version r.runtime).1 i),
)

-- The gate of the class that the recipe requires, if it requires one.
abbrev pub RunsHere : Option HardwareRequirement → String → Type 0
RunsHere none accelerator = Unit
RunsHere (some required) accelerator = check required.hardware_class accelerator ≡ none

hardware_refusal_iff :
    (id : RecipeId) (o : Option HardwareRequirement) (accelerator : String)
    → (hardware_refusal id o accelerator ≡ none) ↔ RunsHere o accelerator
hardware_refusal_iff id none accelerator = (λ h. tt, λ h. refl)
hardware_refusal_iff id (some required) accelerator = (λ h. ground arith, λ h. ground arith)

-- The release, where there is one, is for the model that the recipe serves.
abbrev pub ServesModel : Option VerifiedRelease → String → Type 0
ServesModel none model = Unit
ServesModel (some release) model = release.model ≡ model

model_refusal_iff :
    (id : RecipeId) (o : Option VerifiedRelease) (model : String)
    → (model_refusal id o model ≡ none) ↔ ServesModel o model
model_refusal_iff id none model = (λ h. tt, λ h. refl)
model_refusal_iff id (some release) model = (
  λ h. ground (arith, eq_iff release.model model),
  λ h. ground (arith, eq_iff release.model model),
)

bad_settings_of-ok :
    (r : Either (List SettingError) Overrides) (out : Overrides)
    → bad_settings_of r ≡ ok out
    → r ≡ valid out
bad_settings_of-ok (valid o) out h = ground arith
bad_settings_of-ok (invalid errors) out h = absurd (cc)

check_settings_iff :
    (f : Floats) (requested : Requested) (out : Overrides)
    → (check_settings f requested ≡ ok out) ↔ AllowsAll f requested out
unfolding check_settings
check_settings_iff f requested out = (
  λ h. (validate_iff f requested out).0 (bad_settings_of-ok (validate f requested) out h),
  λ a. ap bad_settings_of ((validate_iff f requested out).1 a),
)

-- On a machine of the family, a memory share above the caution's is not set remotely.
abbrev pub IsCautious : Floats → String → String × ScalarValue → Type 0
IsCautious f accelerator (key, ScalarValue.float x) =
    key ≡ "gpu_memory_utilization"
    → classify accelerator ≡ some gb10
    → f.le x gb10_util_caution ≡ true
IsCautious f accelerator (key, _) = Unit

is_gb10_iff : (o : Option String) → (is_family o ≡ true) ↔ (o ≡ some gb10)
is_gb10_iff none = (λ h. absurd (cc), λ h. absurd (cc))
is_gb10_iff (some x) = (λ h. ap some ((eq_iff x gb10).0 h), λ h. ground (arith, eq_iff x gb10))

caution_iff :
    (f : Floats) (key : String) (x : Float) (accelerator : String)
    → (caution f key x accelerator ≡ none) ↔ IsCautious f accelerator (key, ScalarValue.float x)
unfolding caution
caution_iff f key x accelerator = (
  λ h named family.
      let known : is_family (classify accelerator) ≡ true =
        (is_gb10_iff (classify accelerator)).1 family in
      elim (Bool-cases (f.le x gb10_util_caution)) [
        | inl low ↦ low
        | inr high ↦ absurd (ground (arith, eq_iff key "gpu_memory_utilization"))
      ],
  λ i. elim (Bool-cases (str_eq key "gpu_memory_utilization")) [
    | inr other ↦ rw other refl
    | inl named ↦ elim (Bool-cases (is_family (classify accelerator))) [
      | inr other ↦ rw (named, other) refl
      | inl family ↦
          let low =
            i ((eq_iff key "gpu_memory_utilization").0 named)
              ((is_gb10_iff (classify accelerator)).0 family) in
          rw (named, family, low) refl
    ]
  ],
)

caution_of_iff :
    (f : Floats) (key : String) (v : ScalarValue) (accelerator : String)
    → (caution_of f key v accelerator ≡ none) ↔ IsCautious f accelerator (key, v)
caution_of_iff f key (ScalarValue.float x) accelerator = caution_iff f key x accelerator
caution_of_iff f key (ScalarValue.bool x) accelerator = (λ h. tt, λ h. refl)
caution_of_iff f key (ScalarValue.int x) accelerator = (λ h. tt, λ h. refl)
caution_of_iff f key (ScalarValue.str x) accelerator = (λ h. tt, λ h. refl)

cautioned_iff :
    (key : String) (o : Option String) (rest : Option AgentError)
    → (cautioned key o rest ≡ none) ↔ ((o ≡ none) × (rest ≡ none))
cautioned_iff key none rest = (λ h. (refl, h), λ (_, h). h)
cautioned_iff key (some why) rest = (λ h. absurd (cc), λ (h, _). absurd (cc))

first_caution_iff :
    (f : Floats) (accelerator : String) (overrides : Overrides)
    → (first_caution f accelerator overrides ≡ none) ↔ All (IsCautious f accelerator) overrides
unfolding first_caution
first_caution_iff f accelerator [] = (λ h. tt, λ h. refl)
first_caution_iff f accelerator ((key, v) ∷ rest) =
    let own = caution_of_iff f key v accelerator in
    let later = first_caution_iff f accelerator rest in
    let step =
      cautioned_iff key (caution_of f key v accelerator) (first_caution f accelerator rest) in
    (λ h. let (a, b) = step.0 h in (own.0 a, later.0 b), λ (a, b). step.1 (own.1 a, later.1 b))

abbrev pair_of : Recipe → Overrides → Result (Recipe × Overrides) → Recipe × Overrides
pair_of r o (ok p) = p
pair_of r o (err e) = (r, o)

module _ {W : Type 0} (c : Local W) (id : RecipeId) (requested : Requested) (launch_for : LaunchFor)
    (admission : Admission) (recipe : Recipe) (overrides : Overrides) where
  -- What the launcher is handed, and all that had to hold for it.
  pub record Passes : Type 0 where
    pub can_launch : c.can_launch ≡ none
    pub admitted : admission ≡ is_open
    pub known : c.registry.resolve id ≡ some recipe
    pub is_launchable : IsLaunchable recipe
    pub runs_here : RunsHere recipe.requires c.accelerator
    pub serves : ServesModel launch_for.release recipe.model
    pub allowed : AllowsAll c.floats requested overrides
    pub cautious : All (IsCautious c.floats c.accelerator) overrides

  gates-ok : gates c id requested launch_for admission ≡ ok (recipe, overrides) → Passes
  unfolding gates resolve
  gates-ok h =
      let (a, h1) = refuse-bind _ _ h in
      let (b, h2) = refuse-bind _ _ h1 in
      let (r, d, h3) = bind-ok (resolved id (c.registry.resolve id)) _ h2 in
      let (e, h4) = refuse-bind _ _ h3 in
      let (g, h5) = refuse-bind _ _ h4 in
      let (m, h6) = refuse-bind _ _ h5 in
      let (o, s, h7) = bind-ok (check_settings c.floats requested) _ h6 in
      let (k, h8) = refuse-bind _ _ h7 in
      let same : r ≡ recipe = ap (λ p. (pair_of recipe overrides p).0) h8 in
      let same' : o ≡ overrides = ap (λ p. (pair_of recipe overrides p).1) h8 in
      record {
        can_launch = (because_iff _ _).0 a;
        admitted = (admits_iff _).0 ((because_iff _ _).0 b);
        known = (resolved_iff _ _ _).0 d ∙ ap some same;
        is_launchable = subst IsLaunchable same ((launch_refusal_iff id r).0 e);
        runs_here =
            subst (λ x. RunsHere x.requires c.accelerator) same ((hardware_refusal_iff _ _ _).0 g);
        serves =
            subst (λ x. ServesModel launch_for.release x.model) same
              ((model_refusal_iff _ _ _).0 m);
        allowed = subst (AllowsAll c.floats requested) same' ((check_settings_iff _ _ _).0 s);
        cautious =
            subst (All (IsCautious c.floats c.accelerator)) same' ((first_caution_iff _ _ _).0 k);
      }

  gates-passes : Passes → gates c id requested launch_for admission ≡ ok (recipe, overrides)
  unfolding gates resolve
  gates-passes p =
      rw
        (
          (because_iff id _).1 p.can_launch,
          (because_iff id _).1 ((admits_iff _).1 p.admitted),
          p.known,
          (launch_refusal_iff id recipe).1 p.is_launchable,
          (hardware_refusal_iff id _ _).1 p.runs_here,
          (model_refusal_iff id _ _).1 p.serves,
          (check_settings_iff _ _ _).1 p.allowed,
          (first_caution_iff _ _ _).1 p.cautious,
        )
        refl

  -- A launch reaches the launcher with a recipe and overrides just when this machine can launch and
  -- takes launches, it has that recipe, the recipe is launchable and runs on this hardware, the
  -- release is for its model, the settings are permitted and become those overrides, and none of
  -- them is one that the machine is cautioned of.
  pub gates_iff : (gates c id requested launch_for admission ≡ ok (recipe, overrides)) ↔ Passes
  gates_iff = (gates-ok, gates-passes)
