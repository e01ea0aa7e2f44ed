-- ===== src/Translate/Secrets.antt =====
-- What of the host's environment a launch depends on (`expand_allowed` of
-- crates/metralectl-core/src/docker/translate.rs).
use mathlib.Core.Path.{fun_ext}
use metralectl.Prelude.{◌≡◌, refl, sym, ap, subst, ◌∙◌, true, false, Bool-cases}
use metralectl.Prelude.{
  List, [], ◌∷◌, none, String, str_eq, eq_iff, has, has-mem, ◌||◌, ◌==◌, if◌then◌else◌,
}
use metralectl.Prelude.{inl, inr, Memᴰ, filter}
use metralectl.Settings.Gate.{Overrides}
use metralectl.LocalControl.Recipes.{Recipe}
use metralectl.Translate.Maps.{get, insert, extend}
use metralectl.Translate.Chain.{resolve}
use metralectl.Translate.Environment.{
  HostSnapshot, expand, expand_allowed, with_recipe_env, build_env,
}
use metralectl.Translate.Environment.{
  allowed_env, passthrough_env, scan, or_empty, Scan, offline_env,
}
use metralectl.Translate.{Placement, LaunchContext, assembled, translate, command_of, fabric_env}

-- Only the names of the list are read.
get-filter :
    (ks : List String) (k : String) (m : List (String × String))
    → get k (filter (λ (e : String × String). has str_eq ks e.0) m)
      ≡ (if has str_eq ks k then get k m else none)
unfolding get
get-filter ks k [] = elim (Bool-cases (has str_eq ks k)) [ inl h ↦ rw h refl | inr h ↦ rw h refl ]
get-filter ks k ((j, v) ∷ m) =
    let ih = get-filter ks k m in
    elim (Bool-cases (str_eq k j)) [
      | inl same ↦
          let e = (eq_iff k j).0 same in
          elim (Bool-cases (has str_eq ks k)) [
            | inl h ↦ rw (subst (λ x. has str_eq ks x ≡ true) e h, h, same) refl
            | inr h ↦ rw (subst (λ x. has str_eq ks x ≡ false) e h, h) (rw h at ih)
          ]
      | inr other ↦ elim (Bool-cases (has str_eq ks j)) [
        | inl h ↦ rw (h, other) ih
        | inr h ↦ rw (h, other) ih
      ]
    ]

-- Two hosts that a launch cannot tell apart: the same user and the same cache, and the same value
-- for each variable that is passed through.
pub record IsAlike (g h : HostSnapshot) : Type 0 where
  pub user : g.posix_user ≡ h.posix_user
  pub cache : g.hf_cache_dir ≡ h.hf_cache_dir
  pub passed : (k : String) → Memᴰ k passthrough_env → get k g.env ≡ get k h.env

read-passed :
    (g h : HostSnapshot)
    → IsAlike g h
    → (k : String) → get k (allowed_env g.env) ≡ get k (allowed_env h.env)
read-passed g h alike k =
    get-filter passthrough_env k g.env
    ∙ elim (Bool-cases (has str_eq passthrough_env k)) [
      | inl m ↦ rw m (alike.passed k (has-mem str_eq eq_iff passthrough_env k m))
      | inr m ↦ rw m refl
    ]
    ∙ sym (get-filter passthrough_env k h.env)

module _ (c : LaunchContext) (g h : HostSnapshot) (alike : IsAlike g h) where
  expand_allowed-alike :
      (raw : String) → expand_allowed c.alphanumeric g raw ≡ expand_allowed c.alphanumeric h raw
  unfolding expand_allowed expand
  expand_allowed-alike raw =
      ap (λ value. scan (λ n. c.alphanumeric n || n == b'_') value Scan.outside raw)
        (fun_ext (λ name. ap or_empty (read-passed g h alike name)))

  with_recipe_env-alike :
      (vars env : List (String × String))
      → with_recipe_env c.alphanumeric g vars env ≡ with_recipe_env c.alphanumeric h vars env
  unfolding with_recipe_env
  with_recipe_env-alike [] env = refl
  with_recipe_env-alike ((k, v) ∷ vars) env =
      rw
        (
          expand_allowed-alike v,
          with_recipe_env-alike vars (insert k (expand_allowed c.alphanumeric h v) env),
        )
        refl

  assembled-alike :
      (recipe : Recipe) (placement : Placement) (cfg : Overrides)
      → assembled c recipe g placement cfg ≡ assembled c recipe h placement cfg
  unfolding assembled build_env command_of
  assembled-alike recipe placement cfg =
      rw
        (
          with_recipe_env-alike recipe.env (extend (fabric_env c placement) offline_env),
          alike.user,
          alike.cache,
        )
        refl

  -- Two hosts that give a launch the same user, the same cache directory and the same value for
  -- each of the six proxy variables are given the same plan or the same refusal, whatever else
  -- their environments hold.
  pub translate-alike :
      (recipe : Recipe) (overrides user : Overrides) (placement : Placement)
      → translate c recipe overrides user g placement
        ≡ translate c recipe overrides user h placement
  unfolding translate
  translate-alike recipe overrides user placement =
      rw (assembled-alike recipe placement (resolve recipe.defaults user overrides)) refl
