-- ===== src/Translate/Environment.antt =====
-- The environment of a launch's container: the host's variables that a recipe may read, and the
-- block that it may not set (crates/metralectl-core/src/docker/translate.rs,
-- crates/metralectl-core/src/host.rs). What counts as a letter or a digit is the standard
-- library's, a parameter on code points.
use Prim.Native.Char.{Char}
use metralectl.Prelude.{ℕ, Bool, ◌||◌, List, [], ◌∷◌, Option, none, some, String, ◌<>◌, code, ◌==◌}
use metralectl.Prelude.{str_eq, has, filter, if◌then◌else◌, Result, ok, err}
use metralectl.Translate.Maps.{get, insert, extend}

pub record PosixUser : Type 0 where
  pub uid : ℕ
  pub gid : ℕ

pub record HostSnapshot : Type 0 where
  pub posix_user : Option PosixUser
  pub home : String
  pub hf_cache_dir : String
  pub env : List (String × String)

-- Where the reading of a text stands: outside a reference, after its `$`, or in its name.
pub data Scan : Type 0 where
  outside : Scan
  opened : Scan
  bare : String → Scan
  braced : String → Scan

abbrev one : Char → String
one c = String.◌∷◌ c ""

module _ (in_name : ℕ → Bool) (value : String → String) where
  -- A character outside a reference, after the text that the reference before it left.
  plain_step : String → Char → String × Scan
  plain_step before c =
      if code c == b'$' then (before, Scan.opened) else (before <> one c, Scan.outside)

  -- The value of a name; a `$` without a name stands for itself.
  named : String → String
  named name = if str_eq name "" then "$" else value name

  scan_step : Scan → Char → String × Scan
  unfolding plain_step named
  scan_step Scan.outside c = plain_step "" c
  scan_step Scan.opened c =
      if code c == b'{'
      then ("", Scan.braced "")
      else if in_name (code c)
      then ("", Scan.bare (one c))
      else plain_step "$" c
  scan_step (Scan.bare name) c =
      if in_name (code c) then ("", Scan.bare (name <> one c)) else plain_step (named name) c
  scan_step (Scan.braced name) c =
      if code c == b'}' then (named name, Scan.outside) else ("", Scan.braced (name <> one c))

  scan_end : Scan → String
  unfolding named
  scan_end Scan.outside = ""
  scan_end Scan.opened = "$"
  scan_end (Scan.bare name) = named name
  scan_end (Scan.braced name) = named name

  unfoldable pub scan : Scan → String → String
  unfolding scan_step scan_end
  scan s String.[] = scan_end s
  scan s (String.◌∷◌ c rest) = let (out, s') = scan_step s c in out <> scan s' rest

abbrev pub or_empty : Option String → String
or_empty none = ""
or_empty (some v) = v

abbrev pub passthrough_env : List String
passthrough_env =
    "HTTP_PROXY" ∷ "HTTPS_PROXY" ∷ "NO_PROXY" ∷ "http_proxy" ∷ "https_proxy" ∷ "no_proxy" ∷ []

abbrev pub egress_env : List String
egress_env = "HF_HUB_OFFLINE" ∷ "TRANSFORMERS_OFFLINE" ∷ []

abbrev pub allowed_env : List (String × String) → List (String × String)
allowed_env env = filter (λ (e : String × String). has str_eq passthrough_env e.0) env

abbrev pub container_hf_home : String
container_hf_home = "/cache/huggingface"

abbrev pub offline_env : List (String × String)
offline_env =
    ("HF_HOME", container_hf_home) ∷ ("HF_HUB_OFFLINE", "1") ∷ ("TRANSFORMERS_OFFLINE", "1") ∷ []

module _ (alphanumeric : ℕ → Bool) where
  unfoldable pub expand : HostSnapshot → String → String
  unfolding scan get
  expand host raw =
      scan (λ n. alphanumeric n || n == b'_') (λ name. or_empty (get name host.env)) Scan.outside
        raw

  unfoldable pub expand_allowed : HostSnapshot → String → String
  unfolding expand
  expand_allowed host raw = expand (record host { env = allowed_env host.env }) raw

  -- The recipe's own variables; the error is the key that it may not set.
  unfoldable pub with_recipe_env :
      HostSnapshot
      → List (String × String)
      → List (String × String)
      → Result String (List (String × String))
  unfolding expand_allowed insert
  with_recipe_env host [] env = ok env
  with_recipe_env host ((k, v) ∷ rest) env =
      let more = with_recipe_env host rest (insert k (expand_allowed host v) env) in
      if has str_eq egress_env k then err k else more

  -- The second list is the fabric's block, which only a rank of a cluster has.
  unfoldable pub build_env :
      HostSnapshot
      → List (String × String)
      → List (String × String)
      → Result String (List (String × String))
  unfolding with_recipe_env extend
  build_env host recipe_env fabric = with_recipe_env host recipe_env (extend fabric offline_env)
