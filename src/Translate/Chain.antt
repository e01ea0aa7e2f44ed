-- ===== src/Translate/Chain.antt =====
-- How a recipe's settings, the user's and a launch's become one configuration
-- (crates/metralectl-core/src/chain.rs).
use metralectl.Prelude.{Option, none, some, String}
use metralectl.Settings.Gate.{Overrides, ScalarValue}
use metralectl.Translate.Maps.{get, insert, extend, remove}

-- `entry(..).or_insert(..)`.
or_insert : String → ScalarValue → Option ScalarValue → Overrides → Overrides
unfolding insert
or_insert k v none cfg = insert k v cfg
or_insert k v (some there) cfg = cfg

folded : Option ScalarValue → Overrides → Overrides
unfolding or_insert get
folded none cfg = cfg
folded (some alias) cfg =
    let left = remove "auth_token" cfg in or_insert "api_key" alias (get "api_key" left) left

normalize : Overrides → Overrides
unfolding folded get
normalize cfg = folded (get "auth_token" cfg) cfg

unfoldable pub resolve : Overrides → Overrides → Overrides → Overrides
unfolding normalize extend
resolve defaults user overrides = normalize (extend overrides (extend user defaults))
