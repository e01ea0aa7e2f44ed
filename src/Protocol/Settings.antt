-- ===== src/Protocol/Settings.antt =====
-- What a client may set on a launch (crates/metralectl-protocol/src/settings.rs).
use metralectl.Prelude.{ℕ, Bool, List, String}

-- An `i64`; `negsuc n` is -(n + 1).
pub data ℤ : Type 0 where
  pos : ℕ → ℤ
  negsuc : ℕ → ℤ

-- An `f64`, by the 64 bits of its representation. No operation on floats is modelled.
abbrev pub Float : Type 0
Float = ℕ

pub data SettingValue : Type 0 where
  bool : Bool → SettingValue
  int : ℤ → SettingValue
  float : Float → SettingValue
  str : String → SettingValue

-- A `BTreeMap<String, SettingValue>`, its entries in key order.
abbrev pub Settings : Type 0
Settings = List (String × SettingValue)

pub data SettingError : Type 0 where
  unknown_key : String → SettingError
  denied : (key reason : String) → SettingError
  out_of_range : (key min max : String) → SettingError
  not_a_variant : (key : String) (allowed : List String) → SettingError
  wrong_type : (key expected : String) → SettingError
