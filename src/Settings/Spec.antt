-- ===== src/Settings/Spec.antt =====
-- The shape of a disposition (crates/metralectl-core/src/settings/spec.rs), and the wire form of a
-- bound (crates/metralectl-protocol/src/settings.rs).
use metralectl.Prelude.{Bool, List, Option, String}
use metralectl.Protocol.{ℤ, Float}

pub data Group : Type 0 where
  server : Group
  performance : Group
  memory_kv : Group
  speculative : Group
  tools_chat : Group
  topology : Group

-- What values a setting accepts, on the wire.
pub data Bound : Type 0 where
  int : (min max : ℤ) → Bound
  float : (min max : Float) → Bound
  one_of : (variants : List String) → Bound
  toggle : Bound
  bool_value : Bound
  int_or_auto : (min max : ℤ) → Bound

pub data BoundSpec : Type 0 where
  int : (min max : ℤ) → BoundSpec
  float : (min max : Float) → BoundSpec
  one_of : List String → BoundSpec
  toggle : BoundSpec
  int_or_auto : (min max : ℤ) → BoundSpec

abbrev pub to_bound : BoundSpec → Bound
to_bound (BoundSpec.int min max) = Bound.int min max
to_bound (BoundSpec.float min max) = Bound.float min max
to_bound (BoundSpec.one_of variants) = Bound.one_of variants
to_bound BoundSpec.toggle = Bound.toggle
to_bound (BoundSpec.int_or_auto min max) = Bound.int_or_auto min max

pub record Spec : Type 0 where
  pub bound : BoundSpec
  pub label : String
  pub help : String
  pub unit : Option String
  pub group : Group
  pub advanced : Bool

pub data Disposition : Type 0 where
  expose : Spec → Disposition
  deny : (reason : String) → Disposition

-- The tables' constructor `e`.
abbrev pub offer : BoundSpec → String → String → Option String → Group → Bool → Disposition
offer bound label help unit group advanced = Disposition.expose (record {
  bound = bound;
  label = label;
  help = help;
  unit = unit;
  group = group;
  advanced = advanced;
})

abbrev pub Rows : Type 0
Rows = List (String × Disposition)
