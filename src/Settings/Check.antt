-- ===== src/Settings/Check.antt =====
-- The check of one value against its bound (`Bound::check` of
-- crates/metralectl-protocol/src/settings.rs). The operations on `f64` are a parameter.
use metralectl.Prelude.{
  ◌+◌, Bool, not, ◌||◌, false, true, List, Option, none, some, String, str_eq, find, ltb,
}
use metralectl.Prelude.{if◌then◌else◌, ◌<>◌, decimal, Result, ok, err}
use metralectl.Protocol.{ℤ, pos, negsuc, Float, SettingValue, SettingError}
use metralectl.Settings.Spec.{Bound}

-- IEEE 754 binary64: conversion of an `i64`, `is_finite`, `<`, `<=` and `Display`.
pub record Floats : Type 0 where
  pub of_int : ℤ → Float
  pub is_finite : Float → Bool
  pub lt : Float → Float → Bool
  pub le : Float → Float → Bool
  pub show : Float → String

abbrev pub less : ℤ → ℤ → Bool
less (pos m) (pos n) = ltb m n
less (pos m) (negsuc n) = false
less (negsuc m) (pos n) = true
less (negsuc m) (negsuc n) = ltb n m

abbrev pub int_text : ℤ → String
int_text (pos n) = decimal n
int_text (negsuc n) = "-" <> decimal (n + 1)

abbrev pub Checked : Type 0
Checked = Result SettingError SettingValue

unfoldable pub in_range : ℤ → ℤ → String → ℤ → Checked
in_range min max key n =
    if less n min || less max n
    then err (SettingError.out_of_range key (int_text min) (int_text max))
    else ok (SettingValue.int n)

abbrev pub a_variant : String → List String → Option String → Checked
a_variant key variants none = err (SettingError.not_a_variant key variants)
a_variant key variants (some v) = ok (SettingValue.str v)

module _ (f : Floats) where
  unfoldable pub in_float_range : Float → Float → String → Float → Checked
  in_float_range min max key n =
      if not (f.is_finite n) || f.lt n min || f.lt max n
      then err (SettingError.out_of_range key (f.show min) (f.show max))
      else ok (SettingValue.float n)

  -- The check, which returns the value normalized.
  unfoldable pub check_bound : Bound → String → SettingValue → Checked
  unfolding in_range in_float_range
  check_bound (Bound.int min max) key (SettingValue.int n) = in_range min max key n
  check_bound (Bound.int min max) key _ = err (SettingError.wrong_type key "a whole number")
  check_bound (Bound.float min max) key (SettingValue.float n) = in_float_range min max key n
  check_bound (Bound.float min max) key (SettingValue.int n) =
      in_float_range min max key (f.of_int n)
  check_bound (Bound.float min max) key _ = err (SettingError.wrong_type key "a number")
  check_bound (Bound.one_of variants) key (SettingValue.str s) =
      a_variant key variants (find (λ v. str_eq v s) variants)
  check_bound (Bound.one_of variants) key _ = err (SettingError.not_a_variant key variants)
  check_bound Bound.toggle key (SettingValue.bool b) = ok (SettingValue.bool b)
  check_bound Bound.toggle key _ = err (SettingError.wrong_type key "true or false")
  check_bound Bound.bool_value key (SettingValue.bool b) = ok (SettingValue.bool b)
  check_bound Bound.bool_value key _ = err (SettingError.wrong_type key "true or false")
  check_bound (Bound.int_or_auto min max) key (SettingValue.str s) =
      if str_eq s "auto"
      then ok (SettingValue.str "auto")
      else err (SettingError.wrong_type key "`auto` or a whole number")
  check_bound (Bound.int_or_auto min max) key (SettingValue.int n) = in_range min max key n
  check_bound (Bound.int_or_auto min max) key _ =
      err (SettingError.wrong_type key "`auto` or a whole number")
