-- ===== src/Settings/Gate.antt =====
-- The check of a client's overrides (crates/metralectl-core/src/settings/mod.rs), the caution
-- (caution.rs beside it) and the scalars of the config chain (crates/metralectl-core/src/scalar.rs).
use metralectl.Prelude.{
  Bool, true, false, not, ◌||◌, List, [], ◌∷◌, ◌++◌, Option, none, some, String, ◌<>◌, find, str_eq,
}
use metralectl.Prelude.{if◌then◌else◌, Result, ok, err, ◌>>=◌, ◌==◌}
use metralectl.Protocol.{ℤ, pos, negsuc, Float, SettingValue, SettingError}
use metralectl.Hardware.{classify, gb10}
use metralectl.Settings.Spec.{BoundSpec, to_bound, Disposition, Rows}
use metralectl.Settings.Table.{exposed}
use metralectl.Settings.Memory.{exposed_memory}
use metralectl.Settings.Denied.{denied}
use metralectl.Settings.Check.{Floats, check_bound, int_text}

pub data ScalarValue : Type 0 where
  bool : Bool → ScalarValue
  int : ℤ → ScalarValue
  float : Float → ScalarValue
  str : String → ScalarValue

-- A `BTreeMap<String, SettingValue>`, its entries in key order.
abbrev pub Requested : Type 0
Requested = List (String × SettingValue)

abbrev pub Overrides : Type 0
Overrides = List (String × ScalarValue)

-- `render` of a float, and whether it is not zero.
pub record Rendering : Type 0 where
  pub render_float : Float → String
  pub is_nonzero : Float → Bool

abbrev pub bool_text : Bool → String
bool_text true = "true"
bool_text false = "false"

unfoldable pub render : Rendering → ScalarValue → String
render r (ScalarValue.bool b) = bool_text b
render r (ScalarValue.int n) = int_text n
render r (ScalarValue.float x) = r.render_float x
render r (ScalarValue.str s) = s

abbrev pub is_zero_int : ℤ → Bool
is_zero_int (pos n) = n == 0
is_zero_int (negsuc n) = false

unfoldable pub is_truthy : Rendering → ScalarValue → Bool
is_truthy r (ScalarValue.bool b) = b
is_truthy r (ScalarValue.int n) = not (is_zero_int n)
is_truthy r (ScalarValue.float x) = r.is_nonzero x
is_truthy r (ScalarValue.str s) = not (str_eq s "")

-- Every flag and its disposition, in declaration order.
unfoldable pub dispositions : Rows
unfolding exposed exposed_memory denied
dispositions = exposed ++ (exposed_memory ++ denied)

abbrev pub row_disposition : Option (String × Disposition) → Option Disposition
row_disposition none = none
row_disposition (some (key, d)) = some d

unfoldable pub disposition : String → Option Disposition
unfolding dispositions
disposition key = row_disposition (find (λ row. str_eq row.0 key) dispositions)

abbrev pub to_scalar : SettingValue → ScalarValue
to_scalar (SettingValue.bool b) = ScalarValue.bool b
to_scalar (SettingValue.int n) = ScalarValue.int n
to_scalar (SettingValue.float x) = ScalarValue.float x
to_scalar (SettingValue.str s) = ScalarValue.str s

-- What a value of the command line is checked as.
abbrev pub sent_as : Rendering → BoundSpec → ScalarValue → SettingValue
sent_as r (BoundSpec.one_of variants) v = SettingValue.str (render r v)
sent_as r BoundSpec.toggle v = SettingValue.bool (is_truthy r v)
sent_as r _ (ScalarValue.bool b) = SettingValue.bool b
sent_as r _ (ScalarValue.int n) = SettingValue.int n
sent_as r _ (ScalarValue.float x) = SettingValue.float x
sent_as r _ (ScalarValue.str s) = SettingValue.str s

abbrev pub is_family : Option String → Bool
is_family none = false
is_family (some class) = str_eq class gb10

-- Whether an accelerator is the part that the caution is about.
abbrev pub is_gb10 : String → Bool
is_gb10 accelerator = is_family (classify accelerator)

-- 0.88.
abbrev pub gb10_util_caution : Float
gb10_util_caution = 4606101554889448489

module _ (f : Floats) where
  -- One key of `validate`.
  abbrev pub judged : Option Disposition → String → SettingValue → Result SettingError ScalarValue
  judged none key value = err (SettingError.unknown_key key)
  judged (some (Disposition.deny reason)) key value = err (SettingError.denied key reason)
  judged (some (Disposition.expose spec)) key value =
      check_bound f (to_bound spec.bound) key value >>= λ checked. ok (to_scalar checked)

  unfoldable pub judge : String → SettingValue → Result SettingError ScalarValue
  unfolding disposition check_bound
  judge key value = judged (disposition key) key value

  abbrev pub gather :
      String
      → Result SettingError ScalarValue
      → Overrides × List SettingError
      → Overrides × List SettingError
  gather key (ok s) (out, errors) = ((key, s) ∷ out, errors)
  gather key (err e) (out, errors) = (out, e ∷ errors)

  -- The loop of `validate`: what is kept and what is complained of, in key order.
  unfoldable pub judge_all : Requested → Overrides × List SettingError
  unfolding judge
  judge_all [] = ([], [])
  judge_all ((key, value) ∷ rest) = gather key (judge key value) (judge_all rest)

  abbrev pub unless_errors : Overrides × List SettingError → Result (List SettingError) Overrides
  unless_errors (out, []) = ok out
  unless_errors (out, e ∷ es) = err (e ∷ es)

  -- Validate a client's requested overrides.
  unfoldable pub validate : Requested → Result (List SettingError) Overrides
  unfolding judge_all
  validate requested = unless_errors (judge_all requested)

  -- The check of one override of the command line; `some` is its error.
  abbrev pub check_exposed :
      Rendering → Option Disposition → String → ScalarValue → Option SettingError
  check_exposed r (some (Disposition.expose spec)) key value =
      elim (check_bound f (to_bound spec.bound) key (sent_as r spec.bound value)) [
        | ok checked ↦ none
        | err e ↦ some e
      ]
  check_exposed r _ key value = none

  unfoldable pub check_override : Rendering → String → ScalarValue → Option SettingError
  unfolding disposition check_bound render is_truthy
  check_override r key value = check_exposed r (disposition key) key value

  -- A caution for one setting, or nothing.
  unfoldable pub caution : String → Float → String → Option String
  caution key value accelerator =
      if not (str_eq key "gpu_memory_utilization") || not (is_gb10 accelerator)
      then none
      else if f.le value gb10_util_caution
      then none
      else some (
          "gpu_memory_utilization "
          <> f.show value
          <> " is above "
          <> f.show gb10_util_caution
          <> " on "
          <> accelerator
          <> ". 0.90 has frozen a machine of this kind hard enough to need a power cycle, and "
          <> "unified memory leaves no framebuffer to fall back on. The shipped recipes run at "
          <> f.show gb10_util_caution
          <> "; raise it only if you can reach the box to reset it.")
