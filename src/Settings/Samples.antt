-- ===== src/Settings/Samples.antt =====
-- Settings to run the code on, with floats that compare by their bits, as positive ones do.
use metralectl.Prelude.{[], ◌∷◌, true, leb, ltb, decimal}
use metralectl.Protocol.{pos, negsuc, SettingValue}
use metralectl.Settings.Check.{Floats}
use metralectl.Settings.Gate.{ScalarValue, Requested, Overrides}

abbrev pub floats : Floats
floats = record {
  of_int = λ n. elim n [ pos k ↦ k | negsuc k ↦ 0 ];
  is_finite = λ x. true;
  lt = λ x y. ltb x y;
  le = λ x y. leb x y;
  show = λ x. decimal x;
}

abbrev pub asked : Requested
asked = ("kv_cache_dtype", SettingValue.str "fp8") ∷ ("port", SettingValue.int (pos 8888)) ∷ []

abbrev pub kept : Overrides
kept = ("kv_cache_dtype", ScalarValue.str "fp8") ∷ ("port", ScalarValue.int (pos 8888)) ∷ []
