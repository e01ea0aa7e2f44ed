-- ===== src/Settings/Tests.antt =====
-- Inputs for the laws of the settings.
use metralectl.Settings.Samples.{floats, asked, kept}
use metralectl.Prelude.{◌≡◌, ◌↔◌, refl, [], ◌∷◌, String, All, ok, err, decimal}
use metralectl.Protocol.{pos, SettingValue, SettingError}
use metralectl.Settings.Gate.{ScalarValue, validate}
use metralectl.Settings.Validated.{AllowsAll, validate_iff}
use metralectl.Settings.Strings.{IsWord, validate-IsWord}

validates : validate floats asked ≡ ok kept
unfolding validate
validates = refl

collects_every_error :
    validate floats (("api_key", SettingValue.str "x") ∷ ("port", SettingValue.int (pos 0)) ∷ [])
    ≡ err (
        SettingError.denied "api_key"
          "a credential must not travel from a page into a command line, where `docker inspect` can read it"
        ∷ SettingError.out_of_range "port" (decimal 1) (decimal 65535)
        ∷ [])
unfolding validate
collects_every_error = refl

validate_iff_example : (validate floats asked ≡ ok kept) ↔ AllowsAll floats asked kept
validate_iff_example = validate_iff floats asked kept

validate-IsWord_example : All (λ (o : String × ScalarValue). IsWord o.1) kept
validate-IsWord_example = validate-IsWord floats asked kept validates
