-- ===== src/Settings/Values.antt =====
-- The enumerated value sets (crates/metralectl-core/src/settings/values.rs).
use metralectl.Prelude.{List, [], ◌∷◌, String}

abbrev pub kv_dtypes : List String
kv_dtypes =
    "bf16" ∷ "fp8" ∷ "nvfp4" ∷ "turbo4" ∷ "turbo3" ∷ "turbo2" ∷ "turbo8" ∷ "turbo4k_turbo3v"
    ∷ "turbo4k_turbo8v" ∷ "turbo3k_turbo8v" ∷ "bf16k_turbo4v" ∷ "bf16k_turbo3v" ∷ "fp8k_turbo4v"
    ∷ "fp8k_turbo3v" ∷ "bf16k_turbo2v" ∷ "fp8k_turbo2v" ∷ []

abbrev pub dtypes : List String
dtypes = "bf16" ∷ "fp8" ∷ "nvfp4" ∷ []

abbrev pub lm_head_dtypes : List String
lm_head_dtypes = "default" ∷ "bf16" ∷ "nvfp4" ∷ "fp8" ∷ []

abbrev pub ssm_h_dtypes : List String
ssm_h_dtypes = "f32" ∷ "f16" ∷ "f16-pool" ∷ []

abbrev pub mtp_gates : List String
mtp_gates = "auto" ∷ "force" ∷ []

abbrev pub tristates : List String
tristates = "auto" ∷ "on" ∷ "off" ∷ []

abbrev pub telemetry_levels : List String
telemetry_levels = "off" ∷ "basic" ∷ "kernel" ∷ []
