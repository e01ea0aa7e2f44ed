-- ===== src/Settings/Denied.antt =====
-- The flags that no client may set, with the reasons
-- (crates/metralectl-core/src/settings/denied.rs).
use metralectl.Prelude.{[], ◌∷◌}
use metralectl.Settings.Spec.{Rows, deny}

unfoldable pub denied : Rows
denied =
    ("host", deny "the bind address is a network-exposure decision the agent owns, not a client")
    ∷ (
      "served_model_name",
      deny "an unbounded name with no operational value; the only free string in the table",
    )
    ∷ (
      "mtp_vocab",
      deny "couples to the checkpoint's draft-head artifact; changing it changes what loads",
    )
    ∷ ("draft_model", deny "loads a second set of weights of the sender's choosing")
    ∷ (
      "tool_call_parser",
      deny
          "model-coupled correctness pin; changing it away from the recipe can only break tool calls",
    )
    ∷ (
      "model_from_path",
      deny
          "a filesystem path that changes which weights load — the exact vector this project exists to close",
    )
    ∷ ("cache_dir", deny "a host path controlling where weights are read and written")
    ∷ ("gpu_ordinal", deny "host hardware selection, not a property of the deployment")
    ∷ (
      "api_key",
      deny
          "a credential must not travel from a page into a command line, where `docker inspect` can read it",
    )
    ∷ ("require_auth", deny "letting a client turn authentication off is a downgrade attack")
    ∷ ("high_speed_swap", deny "unusable without a swap directory, which is a host path")
    ∷ ("high_speed_swap_dir", deny "a host path the engine writes to")
    ∷ ("high_speed_swap_gb", deny "part of the swap family, which is denied as a group")
    ∷ (
      "high_speed_swap_resident_blocks",
      deny "part of the swap family, which is denied as a group",
    )
    ∷ ("high_speed_swap_rank", deny "part of the swap family, which is denied as a group")
    ∷ ("high_speed_swap_qd", deny "part of the swap family, which is denied as a group")
    ∷ (
      "high_speed_swap_cache_blocks_per_seq",
      deny "part of the swap family, which is denied as a group",
    )
    ∷ ("no_high_speed_swap_graph", deny "part of the swap family, which is denied as a group")
    ∷ (
      "video_allow_ffmpeg",
      deny "spawns an external decoder process; a recipe may enable that, a client may not",
    )
    ∷ []
