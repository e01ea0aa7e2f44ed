-- ===== src/Settings/Memory.antt =====
-- The flags that a client may set, of memory, speculation and chat
-- (crates/metralectl-core/src/settings/memory.rs). A float is the 64 bits of its representation.
use metralectl.Prelude.{true, false, [], ◌∷◌, none, some}
use metralectl.Protocol.{pos}
use metralectl.Settings.Spec.{Rows, offer, BoundSpec, Group}
use metralectl.Settings.Values.{
  dtypes, kv_dtypes, lm_head_dtypes, mtp_gates, ssm_h_dtypes, telemetry_levels, tristates,
}

unfoldable pub exposed_memory : Rows
exposed_memory =
    (
      "gpu_memory_utilization",
      offer (BoundSpec.float 4591870180066957722 4606732058837280358) "Memory fraction"
          "Share of the memory pool the engine may use." none Group.memory_kv false,
    )
    ∷ (
      "max_model_len",
      offer (BoundSpec.int (pos 256) (pos 262144)) "Context length"
          "Longest sequence the server will accept." (some "tokens") Group.memory_kv false,
    )
    ∷ (
      "kv_cache_dtype",
      offer (BoundSpec.one_of kv_dtypes) "KV cache dtype" "Precision of the key/value cache." none
          Group.memory_kv false,
    )
    ∷ (
      "kv_high_precision_layers",
      offer (BoundSpec.int_or_auto (pos 0) (pos 256)) "High-precision KV layers"
          "Layers kept at higher KV precision." none Group.memory_kv true,
    )
    ∷ (
      "block_size",
      offer (BoundSpec.one_of ("8" ∷ "16" ∷ "32" ∷ "64" ∷ [])) "KV block size"
          "Paged-attention block size." (some "tokens") Group.memory_kv true,
    )
    ∷ (
      "oom_guard_mb",
      offer (BoundSpec.int (pos 0) (pos 16384)) "OOM guard" "Memory held back as headroom."
          (some "MB") Group.memory_kv true,
    )
    ∷ (
      "fp8_kv_calibration_tokens",
      offer (BoundSpec.int (pos 0) (pos 65536)) "FP8 KV calibration"
          "Tokens used to calibrate an FP8 KV cache." (some "tokens") Group.memory_kv true,
    )
    ∷ (
      "ssm_cache_slots",
      offer (BoundSpec.int (pos 0) (pos 4096)) "SSM cache slots"
          "State-space cache slots preallocated." none Group.memory_kv true,
    )
    ∷ (
      "ssm_checkpoint_interval",
      offer (BoundSpec.int (pos 1) (pos 8192)) "SSM checkpoint interval"
          "How often SSM state is checkpointed." none Group.memory_kv true,
    )
    ∷ (
      "speculative",
      offer (BoundSpec.toggle) "Speculative decoding" "Draft tokens ahead and verify them." none
          Group.speculative false,
    )
    ∷ (
      "self_speculative",
      offer (BoundSpec.toggle) "Self-speculative" "Draft with the model's own early layers." none
          Group.speculative true,
    )
    ∷ (
      "ngram_speculative",
      offer (BoundSpec.toggle) "N-gram speculative" "Draft from prompt n-grams." none
          Group.speculative true,
    )
    ∷ (
      "dflash",
      offer (BoundSpec.toggle) "DFlash" "Enable the DFlash draft path." none Group.speculative true,
    )
    ∷ (
      "num_drafts",
      offer (BoundSpec.int (pos 1) (pos 8)) "Draft tokens" "Tokens drafted per verification step."
          none Group.speculative false,
    )
    ∷ (
      "mtp_quantization",
      offer (BoundSpec.one_of dtypes) "MTP precision" "Precision of the draft head." none
          Group.speculative false,
    )
    ∷ (
      "dflash_gamma",
      offer (BoundSpec.int (pos 1) (pos 16)) "DFlash gamma" "DFlash draft depth." none
          Group.speculative true,
    )
    ∷ (
      "dflash_window_size",
      offer (BoundSpec.int (pos 1) (pos 8192)) "DFlash window" "DFlash lookahead window." none
          Group.speculative true,
    )
    ∷ (
      "tool_max_tokens",
      offer (BoundSpec.int (pos 64) (pos 65536)) "Tool call budget" "Token budget for a tool call."
          (some "tokens") Group.tools_chat true,
    )
    ∷ (
      "tool_grammar",
      offer (BoundSpec.one_of tristates) "Tool grammar"
          "Grammar-constrained tool calls: auto leaves it to the model, on or off pins it." none
          Group.tools_chat true,
    )
    ∷ (
      "disable_thinking",
      offer (BoundSpec.toggle) "Disable thinking" "Suppress reasoning output." none Group.tools_chat
          false,
    )
    ∷ (
      "max_thinking_budget",
      offer (BoundSpec.int (pos 0) (pos 262144)) "Thinking budget" "Cap on reasoning tokens."
          (some "tokens") Group.tools_chat true,
    )
    ∷ (
      "lm_head_dtype",
      offer (BoundSpec.one_of lm_head_dtypes) "LM head precision"
          "Precision of the output projection. Recipes pin this for correctness, not speed." none
          Group.performance true,
    )
    ∷ (
      "ssm_h_dtype",
      offer (BoundSpec.one_of ssm_h_dtypes) "SSM state precision"
          "Precision of the recurrent state carried between chunks." none Group.performance true,
    )
    ∷ (
      "gdn_fused_norm",
      offer (BoundSpec.toggle) "Fused GDN norm"
          "Fuse the gated-delta-net normalisation into the preceding kernel." none Group.performance
          true,
    )
    ∷ (
      "ssm_batched_recurrent",
      offer (BoundSpec.one_of tristates) "Batched recurrence"
          "Run the recurrent tail batched across sequences rather than one at a time: auto, on or off."
          none Group.performance true,
    )
    ∷ (
      "no_ssm_tail_midchunk",
      offer (BoundSpec.toggle) "No mid-chunk tail"
          "Capture the recurrent tail at a chunk boundary instead of inside the chunk." none
          Group.performance true,
    )
    ∷ (
      "prefill_varlen_batch",
      offer (BoundSpec.toggle) "Variable-length prefill"
          "Batch prefills of differing lengths without padding them to match." none
          Group.performance true,
    )
    ∷ (
      "w4a4_downcast",
      offer (BoundSpec.toggle) "W4A4 downcast"
          "Quantize activations to NVFP4 on the small-batch projections (up to 32 rows). A numerics change: check output quality per model."
          none Group.performance true,
    )
    ∷ (
      "w4a4_downcast_wide",
      offer (BoundSpec.toggle) "W4A4 downcast, wide"
          "Extend the W4A4 downcast from 32 to 64 rows. Only has an effect with W4A4 downcast on."
          none Group.performance true,
    )
    ∷ (
      "mtp_gate",
      offer (BoundSpec.one_of mtp_gates) "MTP gate"
          "Whether multi-token prediction is used when available, or always." none Group.speculative
          true,
    )
    ∷ (
      "telemetry",
      offer (BoundSpec.one_of telemetry_levels) "Telemetry"
          "off measures nothing; basic samples the GPU and records scheduler, cache and per-request metrics; kernel adds GPU timing spans, at a cost."
          none Group.server true,
    )
    ∷ (
      "request_timeout",
      offer (BoundSpec.int (pos 0) (pos 86400)) "Request timeout"
          "How long a single request may run before it is cut. 0 disables the deadline." (some "s")
          Group.server true,
    )
    ∷ []
