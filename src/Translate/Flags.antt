-- ===== src/Translate/Flags.antt =====
-- The serve flags that a configuration renders to (crates/metralectl-core/src/flags/mod.rs,
-- flags/table.rs).
use metralectl.Prelude.{List, [], ◌∷◌, ◌++◌, none, some, String}
use metralectl.Prelude.{str_eq, has, if◌then◌else◌, Result, ok, err}
use metralectl.Settings.Gate.{Overrides, ScalarValue, Rendering, is_truthy}
use metralectl.Settings.Gate
use metralectl.Translate.Maps.{get, insert}

pub data FlagKind : Type 0 where
  value : FlagKind
  bool_toggle : FlagKind

pub record FlagSpec : Type 0 where
  pub key : String
  pub flag : String
  pub kind : FlagKind

abbrev valued : String → String → FlagSpec
valued key flag = record { key = key; flag = flag; kind = FlagKind.value }

abbrev toggle : String → String → FlagSpec
toggle key flag = record { key = key; flag = flag; kind = FlagKind.bool_toggle }

-- The table, in the order of its declaration.
abbrev pub metrale_flags : List FlagSpec
metrale_flags =
    valued "port" "--port"
    ∷ valued "host" "--host"
    ∷ valued "tensor_parallel" "--tp-size"
    ∷ valued "gpu_memory_utilization" "--gpu-memory-utilization"
    ∷ valued "max_model_len" "--max-seq-len"
    ∷ valued "max_num_seqs" "--max-num-seqs"
    ∷ valued "max_num_batched_tokens" "--max-prefill-tokens"
    ∷ valued "served_model_name" "--model-name"
    ∷ valued "kv_cache_dtype" "--kv-cache-dtype"
    ∷ valued "ep_size" "--ep-size"
    ∷ valued "max_batch_size" "--max-batch-size"
    ∷ valued "block_size" "--block-size"
    ∷ valued "kv_high_precision_layers" "--kv-high-precision-layers"
    ∷ valued "tool_call_parser" "--tool-call-parser"
    ∷ valued "tool_max_tokens" "--tool-max-tokens"
    ∷ valued "tool_grammar" "--tool-grammar"
    ∷ valued "fp8_kv_calibration_tokens" "--fp8-kv-calibration-tokens"
    ∷ valued "scheduler" "--scheduler"
    ∷ valued "tbt_deadline_ms" "--tbt-deadline-ms"
    ∷ valued "max_prefill_tokens" "--max-prefill-tokens"
    ∷ valued "oom_guard_mb" "--oom-guard-mb"
    ∷ valued "ssm_cache_slots" "--ssm-cache-slots"
    ∷ valued "ssm_checkpoint_interval" "--ssm-checkpoint-interval"
    ∷ valued "mtp_quantization" "--mtp-quantization"
    ∷ valued "mtp_vocab" "--mtp-vocab"
    ∷ valued "num_drafts" "--num-drafts"
    ∷ valued "draft_model" "--draft-model"
    ∷ valued "dflash_gamma" "--dflash-gamma"
    ∷ valued "dflash_window_size" "--dflash-window-size"
    ∷ valued "max_thinking_budget" "--max-thinking-budget"
    ∷ valued "model_from_path" "--model-from-path"
    ∷ valued "cache_dir" "--cache-dir"
    ∷ valued "gpu_ordinal" "--gpu-ordinal"
    ∷ valued "high_speed_swap_dir" "--high-speed-swap-dir"
    ∷ valued "high_speed_swap_gb" "--high-speed-swap-gb"
    ∷ valued "high_speed_swap_resident_blocks" "--high-speed-swap-resident-blocks"
    ∷ valued "high_speed_swap_rank" "--high-speed-swap-rank"
    ∷ valued "high_speed_swap_qd" "--high-speed-swap-qd"
    ∷ valued "high_speed_swap_cache_blocks_per_seq" "--high-speed-swap-cache-blocks-per-seq"
    ∷ toggle "enable_prefix_caching" "--enable-prefix-caching"
    ∷ toggle "speculative" "--speculative"
    ∷ toggle "self_speculative" "--self-speculative"
    ∷ toggle "ngram_speculative" "--ngram-speculative"
    ∷ toggle "dflash" "--dflash"
    ∷ toggle "disable_thinking" "--disable-thinking"
    ∷ toggle "high_speed_swap" "--high-speed-swap"
    ∷ toggle "require_auth" "--require-auth"
    ∷ valued "api_key" "--auth-token"
    ∷ valued "lm_head_dtype" "--lm-head-dtype"
    ∷ valued "ssm_h_dtype" "--ssm-h-dtype"
    ∷ toggle "gdn_fused_norm" "--gdn-fused-norm"
    ∷ valued "ssm_batched_recurrent" "--ssm-batched-recurrent"
    ∷ toggle "no_ssm_tail_midchunk" "--no-ssm-tail-midchunk"
    ∷ valued "mtp_gate" "--mtp-gate"
    ∷ toggle "prefill_varlen_batch" "--prefill-varlen-batch"
    ∷ valued "request_timeout" "--request-timeout"
    ∷ toggle "video_allow_ffmpeg" "--video-allow-ffmpeg"
    ∷ valued "scheduler_config" "--scheduler-config"
    ∷ valued "telemetry" "--telemetry"
    ∷ toggle "w4a4_downcast" "--w4a4-downcast"
    ∷ toggle "w4a4_downcast_wide" "--w4a4-downcast-wide"
    ∷ toggle "no_high_speed_swap_graph" "--no-high-speed-swap-graph"
    ∷ []

pub record UnmappedKey : Type 0 where
  pub key : String
  pub rendered : String

pub record AliasConflict : Type 0 where
  pub first : String
  pub second : String
  pub flag : String

-- The flags seen so far, each with the key that claims it.
conflict_from : Overrides → List (String × String) → List FlagSpec → Result AliasConflict (Unit {0})
unfolding get insert
conflict_from cfg seen [] = ok tt
conflict_from cfg seen (spec ∷ specs) = elim (get spec.key cfg) [
  | none ↦ conflict_from cfg seen specs
  | some v ↦ elim (get spec.flag seen) [
    | some prev ↦ err (record { first = prev; second = spec.key; flag = spec.flag })
    | none ↦ conflict_from cfg (insert spec.flag spec.key seen) specs
  ]
]

unfoldable pub validate_no_alias_conflict : Overrides → Result AliasConflict (Unit {0})
unfolding conflict_from
validate_no_alias_conflict cfg = conflict_from cfg [] metrale_flags

module _ (r : Rendering) where
  -- What one flag adds to the argv.
  emitted : FlagSpec → FlagKind → ScalarValue → List String
  unfolding is_truthy Gate.render
  emitted spec FlagKind.bool_toggle v = if is_truthy r v then spec.flag ∷ [] else []
  emitted spec FlagKind.value v = spec.flag ∷ Gate.render r v ∷ []

  -- One row: the flags it adds, and the keys it claims.
  row : Overrides → List String → FlagSpec → List String × List String
  unfolding emitted get
  row cfg skip spec =
      if has str_eq skip spec.key then ([], spec.key ∷ []) else elim (get spec.key cfg) [
        | none ↦ ([], [])
        | some v ↦ (emitted spec spec.kind v, spec.key ∷ [])
      ]

  rows : Overrides → List String → List FlagSpec → List String × List String
  unfolding row
  rows cfg skip [] = ([], [])
  rows cfg skip (spec ∷ specs) =
      let (argv, claimed) = row cfg skip spec in
      let (more, others) = rows cfg skip specs in (argv ++ more, claimed ++ others)

  unmapped_keys : List String → Overrides → List UnmappedKey
  unfolding Gate.render
  unmapped_keys claimed [] = []
  unmapped_keys claimed ((k, v) ∷ rest) =
      let more = unmapped_keys claimed rest in
      if has str_eq claimed k then more else record { key = k; rendered = Gate.render r v } ∷ more

  unfoldable pub render : Overrides → List String → List String × List UnmappedKey
  unfolding rows unmapped_keys
  render cfg skip =
      let (argv, claimed) = rows cfg skip metrale_flags in (argv, unmapped_keys claimed cfg)
