-- ===== src/Settings/Table.antt =====
-- The flags that a client may set, of the server, its topology and its performance
-- (crates/metralectl-core/src/settings/table.rs).
use metralectl.Prelude.{true, false, [], ◌∷◌, none, some}
use metralectl.Protocol.{pos}
use metralectl.Settings.Spec.{Rows, offer, BoundSpec, Group}

unfoldable pub exposed : Rows
exposed =
    (
      "port",
      offer (BoundSpec.int (pos 1) (pos 65535)) "Port" "Port the model server listens on." none
          Group.server false,
    )
    ∷ (
      "tensor_parallel",
      offer (BoundSpec.int (pos 1) (pos 8)) "Tensor parallel" "Tensor-parallel degree." none
          Group.topology true,
    )
    ∷ (
      "ep_size",
      offer (BoundSpec.int (pos 1) (pos 8)) "Expert parallel" "Expert-parallel degree." none
          Group.topology true,
    )
    ∷ (
      "max_batch_size",
      offer (BoundSpec.int (pos 1) (pos 256)) "Max batch size"
          "Concurrent sequences decoded together." none Group.performance false,
    )
    ∷ (
      "max_num_seqs",
      offer (BoundSpec.int (pos 1) (pos 256)) "Max sequences" "Concurrent sequences admitted." none
          Group.performance false,
    )
    ∷ (
      "max_prefill_tokens",
      offer (BoundSpec.int (pos 256) (pos 262144)) "Max prefill tokens" "Largest prefill chunk."
          (some "tokens") Group.performance false,
    )
    ∷ (
      "max_num_batched_tokens",
      offer (BoundSpec.int (pos 256) (pos 262144)) "Max batched tokens"
          "Alias of max prefill tokens." (some "tokens") Group.performance true,
    )
    ∷ (
      "scheduler",
      offer (BoundSpec.one_of ("fifo" ∷ "slai" ∷ [])) "Scheduler policy"
          "How queued requests are ordered." none Group.performance false,
    )
    ∷ (
      "scheduler_config",
      offer (BoundSpec.one_of ("sync" ∷ "async" ∷ [])) "Scheduler router"
          "sync runs every device step to completion before the next host decision; async runs one decode step ahead of the host where the model supports it."
          none Group.performance true,
    )
    ∷ (
      "tbt_deadline_ms",
      offer (BoundSpec.int (pos 1) (pos 10000)) "Time-between-tokens deadline"
          "Latency target the scheduler aims for." (some "ms") Group.performance true,
    )
    ∷ (
      "enable_prefix_caching",
      offer (BoundSpec.toggle) "Prefix caching" "Reuse KV for shared prompt prefixes." none
          Group.performance false,
    )
    ∷ []
